-- ===== src/Receiver/Transfer/Termination.antt =====
-- The loop of `receive_all` of src/quick_share_receiver.rs ends, and what it leaves when it ends well.
use hi_rodrop.Prelude.{
  ℕ, suc, ◌<◌, ◌≡◌, refl, sym, ap, ◌∙◌, Bool, true, false, inl, inr, Bool-cases, Option, some, List,
  [], ok, ok_or, Result, ◌∷◌, not, ◌||◌,
}
use hi_rodrop.Prelude.Exec.{lift, gets, ◌>>=◌, ◌>>◌, Keeps, Keeps-bind, bind_inverse}
use hi_rodrop.Prelude.Loop.{repeat, go_on, repeat_inverse}
use hi_rodrop.Wire.{OfflineFrame, OfflineV1Frame, OfflineFrameType, PayloadTransferFrame}
use hi_rodrop.Session.{
  Platform, Conversation, on_endpoint, on_own, draw_u64, unread, listen, listen_round,
  frame_type_of, read_encrypted_offline,
}
use hi_rodrop.Session.Reading.{answer_keep_alive-Keeps}
use hi_rodrop.Session.Listening.{Unread, listen_step, listen_enough}
use hi_rodrop.Storage.FilePath.{FilePath}
use hi_rodrop.Prelude.Map.{Map, is_empty}
use hi_rodrop.Receiver.Pending.{PendingTransfer, PendingFile, PendingText}
use hi_rodrop.Receiver.Errors.{ReceiveError}
use hi_rodrop.Receiver.Session.{receive_errors}
use hi_rodrop.Receiver.Transfer.{
  Incoming, transfer_of, is_waiting, receive_transfer, payload_type_of, receive_with, receive_frame,
  until_complete, receive_offline, while_waiting, take_completed, receive_all,
}

not_waiting : (t : PendingTransfer) → is_waiting t ≡ false → (t.files ≡ []) × (t.texts ≡ [])
not_waiting t h = both t.files t.texts h
  where
    both :
        (files : Map PendingFile) (texts : Map PendingText)
        → (not (is_empty files) || not (is_empty texts)) ≡ false
        → (files ≡ []) × (texts ≡ [])
    both [] [] h = (refl, refl)
    both [] (x ∷ xs) h = absurd (cc h)
    both (x ∷ xs) texts h = absurd (cc h)

complete_inverse :
    (v u : Conversation Incoming)
    → until_complete v ≡ (ok (some tt), u)
    → is_waiting (transfer_of u.own) ≡ false
complete_inverse v u e = elim (Bool-cases (is_waiting (transfer_of v.own))) [
  | inl w ↦ absurd (cc (rw w at e))
  | inr w ↦ let same : v ≡ u = cc e in rw (← same) w
]

module _ {SecretKey PublicKey : Type 0} (platform : Platform SecretKey PublicKey)
    (clock : ℕ → ℕ) where
  receive_with-Keeps :
      (k : ℕ) (transfer : PayloadTransferFrame) (random : ℕ)
      → Keeps (Unread k) (receive_with platform clock transfer random)
  receive_with-Keeps k transfer random =
      Keeps-bind (Unread k) (gets (λ s. clock s.endpoint.drawn))
        (λ timestamp.
          on_own (receive_transfer timestamp random (payload_type_of transfer) transfer))
        (λ s h. h) (λ timestamp s h. h)

  receive_frame-Keeps :
      (k : ℕ) (kind : Option OfflineFrameType) (v1 : OfflineV1Frame)
      → Keeps (Unread k) (receive_frame platform clock kind v1)
  unfolding receive_frame
  receive_frame-Keeps k (some OfflineFrameType.keep_alive) v1 =
      λ s. answer_keep_alive-Keeps platform receive_errors k v1.keep_alive s.endpoint
  receive_frame-Keeps k (some OfflineFrameType.payload_transfer) v1 =
      Keeps-bind (Unread k)
        (lift (ok_or v1.payload_transfer (ReceiveError.protocol "missing payload transfer")))
        (λ transfer.
          on_endpoint (draw_u64 platform receive_errors) >>= receive_with platform clock transfer)
        (λ s h. h)
        (λ transfer.
          Keeps-bind (Unread k) (on_endpoint (draw_u64 platform receive_errors))
            (receive_with platform clock transfer) (λ s h. h) (receive_with-Keeps k transfer))
  receive_frame-Keeps k (some OfflineFrameType.disconnection) v1 = λ s h. h
  receive_frame-Keeps k _ v1 = λ s h. h

  pub receive_offline-Keeps :
      (frame : OfflineFrame) (k : ℕ) → Keeps (Unread k) (receive_offline platform clock frame)
  unfolding receive_offline
  receive_offline-Keeps frame k =
      Keeps-bind (Unread k)
        (lift (ok_or frame.v1 (ReceiveError.protocol "missing encrypted v1 frame")))
        (λ v1. receive_frame platform clock (frame_type_of v1) v1 >> until_complete) (λ s h. h)
        (λ v1.
          Keeps-bind (Unread k) (receive_frame platform clock (frame_type_of v1) v1)
            (λ u. until_complete) (receive_frame-Keeps k (frame_type_of v1) v1) (λ u s h. h))

  round_complete :
      (v u : Conversation Incoming)
      → listen_round platform receive_errors (receive_offline platform clock) v ≡ (ok (some tt), u)
      → is_waiting (transfer_of u.own) ≡ false
  unfolding receive_offline
  round_complete v u e =
      let (frame, v1, _, e1) =
        bind_inverse (on_endpoint (read_encrypted_offline platform receive_errors))
          (receive_offline platform clock) v u (some tt) e in
      let (f, v2, _, e2) =
        bind_inverse (lift (ok_or frame.v1 (ReceiveError.protocol "missing encrypted v1 frame")))
          (λ f. receive_frame platform clock (frame_type_of f) f >> until_complete) v1 u (some tt)
          e1 in
      let (_, v3, _, e3) =
        bind_inverse (receive_frame platform clock (frame_type_of f) f) (λ _. until_complete) v2 u
          (some tt) e2 in
      complete_inverse v3 u e3

  loop_complete :
      (waiting : Bool) (s u : Conversation Incoming)
      → is_waiting (transfer_of s.own) ≡ waiting
      → while_waiting platform clock waiting s ≡ (ok tt, u)
      → is_waiting (transfer_of u.own) ≡ false
  unfolding listen
  loop_complete true s u w e =
      let (v, e1) =
        repeat_inverse ReceiveError.disconnected (suc (unread s))
          (listen_round platform receive_errors (receive_offline platform clock)) s u tt e in
      round_complete v u e1
  loop_complete false s u w e = let same : s ≡ u = cc e in rw (← same) w

  -- A transfer that ends well returns exactly the paths that its loop has listed as completed when it stops,
  -- and behind it waits for nothing: no file, no text and no completed path is left in its tables.
  pub receive_all_complete :
      (s t : Conversation Incoming) (paths : List FilePath)
      → receive_all platform clock s ≡ (ok paths, t)
      → (u : Conversation Incoming) × (while_waiting platform clock
            (is_waiting (transfer_of s.own))
            s
          ≡ (ok tt, u))
        × (paths ≡ (transfer_of u.own).completed)
        × ((transfer_of t.own).files ≡ [])
        × ((transfer_of t.own).texts ≡ [])
        × ((transfer_of t.own).completed ≡ [])
  unfolding receive_all
  receive_all_complete s t paths e =
      let w = is_waiting (transfer_of s.own) in
      let (_, u, e1, e2) =
        bind_inverse (while_waiting platform clock w) (λ _. take_completed) s t paths e in
      let none_left = not_waiting (transfer_of u.own) (loop_complete w s u refl e1) in
      let after : take_completed u ≡ (ok paths, t) = e2 in
      (
        u,
        e1,
        cc after,
        ap
              (λ (p : Result ReceiveError (List FilePath) × Conversation Incoming).
                (transfer_of p.1.own).files)
              (sym after)
            ∙ none_left.0,
        ap
              (λ (p : Result ReceiveError (List FilePath) × Conversation Incoming).
                (transfer_of p.1.own).texts)
              (sym after)
            ∙ none_left.1,
        ap
            (λ (p : Result ReceiveError (List FilePath) × Conversation Incoming).
              (transfer_of p.1.own).completed)
            (sym after),
      )

  -- Whatever has come in, the loop of `receive_all` ends: any fuel above the number of bytes to read
  -- gives the same, whatever the model would return at the end of the fuel, and the loop
  -- satisfies the equation of the source's `while`.
  pub receive_all_ends :
      (s : Conversation Incoming) (n : ℕ) (stuck : ReceiveError)
      → unread s < n
      → let loop =
          listen platform receive_errors ReceiveError.disconnected
            (receive_offline platform clock) in
        let round = listen_round platform receive_errors (receive_offline platform clock) in
        (repeat stuck n round s ≡ loop s) × (loop s ≡ go_on loop (round s))
  receive_all_ends s n stuck h = (
    listen_enough platform receive_errors (receive_offline platform clock) receive_offline-Keeps
        ReceiveError.disconnected stuck s n h,
    listen_step platform receive_errors (receive_offline platform clock) receive_offline-Keeps
        ReceiveError.disconnected s,
  )
