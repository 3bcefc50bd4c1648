-- ===== src/Receiver/Transfer/Saved.antt =====
-- The paths that `receive_all` of src/quick_share_receiver.rs returns, for a transfer that `prepare` let through.
use hi_rodrop.Prelude.{
  ℕ, ◌≡◌, ap, Bool, true, false, Option, some, List, [], ◌&&◌, inl, inr, Bool-cases, ok, ok_or,
  Result, All, suc, ltb, arith, ◌∷◌,
}
use mathlib.Core.Path.{subst}
use hi_rodrop.Prelude.Exec.{lift, gets, ◌>>=◌, ◌>>◌, Keeps, Keeps-bind, bind_inverse}
use hi_rodrop.Prelude.Map.{Map, AllValues}
use hi_rodrop.Prelude.Loop.{Keeps-repeat}
use hi_rodrop.Wire.{
  OfflineFrame, OfflineV1Frame, OfflineFrameType, PayloadTransferFrame, IntroductionFrame,
}
use hi_rodrop.Storage.FilePath.{FilePath}
use hi_rodrop.Storage.Disk.{Disk}
use hi_rodrop.Storage.Parents.Inside.{IsBelow}
use hi_rodrop.Session.{
  Platform, Conversation, on_endpoint, on_own, draw_u64, read_encrypted_offline, listen,
  listen_round, unread, frame_type_of,
}
use hi_rodrop.Receiver.Errors.{ReceiveError}
use hi_rodrop.Receiver.Session.{receive_errors}
use hi_rodrop.Receiver.Pending.{PendingFile, PendingTransfer}
use hi_rodrop.Receiver.Pending.Prepare.{
  prepare, prepare_files, prepare_texts, check_total, is_empty_list, max_total_transfer_bytes,
}
use hi_rodrop.Receiver.Pending.Prepare.Accounts.{IsPlaced}
use hi_rodrop.Receiver.Pending.Prepare.Total.{prepare-IsPrepared}
use hi_rodrop.Receiver.Transfer.{
  Incoming, transfer_of, is_waiting, receive_transfer, payload_type_of, receive_with, receive_frame,
  until_complete, receive_offline, while_waiting, take_completed, receive_all,
}
use hi_rodrop.Receiver.Transfer.Confined.{IsKept, IsConfined}
use hi_rodrop.Receiver.Transfer.Inside.{receive_transfer_confined}

module _ {SecretKey PublicKey : Type 0} (platform : Platform SecretKey PublicKey) (clock : ℕ → ℕ)
    (directory : FilePath) where
  abbrev Within : Conversation Incoming → Type 0
  Within s = IsConfined directory (transfer_of s.own)

  receive_with-Within :
      (transfer : PayloadTransferFrame) (random : ℕ)
      → Keeps Within (receive_with platform clock transfer random)
  receive_with-Within transfer random =
      Keeps-bind Within (gets (λ s. clock s.endpoint.drawn))
        (λ timestamp.
          on_own (receive_transfer timestamp random (payload_type_of transfer) transfer))
        (λ s c. c)
        (λ timestamp s.
          receive_transfer_confined directory timestamp random (payload_type_of transfer) transfer
            s.own)

  receive_frame-Within :
      (kind : Option OfflineFrameType) (v1 : OfflineV1Frame)
      → Keeps Within (receive_frame platform clock kind v1)
  unfolding receive_frame
  receive_frame-Within (some OfflineFrameType.keep_alive) v1 = λ s c. c
  receive_frame-Within (some OfflineFrameType.payload_transfer) v1 =
      Keeps-bind Within
        (lift (ok_or v1.payload_transfer (ReceiveError.protocol "missing payload transfer")))
        (λ transfer.
          on_endpoint (draw_u64 platform receive_errors) >>= receive_with platform clock transfer)
        (λ s c. c)
        (λ transfer.
          Keeps-bind Within (on_endpoint (draw_u64 platform receive_errors))
            (receive_with platform clock transfer) (λ s c. c) (receive_with-Within transfer))
  receive_frame-Within _ v1 = λ s c. c

  receive_offline-Within :
      (frame : OfflineFrame) → Keeps Within (receive_offline platform clock frame)
  unfolding receive_offline
  receive_offline-Within frame =
      Keeps-bind Within (lift (ok_or frame.v1 (ReceiveError.protocol "missing encrypted v1 frame")))
        (λ v1. receive_frame platform clock (frame_type_of v1) v1 >> until_complete) (λ s c. c)
        (λ v1.
          Keeps-bind Within (receive_frame platform clock (frame_type_of v1) v1)
            (λ u. until_complete) (receive_frame-Within (frame_type_of v1) v1) (λ u s c. c))

  while_waiting-Within : (waiting : Bool) → Keeps Within (while_waiting platform clock waiting)
  unfolding listen
  while_waiting-Within true = λ s.
      Keeps-repeat Within ReceiveError.disconnected (suc (unread s))
        (listen_round platform receive_errors (receive_offline platform clock))
        (Keeps-bind Within (on_endpoint (read_encrypted_offline platform receive_errors))
          (receive_offline platform clock) (λ s c. c) receive_offline-Within)
        s
  while_waiting-Within false = λ s c. c

  -- Whatever the peer sends, if everything that is waited for has its place below the directory, so
  -- has every path that is returned, and on every branch it stays so for what is still waited for
  -- and saved.
  receive_all-Within :
      (s t : Conversation Incoming) (paths : List FilePath)
      → Within s
      → receive_all platform clock s ≡ (ok paths, t)
      → All (IsBelow directory) paths
  unfolding receive_all
  receive_all-Within s t paths c e =
      let w = is_waiting (transfer_of s.own) in
      let (_, u, e1, e2) =
        bind_inverse (while_waiting platform clock w) (λ _. take_completed) s t paths e in
      let done : IsConfined directory (transfer_of u.own) =
        subst Within (ap (λ (p : Result ReceiveError (Unit {0}) × Conversation Incoming). p.1) e1)
          (while_waiting-Within w s c) in
      let same : (transfer_of u.own).completed ≡ paths = cc e2 in
      subst (All (IsBelow directory)) same done.completed

placed-kept :
    (directory : FilePath) (m : Map PendingFile)
    → AllValues (IsPlaced directory) m
    → AllValues (IsKept directory) m
placed-kept directory [] h = tt
placed-kept directory ((id, f) ∷ m) h = ((h.0.1, omega (arith, h.0.0)), placed-kept directory m h.1)

-- Nothing is listed as completed yet.
abbrev IsStarted : FilePath → PendingTransfer → Type 0
IsStarted directory t = (t.completed ≡ []) × (t.download_directory ≡ directory)

prepare-IsStarted :
    (directory : FilePath) (process_id : ℕ) (random : ℕ → ℕ) (introduction : IntroductionFrame)
    (t : PendingTransfer) (d e : Disk)
    → prepare directory process_id random introduction d ≡ (ok t, e)
    → IsStarted directory t
unfolding prepare check_total
prepare-IsStarted directory process_id random introduction t d e h =
    elim (Bool-cases
      (is_empty_list introduction.file_metadata && is_empty_list introduction.text_metadata)) [
        | inl x ↦ absurd (cc (rw x at h))
        | inr x ↦
            let (files, d1, _, h1) =
              bind_inverse
                (prepare_files directory process_id random introduction.file_metadata 0 [] 0)
                (λ files.
                  prepare_texts directory process_id random introduction.text_metadata files.0 []
                    files.1
                  >>= check_total directory process_id random introduction.preview_payload_ids
                      files.0)
                d e t (rw x at h) in
            let (texts, d2, _, h2) =
              bind_inverse
                (prepare_texts directory process_id random introduction.text_metadata files.0 []
                  files.1)
                (check_total directory process_id random introduction.preview_payload_ids files.0)
                d1 e t h1 in
            elim (Bool-cases (ltb max_total_transfer_bytes texts.1)) [
              | inl y ↦ absurd (cc (rw y at h2))
              | inr y ↦ (ground (arith, y, h2), ground (arith, y, h2))
            ]
      ]

module _ {SecretKey PublicKey : Type 0} (platform : Platform SecretKey PublicKey)
    (clock : ℕ → ℕ) where
  -- Whatever introduction a peer makes and whatever it then sends, every path that a transfer reports as
  -- saved is strictly below the download directory by safe names only: of a transfer that `prepare` let
  -- through, with any disk, stream and channel, all paths that `receive_all` returns are so.
  pub receive_all-prepare-IsBelow :
      (directory : FilePath) (process_id : ℕ) (random : ℕ → ℕ) (introduction : IntroductionFrame)
      (transfer : PendingTransfer) (d e : Disk) (s t : Conversation Incoming)
      (paths : List FilePath)
      → prepare directory process_id random introduction d ≡ (ok transfer, e)
      → transfer_of s.own ≡ transfer
      → receive_all platform clock s ≡ (ok paths, t)
      → All (IsBelow directory) paths
  receive_all-prepare-IsBelow directory process_id random introduction transfer d e s t paths p same
        r =
      let (placed, _, _, _, _) =
        prepare-IsPrepared directory process_id random introduction transfer d e p in
      let started = prepare-IsStarted directory process_id random introduction transfer d e p in
      receive_all-Within platform clock directory s t paths
        (rw same (record {
          files = placed-kept directory transfer.files placed;
          completed = rw (started.0) tt;
          download_directory = started.1;
        }))
        r
