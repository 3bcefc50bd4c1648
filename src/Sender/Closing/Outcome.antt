-- ===== src/Sender/Closing/Outcome.antt =====
-- How the loop of `finalize_transfer` of src/quick_share_sender.rs ends.
use hi_rodrop.Prelude.{
  if◌then◌else◌, ℕ, suc, ◌+◌, ◌≡◌, refl, sym, ap, ◌∙◌, Bool, true, false, ◌&&◌, not, inl, inr,
  Bool-cases, Option-cases, Option, none, some, List, [], ◌∷◌, All, length, ok, err, Result, arith,
  and_then, unwrap_or,
}
use hi_rodrop.Prelude.Bytes.{Bytes}
use hi_rodrop.Prelude.Int.{pos}
use hi_rodrop.Prelude.Exec.{Exec, continue, pure, ◌>>◌}
use hi_rodrop.Prelude.Loop.{go_on}
use hi_rodrop.Wire.{OfflineFrame, OfflineV1Frame, OfflineFrameType, KeepAliveFrame}
use hi_rodrop.Transport.{ErrorKind, FrameIoError, read_frame, read_exact}
use hi_rodrop.Crypto.Keys.{SessionKeys}
use hi_rodrop.Session.{
  Platform, Endpoint, read_encrypted_offline, send_encrypted_offline, answer_keep_alive,
  frame_type_of,
}
use hi_rodrop.Session.Delivery.{Brings}
use hi_rodrop.Session.Arrival.{heard, reads_one}
use hi_rodrop.Sender.Errors.{SendError}
use hi_rodrop.Sender.Session.{send_errors}
use hi_rodrop.Sender.Closing.{
  disconnection, asks, acknowledges, closing_error, answer_disconnection, take_closing, after_read,
  closing_round, wait_for_close,
}
use hi_rodrop.Sender.Closing.Termination.{wait_step}

-- A frame that the loop passes over: without a body, an answered keep-alive, or any but a disconnection.
abbrev pub idle_kind : Option OfflineFrameType → Option KeepAliveFrame → Bool
idle_kind (some OfflineFrameType.keep_alive) k = unwrap_or (and_then k (λ frame. frame.ack)) false
idle_kind (some OfflineFrameType.disconnection) k = false
idle_kind _ k = true

abbrev pub is_idle : OfflineFrame → Bool
is_idle frame = elim frame.v1 [ none ↦ true | some v1 ↦ idle_kind (frame_type_of v1) v1.keep_alive ]

abbrev pub IsIdle : OfflineFrame → Type 0
IsIdle frame = is_idle frame ≡ true

-- How the sending ends with a stream that ends so.
abbrev pub outcome : ErrorKind → Result SendError (Unit {0})
outcome ErrorKind.unexpected_eof = ok tt
outcome ErrorKind.connection_reset = ok tt
outcome ErrorKind.connection_aborted = ok tt
outcome ErrorKind.would_block =
    err (SendError.protocol "receiver did not confirm that the file was committed")
outcome ErrorKind.timed_out =
    err (SendError.protocol "receiver did not confirm that the file was committed")
outcome kind = err (SendError.frame (FrameIoError.io kind))

-- A round that ends with an action and breaks the loop is that action.
go_on_last :
    (rest m : Exec Endpoint SendError (Unit {0})) (s : Endpoint)
    → go_on rest ((m >> pure (some tt)) s) ≡ m s
go_on_last rest m s = from (m s)
  where
    from :
        (r : Result SendError (Unit {0}) × Endpoint)
        → go_on rest (continue (λ _. pure (some tt)) r.0 r.1) ≡ r
    from (ok tt, t) = refl
    from (err e, t) = refl

module _ {SecretKey PublicKey : Type 0} (platform : Platform SecretKey PublicKey) where
  open platform use {primitives, codecs}

  idle_frame :
      (kind : Option OfflineFrameType) (v1 : OfflineV1Frame) (s : Endpoint)
      → idle_kind kind v1.keep_alive ≡ true
      → take_closing platform kind v1 s ≡ (ok none, s)
  unfolding take_closing answer_keep_alive
  idle_frame (some OfflineFrameType.keep_alive) v1 s h = rw h refl
  idle_frame (some OfflineFrameType.disconnection) v1 s h = absurd (cc h)
  idle_frame _ v1 s h = refl

  idle_read :
      (frame : OfflineFrame) (s : Endpoint)
      → IsIdle frame
      → after_read platform (ok frame) s ≡ (ok none, s)
  unfolding after_read
  idle_read frame s h = elim (Option-cases frame.v1) [
    | inl e ↦ rw e refl
    | inr (v1, e) ↦ rw e (idle_frame (frame_type_of v1) v1 s (rw e at h))
  ]

  hears :
      (n : ℕ) (keys : SessionKeys) (frame : OfflineFrame) (frames : List OfflineFrame)
      (rest : Bytes) (s : Endpoint)
      → s.channel.keys ≡ keys
      → s.channel.receive_sequence ≡ pos n
      → Brings primitives codecs n keys (frame ∷ frames) rest s.stream.input
      → (tail : Bytes) × Brings primitives codecs (suc n) keys frames rest tail
        × (closing_round platform s ≡ after_read platform (ok frame) (heard s tail (suc n)))
  unfolding closing_round
  hears n keys frame frames rest s k c (wire, tail, size, i, opens, later) =
      let e = reads_one platform send_errors n s keys frame wire tail k c size i opens in
      (tail, later, λ j. after_read platform (e j).0 (e j).1)

  waits_on :
      (idle : List OfflineFrame) (n : ℕ) (keys : SessionKeys) (rest : Bytes) (s : Endpoint)
      → All IsIdle idle
      → s.channel.keys ≡ keys
      → s.channel.receive_sequence ≡ pos n
      → Brings primitives codecs n keys idle rest s.stream.input
      → wait_for_close platform s ≡ wait_for_close platform (heard s rest (n + length idle))
  waits_on [] n keys rest s quiet k c b = ap (wait_for_close platform) (here b c)
    where
      here : s.stream.input ≡ rest → s.channel.receive_sequence ≡ pos n → s ≡ heard s rest (n + 0)
      here b c =
          let same : pos (n + 0) ≡ s.channel.receive_sequence = ap pos (omega arith) ∙ sym c in
          rw (← b, same) refl
  waits_on (frame ∷ idle) n keys rest s quiet k c b =
      let (tail, later, e) = hears n keys frame idle rest s k c b in
      let next : suc n + length idle ≡ n + suc (length idle) = omega arith in
      wait_step platform s
      ∙ ap (go_on (wait_for_close platform)) (e ∙ idle_read frame (heard s tail (suc n)) quiet.0)
      ∙ waits_on idle (suc n) keys rest (heard s tail (suc n)) quiet.1 k refl later
      ∙ ap (λ m. wait_for_close platform (heard s rest m)) next

  silent :
      (s : Endpoint)
      → s.stream.input ≡ []
      → (read_encrypted_offline platform send_errors s).0
        ≡ err (SendError.frame (FrameIoError.io s.stream.ending))
  unfolding read_encrypted_offline read_frame read_exact
  silent s e = rw e refl

  after_silence :
      (kind : ErrorKind) (s : Endpoint)
      → (go_on
          (wait_for_close platform)
          (after_read platform (err (SendError.frame (FrameIoError.io kind))) s)).0
        ≡ outcome kind
  unfolding after_read closing_error
  after_silence ErrorKind.unexpected_eof s = refl
  after_silence ErrorKind.connection_reset s = refl
  after_silence ErrorKind.connection_aborted s = refl
  after_silence ErrorKind.would_block s = refl
  after_silence ErrorKind.timed_out s = refl
  after_silence _ s = refl

  silence :
      (s : Endpoint) → s.stream.input ≡ [] → (wait_for_close platform s).0 ≡ outcome s.stream.ending
  unfolding closing_round
  silence s e =
      let r = read_encrypted_offline platform send_errors s in
      ap (λ p. p.0) (wait_step platform s)
      ∙ ap (λ x. (go_on (wait_for_close platform) (after_read platform x r.1)).0) (silent s e)
      ∙ after_silence s.stream.ending r.1

  -- What the sender reports when the peer never disconnects, and sends any frames that the loop passes
  -- over: success exactly if the peer closes the connection (an end of file, a reset or an abort),
  -- the protocol error of a receiver that did not confirm if the wait times out, and otherwise
  -- the I/O error itself.
  pub wait_for_close-outcome :
      (idle : List OfflineFrame) (n : ℕ) (s : Endpoint)
      → All IsIdle idle
      → s.channel.receive_sequence ≡ pos n
      → Brings primitives codecs n s.channel.keys idle [] s.stream.input
      → (wait_for_close platform s).0 ≡ outcome s.stream.ending
  wait_for_close-outcome idle n s quiet c b =
      ap (λ p. p.0) (waits_on idle n s.channel.keys [] s quiet refl c b)
      ∙ silence (heard s [] (n + length idle)) refl

  -- A peer that sends a disconnection, behind any frames that the loop passes over, is the end of the
  -- wait. If it asks for a safe disconnection and does not acknowledge one, the sender's answer
  -- is to acknowledge, and the outcome is that of sending it; otherwise it is success, and
  -- nothing is sent.
  pub wait_for_close-disconnection :
      (idle : List OfflineFrame) (n : ℕ) (v1 : OfflineV1Frame) (frame : OfflineFrame) (rest : Bytes)
      (s : Endpoint)
      → All IsIdle idle
      → frame.v1 ≡ some v1
      → frame_type_of v1 ≡ some OfflineFrameType.disconnection
      → s.channel.receive_sequence ≡ pos n
      → (tail : Bytes) → Brings primitives codecs n s.channel.keys idle tail s.stream.input
      → Brings primitives codecs (n + length idle) s.channel.keys (frame ∷ []) rest tail
      → wait_for_close platform s ≡ (
          if asks v1.disconnection && not (acknowledges v1.disconnection)
          then send_encrypted_offline platform send_errors
              (disconnection false true)
              (heard s rest (suc (n + length idle)))
          else (ok tt, heard s rest (suc (n + length idle))))
  unfolding after_read take_closing answer_disconnection
  wait_for_close-disconnection idle n v1 frame rest s quiet w kind c tail b last =
      let u = heard s tail (n + length idle) in
      let (tail', end, e) = hears (n + length idle) s.channel.keys frame [] rest u refl refl last in
      let at : heard s tail' (suc (n + length idle)) ≡ heard s rest (suc (n + length idle)) =
        ap (λ t. heard s t (suc (n + length idle))) end in
      waits_on idle n s.channel.keys tail s quiet refl c b
      ∙ wait_step platform u
      ∙ ap (go_on (wait_for_close platform)) e
      ∙ (rw (w, kind)
          (elim (Bool-cases (asks v1.disconnection && not (acknowledges v1.disconnection))) [
            | inl y ↦ rw y (
                go_on_last (wait_for_close platform)
                  (send_encrypted_offline platform send_errors (disconnection false true))
                  (heard s tail' (suc (n + length idle)))
                ∙ ap (send_encrypted_offline platform send_errors (disconnection false true)) at)
            | inr y ↦ rw y (λ i. (ok tt, at i))
          ]))
