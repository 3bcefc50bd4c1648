-- ===== src/Sender/Closing/Termination.antt =====
-- The loop of `finalize_transfer` of src/quick_share_sender.rs ends.
use hi_rodrop.Prelude.{
  ℕ, suc, ◌<◌, ◌≡◌, ◌≢◌, ap, true, false, ◌&&◌, not, inl, inr, Bool-cases, Option-cases, Option,
  none, some, ok, arith,
}
use hi_rodrop.Prelude.Exec.{pure, Keeps, Keeps-bind}
use hi_rodrop.Prelude.Loop.{repeat, go_on, Falls, Falls-resume, repeat_step, repeat_same}
use hi_rodrop.Wire.{OfflineFrame, OfflineV1Frame, OfflineFrameType, DisconnectionFrame}
use hi_rodrop.Transport.{ErrorKind, FrameIoError}
use hi_rodrop.Session.{Platform, Endpoint, read_encrypted_offline, answer_keep_alive, frame_type_of}
use hi_rodrop.Session.Reading.{
  waiting, Waits, read_encrypted_offline-Lowers, answer_keep_alive-Keeps,
  send_encrypted_offline-Keeps,
}
use hi_rodrop.Sender.Errors.{SendError}
use hi_rodrop.Sender.Session.{send_errors}
use hi_rodrop.Sender.Closing.{
  disconnection, asks, acknowledges, closing_error, answer_disconnection, take_closing, after_read,
  closing_round, wait_for_close,
}

closing_error_goes_nowhere : (e : SendError) → closing_error e ≢ ok none
unfolding closing_error
closing_error_goes_nowhere (SendError.frame (FrameIoError.io ErrorKind.unexpected_eof)) h = cc h
closing_error_goes_nowhere (SendError.frame (FrameIoError.io ErrorKind.connection_reset)) h = cc h
closing_error_goes_nowhere (SendError.frame (FrameIoError.io ErrorKind.connection_aborted)) h = cc h
closing_error_goes_nowhere (SendError.frame (FrameIoError.io ErrorKind.would_block)) h = cc h
closing_error_goes_nowhere (SendError.frame (FrameIoError.io ErrorKind.timed_out)) h = cc h
closing_error_goes_nowhere _ h = cc h

module _ {SecretKey PublicKey : Type 0} (platform : Platform SecretKey PublicKey) where
  answer_disconnection-Keeps :
      (k : ℕ) (frame : Option DisconnectionFrame)
      → Keeps (Waits k) (answer_disconnection platform frame)
  unfolding answer_disconnection
  answer_disconnection-Keeps k frame = elim (Bool-cases (asks frame && not (acknowledges frame))) [
    | inl e ↦ rw e (send_encrypted_offline-Keeps platform send_errors k (disconnection false true))
    | inr e ↦ rw e (λ s h. h)
  ]

  take_closing-Keeps :
      (k : ℕ) (kind : Option OfflineFrameType) (v1 : OfflineV1Frame)
      → Keeps (Waits k) (take_closing platform kind v1)
  unfolding take_closing
  take_closing-Keeps k (some OfflineFrameType.disconnection) v1 =
      Keeps-bind (Waits k) (answer_disconnection platform v1.disconnection) (λ u. pure (some tt))
        (answer_disconnection-Keeps k v1.disconnection) (λ u s h. h)
  take_closing-Keeps k (some OfflineFrameType.keep_alive) v1 =
      Keeps-bind (Waits k) (answer_keep_alive platform send_errors v1.keep_alive) (λ u. pure none)
        (answer_keep_alive-Keeps platform send_errors k v1.keep_alive) (λ u s h. h)
  take_closing-Keeps k _ v1 = λ s h. h

  after_read-Keeps :
      (frame : OfflineFrame) (k : ℕ) → Keeps (Waits k) (after_read platform (ok frame))
  unfolding after_read
  after_read-Keeps frame k = elim (Option-cases frame.v1) [
    | inl e ↦ rw e (λ s h. h)
    | inr (v1, e) ↦ rw e (take_closing-Keeps k (frame_type_of v1) v1)
  ]

  closing_round-Falls : Falls waiting (closing_round platform)
  unfolding closing_round after_read
  closing_round-Falls =
      Falls-resume waiting (read_encrypted_offline platform send_errors) (after_read platform)
        (read_encrypted_offline-Lowers platform send_errors) after_read-Keeps
        (λ e s t h. closing_error_goes_nowhere e (ap (λ p. p.0) h))

  -- Whatever the peer sends, the wait for its disconnection ends: any fuel above the number of bytes
  -- to read gives the same, whatever the model would return at the end of the fuel, and the
  -- function satisfies the equation of the source's loop.
  pub wait_for_close_ends :
      (s : Endpoint) (n : ℕ) (stuck : SendError)
      → waiting s < n
      → (repeat stuck n (closing_round platform) s ≡ wait_for_close platform s)
        × (wait_for_close platform s ≡ go_on (wait_for_close platform) (closing_round platform s))
  unfolding wait_for_close
  wait_for_close_ends s n stuck h = (
    repeat_same waiting (closing_round platform) stuck SendError.protobuf closing_round-Falls n
        (suc (waiting s)) s h (omega arith),
    repeat_step waiting (closing_round platform) SendError.protobuf closing_round-Falls s,
  )

  pub wait_step :
      (s : Endpoint)
      → wait_for_close platform s ≡ go_on (wait_for_close platform) (closing_round platform s)
  wait_step s = (wait_for_close_ends s (suc (waiting s)) SendError.protobuf (omega arith)).1
