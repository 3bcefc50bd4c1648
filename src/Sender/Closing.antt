-- ===== src/Sender/Closing.antt =====
-- `finalize_transfer` of src/quick_share_sender.rs: the safe disconnection behind the last file. The loop has one round
-- more than there are bytes to read as fuel.
pub mod Termination
pub mod Outcome
use hi_rodrop.Prelude.{
  ℕ, suc, Bool, true, false, ◌&&◌, not, Option, none, some, leb, and_then, unwrap_or, Result, ok,
  err, if◌then◌else◌,
}
use hi_rodrop.Prelude.Int.{ℤ, pos, negsuc}
use hi_rodrop.Prelude.Exec.{Exec, pure, lift, ◌>>=◌, ◌>>◌}
use hi_rodrop.Prelude.Loop.{repeat, resume}
use hi_rodrop.Wire.{
  OfflineFrame, OfflineV1Frame, OfflineFrameType, offline_frame_type_enumeration,
  DisconnectionFrame, offline_frame, offline_v1_frame,
}
use hi_rodrop.Transport.{ErrorKind, FrameIoError}
use hi_rodrop.Session.{
  Platform, Endpoint, read_encrypted_offline, send_encrypted_offline, answer_keep_alive,
  frame_type_of,
}
use hi_rodrop.Session.Reading.{waiting}
use hi_rodrop.Sender.Errors.{SendError}
use hi_rodrop.Sender.Session.{send_errors}

abbrev pub Close : Type 0 → Type 0
Close A = Exec Endpoint SendError A

abbrev pub disconnection : Bool → Bool → OfflineFrame
disconnection request ack =
    offline_frame (record (offline_v1_frame OfflineFrameType.disconnection) {
      disconnection =
          some (record {
            request_safe_to_disconnect = some request;
            ack_safe_to_disconnect = some ack;
          });
    })

abbrev pub asks : Option DisconnectionFrame → Bool
asks frame = unwrap_or (and_then frame (λ f. f.request_safe_to_disconnect)) false

abbrev pub acknowledges : Option DisconnectionFrame → Bool
acknowledges frame = unwrap_or (and_then frame (λ f. f.ack_safe_to_disconnect)) false

-- `peer_safe_to_disconnect_version >= 1`
abbrev pub is_safe_version : ℤ → Bool
is_safe_version (pos n) = leb 1 n
is_safe_version (negsuc n) = false

-- What an error of the read comes to: a peer that closes has finalized, one that stays silent has not.
unfoldable pub closing_error : SendError → Result SendError (Option (Unit {0}))
closing_error (SendError.frame (FrameIoError.io ErrorKind.unexpected_eof)) = ok (some tt)
closing_error (SendError.frame (FrameIoError.io ErrorKind.connection_reset)) = ok (some tt)
closing_error (SendError.frame (FrameIoError.io ErrorKind.connection_aborted)) = ok (some tt)
closing_error (SendError.frame (FrameIoError.io ErrorKind.would_block)) =
    err (SendError.protocol "receiver did not confirm that the file was committed")
closing_error (SendError.frame (FrameIoError.io ErrorKind.timed_out)) =
    err (SendError.protocol "receiver did not confirm that the file was committed")
closing_error other = err other

module _ {SecretKey PublicKey : Type 0} (platform : Platform SecretKey PublicKey) where
  unfoldable pub answer_disconnection : Option DisconnectionFrame → Close (Unit {0})
  answer_disconnection frame =
      if asks frame && not (acknowledges frame)
      then send_encrypted_offline platform send_errors (disconnection false true)
      else pure tt

  unfoldable pub take_closing : Option OfflineFrameType → OfflineV1Frame → Close (Option (Unit {0}))
  take_closing (some OfflineFrameType.disconnection) v1 =
      answer_disconnection v1.disconnection >> pure (some tt)
  take_closing (some OfflineFrameType.keep_alive) v1 =
      answer_keep_alive platform send_errors v1.keep_alive >> pure none
  take_closing other v1 = pure none

  abbrev pub take_version : Option OfflineV1Frame → Close (Option (Unit {0}))
  take_version none = pure none
  take_version (some v1) = take_closing (frame_type_of v1) v1

  unfoldable pub after_read : Result SendError OfflineFrame → Close (Option (Unit {0}))
  after_read (ok frame) = take_version frame.v1
  after_read (err e) = lift (closing_error e)

  unfoldable pub closing_round : Close (Option (Unit {0}))
  closing_round = resume after_read (read_encrypted_offline platform send_errors)

  unfoldable pub wait_for_close : Close (Unit {0})
  wait_for_close s = repeat SendError.protobuf (suc (waiting s)) closing_round s

  unfoldable pub request_close : ℤ → Close (Unit {0})
  request_close version =
      if is_safe_version version
      then send_encrypted_offline platform send_errors (disconnection true false)
      else pure tt

  unfoldable pub finalize_transfer : ℤ → Close (Unit {0})
  finalize_transfer version = request_close version >> wait_for_close
