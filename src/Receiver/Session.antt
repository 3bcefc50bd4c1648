-- ===== src/Receiver/Session.antt =====
-- The receiver's side of a session, up to the introduction (src/quick_share_receiver.rs):
-- `read_next_sharing_frame`, `send_sharing_frame` and the frames that it sends before the files come.

pub mod Termination
pub mod Delivery
use hi_rodrop.Prelude.{
  ℕ, suc, Bool, Option, map, none, some, length, ok_or, and_then, if◌then◌else◌, guard, Result,
}
use hi_rodrop.Prelude.Int.{ℤ, is_value}
use hi_rodrop.Prelude.Bytes.{Bytes}
use hi_rodrop.Prelude.Exec.{Exec, pure, raise, lift, focus, ◌>>=◌, ◌>>◌}
use hi_rodrop.Wire.{
  OfflineFrame, OfflineV1Frame, OfflineFrameType, PayloadTransferFrame, PayloadType,
  payload_type_enumeration, SharingFrame, SharingFrameType, sharing_frame_type_enumeration,
  SharingResponseStatus, sharing_response_status_enumeration, SharingOsType,
  sharing_os_type_enumeration, PairedKeyStatus, paired_key_status_enumeration, sharing_frame,
  sharing_v1_frame,
}
use hi_rodrop.Wire.Enumeration.{as_i32}
use hi_rodrop.Session.{
  Platform, Errors, Endpoint, draw_bytes, draw_u64, Talk, on_endpoint, on_own, listen,
  answer_keep_alive, send_frames, transfer_frame, frame_type_of,
}
use hi_rodrop.Receiver.Errors.{ReceiveError}
use hi_rodrop.Receiver.Assembler.{BytesAssembler, push, sharing_transfers}
use hi_rodrop.Receiver.Pending.{as_i64}

abbrev pub receive_errors : Errors ReceiveError
receive_errors = record { frame = ReceiveError.frame; crypto = ReceiveError.crypto }

abbrev pub Step : Type 0 → Type 0
Step A = Talk BytesAssembler ReceiveError A

unfoldable pub require_sharing_type :
    SharingFrame → SharingFrameType → Result ReceiveError (Unit {0})
require_sharing_type frame expected =
    guard (is_value (and_then frame.v1 (λ v1. v1.frame_type)) (as_i32 expected))
      (ReceiveError.protocol "unexpected sharing frame type")

abbrev pub has_payload_type : PayloadTransferFrame → PayloadType → Bool
has_payload_type transfer payload_type =
    is_value (and_then transfer.payload_header (λ header. header.payload_type))
      (as_i32 payload_type)

module _ {SecretKey PublicKey : Type 0} (platform : Platform SecretKey PublicKey) where
  -- A message that is complete is decoded and ends the loop.
  abbrev pub decode_message : Option (ℤ × Bytes) → Step (Option SharingFrame)
  decode_message none = pure none
  decode_message (some (id, bytes)) = do
    frame ← lift (ok_or (platform.sharing_frame.decode bytes) ReceiveError.protobuf)
    pure (some frame)

  unfoldable pub take_transfer : PayloadTransferFrame → Step (Option SharingFrame)
  take_transfer transfer =
      if has_payload_type transfer PayloadType.bytes
      then on_own (push transfer) >>= decode_message
      else pure none

  unfoldable pub take_frame : Option OfflineFrameType → OfflineV1Frame → Step (Option SharingFrame)
  take_frame (some OfflineFrameType.keep_alive) v1 =
      on_endpoint (answer_keep_alive platform receive_errors v1.keep_alive) >> pure none
  take_frame (some OfflineFrameType.payload_transfer) v1 = do
    transfer ← lift (ok_or v1.payload_transfer (ReceiveError.protocol "missing payload transfer"))
    take_transfer transfer
  take_frame (some OfflineFrameType.disconnection) v1 = raise ReceiveError.disconnected
  take_frame other v1 = pure none

  unfoldable pub take_offline : OfflineFrame → Step (Option SharingFrame)
  take_offline frame = do
    v1 ← lift (ok_or frame.v1 (ReceiveError.protocol "missing encrypted v1 frame"))
    take_frame (frame_type_of v1) v1

  unfoldable pub read_next_sharing_frame : Step SharingFrame
  read_next_sharing_frame = listen platform receive_errors ReceiveError.disconnected take_offline

  -- The id of a payload is `next_u64() as i64`.
  unfoldable pub send_sharing_frame : SharingFrame → Exec Endpoint ReceiveError (Unit {0})
  send_sharing_frame sharing = do
    id ← draw_u64 platform receive_errors
    send_frames platform receive_errors
        (map transfer_frame (sharing_transfers (as_i64 id) (platform.sharing_frame.encode sharing)))

  abbrev pub paired_key_encryption : Bytes → Bytes → SharingFrame
  paired_key_encryption signed_data secret_id_hash =
      sharing_frame (record (sharing_v1_frame SharingFrameType.paired_key_encryption) {
        paired_key_encryption = some (record {
          signed_data = some signed_data;
          secret_id_hash = some secret_id_hash;
          optional_signed_data = none;
          qr_code_handshake_data = none;
        });
      })

  unfoldable pub send_paired_key_encryption : Exec Endpoint ReceiveError (Unit {0})
  send_paired_key_encryption = do
    signed_data ← draw_bytes platform receive_errors 72
    secret_id_hash ← draw_bytes platform receive_errors 6
    send_sharing_frame (paired_key_encryption signed_data secret_id_hash)

  abbrev pub paired_key_result : SharingFrame
  paired_key_result = sharing_frame (record (sharing_v1_frame SharingFrameType.paired_key_result) {
    paired_key_result = some (record {
      status = some (as_i32 PairedKeyStatus.unable);
      os_type = some (as_i32 SharingOsType.macos);
    });
  })

  unfoldable pub send_paired_key_result : Exec Endpoint ReceiveError (Unit {0})
  send_paired_key_result = send_sharing_frame paired_key_result

  abbrev pub sharing_response : SharingResponseStatus → SharingFrame
  sharing_response status = sharing_frame (record (sharing_v1_frame SharingFrameType.response) {
    connection_response = some (record { status = some (as_i32 status) });
  })

  unfoldable pub send_sharing_response :
      SharingResponseStatus → Exec Endpoint ReceiveError (Unit {0})
  send_sharing_response status = send_sharing_frame (sharing_response status)
