-- ===== src/Sender/Session.antt =====
-- The sender's side of a session (src/quick_share_sender.rs): `read_next_sharing_frame`,
-- `send_sharing_frame` and the frames that it sends before the files. Its loop, like the
-- receiver's, has one round more than there are bytes to read as fuel.
use hi_rodrop.Prelude.{
  Option, map, none, some, List, [], ◌∷◌, length, Result, ok_or, and_then, guard,
}
use hi_rodrop.Prelude.Int.{ℤ, pos, is_value}
use hi_rodrop.Prelude.Bytes.{Bytes}
use hi_rodrop.Prelude.Exec.{Exec, pure, raise, lift, ◌>>=◌, ◌>>◌}
use hi_rodrop.Wire.{
  OfflineFrame, OfflineV1Frame, OfflineFrameType, offline_frame_type_enumeration,
  PayloadTransferFrame, SharingFrame, SharingFrameType, sharing_frame_type_enumeration,
  PairedKeyStatus, paired_key_status_enumeration, sharing_frame, sharing_v1_frame, FileMetadata,
  IntroductionFrame, SharingUseCase, sharing_use_case_enumeration, default_introduction,
  file_type_enumeration,
}
use hi_rodrop.Wire.Enumeration.{as_i32}
use hi_rodrop.Session.{
  Platform, Errors, Endpoint, draw_bytes, draw_u64, Talk, on_endpoint, on_own, listen,
  answer_keep_alive, send_frames, transfer_frame, frame_type_of,
}
use hi_rodrop.Receiver.Assembler.{data_transfer, body_chunk, last_chunk}
use hi_rodrop.Receiver.Pending.{as_i64}
use hi_rodrop.Sender.Errors.{SendError}
use hi_rodrop.Sender.Assembler.{BytesAssembler, push}
use hi_rodrop.Sender.Files.{OutgoingFile}

abbrev pub send_errors : Errors SendError
send_errors = record { frame = SendError.frame; crypto = SendError.crypto }

abbrev pub Step : Type 0 → Type 0
Step A = Talk BytesAssembler SendError A

unfoldable pub require_offline_type : OfflineFrame → OfflineFrameType → Result SendError (Unit {0})
require_offline_type frame expected =
    guard (is_value (and_then frame.v1 (λ v1. v1.frame_type)) (as_i32 expected))
      (SendError.protocol "unexpected offline frame type")

unfoldable pub require_sharing_type : SharingFrame → SharingFrameType → Result SendError (Unit {0})
require_sharing_type frame expected =
    guard (is_value (and_then frame.v1 (λ v1. v1.frame_type)) (as_i32 expected))
      (SendError.protocol "unexpected sharing frame type")

-- The transfers of one message: its body, then a last chunk with an empty body.
abbrev pub outgoing_transfers : ℤ → Bytes → List PayloadTransferFrame
outgoing_transfers payload_id body =
    let total = pos (length body) in
    data_transfer payload_id total (body_chunk (pos 0) (pos 0) (some body))
    ∷ data_transfer payload_id total (body_chunk last_chunk total (some []))
    ∷ []

abbrev pub paired_key_encryption : Bytes → Bytes → Option Bytes → SharingFrame
paired_key_encryption signed_data secret_id_hash qr_signature =
    sharing_frame (record (sharing_v1_frame SharingFrameType.paired_key_encryption) {
      paired_key_encryption = some (record {
        signed_data = some signed_data;
        secret_id_hash = some secret_id_hash;
        optional_signed_data = none;
        qr_code_handshake_data = qr_signature;
      });
    })

abbrev pub paired_key_result : SharingFrame
paired_key_result = sharing_frame (record (sharing_v1_frame SharingFrameType.paired_key_result) {
  paired_key_result =
      some (record { status = some (as_i32 PairedKeyStatus.unable); os_type = none });
})

abbrev pub file_metadata : OutgoingFile → FileMetadata
file_metadata file = record {
  name = some file.name;
  file_type = some (as_i32 file.file_type);
  payload_id = some file.payload_id;
  size = some (as_i64 file.size);
  mime_type = some file.mime_type;
  id = some file.payload_id;
  parent_folder = file.parent_folder;
}

abbrev pub introduction_of : List OutgoingFile → IntroductionFrame
introduction_of files = record default_introduction {
  file_metadata = map file_metadata files;
  start_transfer = none;
  use_case = some (as_i32 SharingUseCase.nearby_share);
}

abbrev pub introduction_frame : List OutgoingFile → SharingFrame
introduction_frame files = sharing_frame (record (sharing_v1_frame SharingFrameType.introduction) {
  introduction = some (introduction_of files);
})

module _ {SecretKey PublicKey : Type 0} (platform : Platform SecretKey PublicKey) where
  abbrev pub decode_message : Option Bytes → Step (Option SharingFrame)
  decode_message none = pure none
  decode_message (some bytes) = do
    frame ← lift (ok_or (platform.sharing_frame.decode bytes) SendError.protobuf)
    pure (some frame)

  unfoldable pub take_frame : Option OfflineFrameType → OfflineV1Frame → Step (Option SharingFrame)
  take_frame (some OfflineFrameType.keep_alive) v1 =
      on_endpoint (answer_keep_alive platform send_errors v1.keep_alive) >> pure none
  take_frame (some OfflineFrameType.payload_transfer) v1 = do
    transfer ← lift (ok_or v1.payload_transfer (SendError.protocol "missing payload transfer"))
    done ← on_own (push transfer)
    decode_message done
  take_frame (some OfflineFrameType.disconnection) v1 =
      raise (SendError.protocol "phone disconnected")
  take_frame other v1 = pure none

  unfoldable pub take_offline : OfflineFrame → Step (Option SharingFrame)
  take_offline frame = do
    v1 ← lift (ok_or frame.v1 (SendError.protocol "missing encrypted v1 frame"))
    take_frame (frame_type_of v1) v1

  unfoldable pub read_next_sharing_frame : Step SharingFrame
  read_next_sharing_frame = listen platform send_errors SendError.protobuf take_offline

  unfoldable pub send_sharing_frame : SharingFrame → Exec Endpoint SendError (Unit {0})
  send_sharing_frame sharing = do
    id ← draw_u64 platform send_errors
    send_frames platform send_errors (
        map transfer_frame (outgoing_transfers (as_i64 id) (platform.sharing_frame.encode sharing)))

  unfoldable pub send_paired_key_encryption : Option Bytes → Exec Endpoint SendError (Unit {0})
  send_paired_key_encryption qr_signature = do
    signed_data ← draw_bytes platform send_errors 72
    secret_id_hash ← draw_bytes platform send_errors 6
    send_sharing_frame (paired_key_encryption signed_data secret_id_hash qr_signature)

  unfoldable pub send_paired_key_result : Exec Endpoint SendError (Unit {0})
  send_paired_key_result = send_sharing_frame paired_key_result

  unfoldable pub send_introduction : List OutgoingFile → Exec Endpoint SendError (Unit {0})
  send_introduction files = send_sharing_frame (introduction_frame files)
