-- ===== src/Sender/Files.antt =====
-- `OutgoingFile` of src/quick_share_sender.rs, and the frames that carry a file: its bytes in order, then
-- a last chunk without bytes.
use hi_rodrop.Prelude.{
  ℕ, ◌+◌, Bool, true, false, Option, none, some, List, [], ◌∷◌, length, unwrap_or, if◌then◌else◌,
}
use hi_rodrop.Prelude.Int.{ℤ, pos}
use hi_rodrop.Prelude.Bytes.{Bytes}
use hi_rodrop.Prelude.Utf8.{Text}
use hi_rodrop.Wire.{
  PayloadTransferFrame, PayloadType, PayloadPacketType, FileType, payload_type_enumeration,
  payload_packet_type_enumeration,
}
use hi_rodrop.Wire.Enumeration.{as_i32}
use hi_rodrop.Storage.FilePath.{FilePath}
use hi_rodrop.Receiver.Assembler.{last_chunk}
use hi_rodrop.Receiver.Pending.{as_i64}

pub record OutgoingFile : Type 0 where
  pub path : FilePath
  pub name : Text
  pub parent_folder : Option Text
  pub size : ℕ
  pub payload_id : ℤ
  pub file_type : FileType
  pub mime_type : Text
  pub last_modified_timestamp_millis : ℤ

-- The transfer that `send_file_chunk` sends.
abbrev pub file_transfer : OutgoingFile → ℕ → Bytes → Bool → PayloadTransferFrame
file_transfer file offset body last = record {
  packet_type = some (as_i32 PayloadPacketType.data_packet);
  payload_header = some (record {
    id = some file.payload_id;
    payload_type = some (as_i32 PayloadType.file);
    total_size = some (as_i64 file.size);
    is_sensitive = some false;
    file_name = some file.name;
    parent_folder = some (unwrap_or file.parent_folder []);
    last_modified_timestamp_millis = some file.last_modified_timestamp_millis;
  });
  payload_chunk = some (record {
    flags = some (if last then last_chunk else pos 0);
    offset = some (as_i64 offset);
    body = some body;
    index = none;
  });
}

-- The chunks of one file from an offset on; `bodies` is what the reads of the file return.
unfoldable pub file_transfers : OutgoingFile → ℕ → List Bytes → List PayloadTransferFrame
file_transfers file offset [] = file_transfer file offset [] true ∷ []
file_transfers file offset (body ∷ bodies) =
    file_transfer file offset body false ∷ file_transfers file (offset + length body) bodies
