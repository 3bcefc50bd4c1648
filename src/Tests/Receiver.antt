-- ===== src/Tests/Receiver.antt =====
-- The properties of the receiver at concrete transfers.
use hi_rodrop.Prelude.{
  ◌≡◌, refl, none, some, Option, List, [], ◌∷◌, ok, arith, false, if◌then◌else◌,
}
use hi_rodrop.Prelude.Int.{pos}
use hi_rodrop.Prelude.Bytes.{Bytes, eq_bytes}
use hi_rodrop.Prelude.Map.{lookup}
use hi_rodrop.Prelude.Utf8.{chars}
use hi_rodrop.Wire.{PayloadChunk, FileType}
use hi_rodrop.Storage.Disk.{Node}
use hi_rodrop.Storage.FilePath.{FilePath, eq_path}
use hi_rodrop.Sender.Files.{OutgoingFile, file_transfer, file_transfers}
use hi_rodrop.Receiver.Assembler.{BytesAssembler, push, data_transfer, body_chunk, last_chunk}
use hi_rodrop.Receiver.Assembler.Bounded.{push-IsBounded}
use hi_rodrop.Receiver.Assembler.Reassembly.{push_all, chunk_transfers, push_all-chunk_transfers}
use hi_rodrop.Receiver.Pending.{PendingFile, PendingTransfer, Receiving}
use hi_rodrop.Receiver.Pending.Chunk.{receive_file_chunk}
use hi_rodrop.Receiver.Pending.Delivered.{receive_file_chunks, receive_file_chunks-file_transfers}
use hi_rodrop.Receiver.Assembler.Bounded.{IsBounded}
use hi_rodrop.Receiver.Pending.Bounded.{AreWithin, receive_file_chunk-AreWithin}

abbrev message : Bytes
message = 1 ∷ 2 ∷ 3 ∷ []

-- The first two bytes of payload 5 have come.
abbrev partial : BytesAssembler
partial = record { buffers = (pos 5, 1 ∷ 2 ∷ []) ∷ [] }

-- The second chunk, which is the last.
abbrev second : PayloadChunk
second = body_chunk last_chunk (pos 2) (some (3 ∷ []))

push-IsBounded_example : IsBounded (push (data_transfer (pos 5) (pos 3) second) partial).1
push-IsBounded_example =
    push-IsBounded (data_transfer (pos 5) (pos 3) second) partial (omega arith, tt)

push_all-chunk_transfers_example :
    ((push_all (chunk_transfers (pos 7) 3 0 ((1 ∷ []) ∷ (2 ∷ 3 ∷ []) ∷ [])) partial).0
      ≡ ok (some (pos 7, message)))
    × (lookup
          (pos 5)
          (push_all (chunk_transfers (pos 7) 3 0 ((1 ∷ []) ∷ (2 ∷ 3 ∷ []) ∷ [])) partial).1.buffers
        ≡ some (1 ∷ 2 ∷ []))
unfolding lookup
push_all-chunk_transfers_example =
    push_all-chunk_transfers (pos 7) (pos 5) ((1 ∷ []) ∷ (2 ∷ 3 ∷ []) ∷ []) partial refl
      (omega arith)

abbrev pending : PendingFile
pending = record {
  expected_size = 3;
  received = 0;
  final_path = chars "photo.png" ∷ [];
  part_path = chars "1.part" ∷ [];
}

abbrev transfer : PendingTransfer
transfer = record {
  files = (pos 4, pending) ∷ [];
  texts = [];
  preview_payload_ids = [];
  download_directory = [];
  completed = [];
  total_bytes = 3;
  received_bytes = 0;
}

abbrev part_node : FilePath → Option Node
part_node p = if eq_path p pending.part_path then some (Node.file []) else none

abbrev receiving : Receiving
receiving = record {
  transfer = transfer;
  disk = record { node = part_node; unreadable = λ p. false; faults = [] };
}

abbrev photo : OutgoingFile
photo = record {
  path = chars "photo.png" ∷ [];
  name = chars "photo.png";
  parent_folder = none;
  size = 3;
  payload_id = pos 4;
  file_type = FileType.image;
  mime_type = chars "image/png";
  last_modified_timestamp_millis = pos 0;
}

abbrev reads : List Bytes
reads = (1 ∷ 2 ∷ []) ∷ (3 ∷ []) ∷ []

receive_file_chunk-AreWithin_example :
    AreWithin (receive_file_chunk (file_transfer photo 0 (1 ∷ 2 ∷ []) false) receiving).1
receive_file_chunk-AreWithin_example =
    receive_file_chunk-AreWithin (file_transfer photo 0 (1 ∷ 2 ∷ []) false) receiving
      (omega arith, tt)

receive_file_chunks-file_transfers_example :
    let r = receive_file_chunks (file_transfers photo 0 reads) receiving in
    (r.0 ≡ ok tt)
    × (r.1.disk.node (chars "photo.png" ∷ []) ≡ some (Node.file message))
    × (lookup (pos 4) r.1.transfer.files ≡ none)
    × (r.1.transfer.completed ≡ (chars "photo.png" ∷ []) ∷ [])
unfolding lookup eq_path eq_bytes
receive_file_chunks-file_transfers_example =
    receive_file_chunks-file_transfers photo reads pending receiving refl refl refl refl refl
      (omega arith) refl
