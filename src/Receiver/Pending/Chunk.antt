-- ===== src/Receiver/Pending/Chunk.antt =====
-- `PendingTransfer::receive_file_chunk` and `receive_file_bytes` of src/quick_share_receiver.rs.
use hi_rodrop.Prelude.{
  ℕ, ◌+◌, ◌^◌, not, Option, none, some, [], ◌∷◌, ◌++◌, length, ltb, leb, ◌==◌, if◌then◌else◌,
  Result, ok, err, unwrap_or,
}
use hi_rodrop.Prelude.Int.{ℤ, pos, is_value}
use hi_rodrop.Prelude.Bytes.{Bytes}
use hi_rodrop.Prelude.Utf8.{Text}
use hi_rodrop.Prelude.Exec.{pure, raise, lift, gets, ◌>>=◌, ◌>>◌}
use hi_rodrop.Prelude.Map.{lookup, insert, remove}
use hi_rodrop.Wire.{PayloadTransferFrame, PayloadChunk}
use hi_rodrop.Storage.Disk.{write_file, sync_all, rename}
use hi_rodrop.Receiver.Errors.{ReceiveError}
use hi_rodrop.Receiver.Assembler.{is_last}
use hi_rodrop.Receiver.Pending.{
  PendingFile, PendingTransfer, Step, on_disk, change, as_i64, saturating_add, file_name,
  unnamed_file,
}

-- What is read of the transfer before the table of files is.
unfoldable pub read_file_transfer : PayloadTransferFrame → Result ReceiveError (ℤ × PayloadChunk)
read_file_transfer transfer = elim transfer.payload_header [
  | none ↦ err (ReceiveError.protocol "missing file payload header")
  | some header ↦ elim header.id [
    | none ↦ err (ReceiveError.protocol "missing file payload ID")
    | some id ↦ elim transfer.payload_chunk [
      | none ↦ err (ReceiveError.protocol "missing file payload chunk")
      | some chunk ↦ ok (id, chunk)
    ]
  ]
]

-- The pending file once `n` more bytes are written.
abbrev pub advance : PendingFile → ℕ → PendingFile
advance pending n = record pending { received = pending.received + n }

abbrev pub set_file : ℤ → PendingFile → ℕ → PendingTransfer → PendingTransfer
set_file id pending n transfer = record transfer {
  files = insert id (advance pending n) transfer.files;
  received_bytes = saturating_add transfer.received_bytes n;
}

-- The body of a chunk: it has to fit into what the file declares, and is written before it counts.
unfoldable pub write_body : ℤ → PendingFile → Bytes → Step PendingFile
write_body id pending body =
    if leb (2 ^ 64) (pending.received + length body)
    then raise (ReceiveError.protocol "file size overflow")
    else if ltb pending.expected_size (pending.received + length body)
    then raise (ReceiveError.protocol "file exceeds declared size")
    else do
      on_disk (write_file pending.part_path body)
      change (set_file id pending (length body))
      pure (advance pending (length body))

abbrev pub write_chunk : ℤ → PendingFile → PayloadChunk → Step (PendingFile × Option Text)
write_chunk id pending chunk = elim chunk.body [
  | none ↦ pure (pending, none)
  | some body ↦ do
    written ← write_body id pending body
    pure (written, some (file_name pending.final_path unnamed_file))
]

abbrev pub remove_file : ℤ → PendingTransfer → PendingTransfer
remove_file id transfer = record transfer { files = remove id transfer.files }

abbrev pub complete_file : PendingFile → PendingTransfer → PendingTransfer
complete_file pending transfer = record transfer {
  completed = transfer.completed ++ pending.final_path ∷ [];
}

-- `sync_all`, then the part file takes its final name.
unfoldable pub save : PendingFile → Step (Unit {0})
save pending = do
  on_disk sync_all
  on_disk (rename pending.part_path pending.final_path)
  change (complete_file pending)

unfoldable pub finish_file : ℤ → PendingFile → PayloadChunk → Step (Unit {0})
finish_file id pending chunk =
    if is_last (unwrap_or chunk.flags (pos 0))
    then if pending.received == pending.expected_size
      then change (remove_file id) >> save pending
      else raise (ReceiveError.protocol "incomplete file payload")
    else pure tt

unfoldable pub receive_chunk : ℤ → PayloadChunk → Option PendingFile → Step (Option Text)
receive_chunk id chunk none = raise (ReceiveError.protocol "unknown file payload ID")
receive_chunk id chunk (some pending) =
    if not (is_value chunk.offset (as_i64 pending.received))
    then raise (ReceiveError.protocol "unexpected file offset")
    else do x ← write_chunk id pending chunk; finish_file id x.0 chunk; pure x.1

unfoldable pub receive_file_chunk : PayloadTransferFrame → Step (Option Text)
receive_file_chunk transfer = do
  x ← lift (read_file_transfer transfer)
  pending ← gets (λ s. lookup x.0 s.transfer.files)
  receive_chunk x.0 x.1 pending

abbrev pub count_bytes : ℕ → PendingTransfer → PendingTransfer
count_bytes n transfer = record transfer {
  received_bytes = saturating_add transfer.received_bytes n;
}

unfoldable pub save_whole : Bytes → PendingFile → Step Text
save_whole bytes pending = do
  change (count_bytes (length bytes))
  on_disk (write_file pending.part_path bytes)
  save pending
  pure (file_name pending.final_path unnamed_file)

unfoldable pub save_bytes : Bytes → PendingFile → Step Text
save_bytes bytes pending =
    if not (length bytes == pending.expected_size)
    then raise (ReceiveError.protocol "file payload size mismatch")
    else save_whole bytes pending

-- The entry leaves the table before anything else is tested.
unfoldable pub receive_bytes : ℤ → Bytes → Option PendingFile → Step Text
receive_bytes id bytes none = raise (ReceiveError.protocol "unknown file payload ID")
receive_bytes id bytes (some pending) = change (remove_file id) >> save_bytes bytes pending

unfoldable pub receive_file_bytes : ℤ → Bytes → Step Text
receive_file_bytes id bytes = do
  pending ← gets (λ s. lookup id s.transfer.files)
  receive_bytes id bytes pending
