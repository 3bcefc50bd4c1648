-- ===== src/Receiver/Pending/Bounded.antt =====
-- `PendingTransfer` of src/quick_share_receiver.rs takes no more of a file than was declared.
use hi_rodrop.Prelude.{
  ◌≤◌, ◌+◌, ◌^◌, inl, inr, some, none, Option, arith, length, ltb, leb, ◌==◌, Bool-cases,
  Option-cases, Result-cases, unwrap_or,
}
use hi_rodrop.Prelude.Int.{ℤ, pos, is_value}
use hi_rodrop.Prelude.Bytes.{Bytes}
use hi_rodrop.Prelude.Exec.{pure, ◌>>◌, Keeps, Keeps-bind}
use hi_rodrop.Prelude.Map.{lookup, AllValues, AllValues-insert, AllValues-remove}
use hi_rodrop.Prelude.Utf8.{Text}
use hi_rodrop.Wire.{PayloadTransferFrame, PayloadChunk}
use hi_rodrop.Storage.Disk.{write_file, sync_all, rename}
use hi_rodrop.Receiver.Assembler.{is_last}
use hi_rodrop.Receiver.Pending.{
  PendingFile, Receiving, on_disk, change, as_i64, Step, file_name, unnamed_file,
}
use hi_rodrop.Receiver.Pending.Chunk.{
  read_file_transfer, advance, write_body, write_chunk, remove_file, save, finish_file,
  receive_chunk, receive_file_chunk, count_bytes, receive_bytes, save_bytes, save_whole,
  receive_file_bytes,
}

abbrev pub IsWithin : PendingFile → Type 0
IsWithin f = f.received ≤ f.expected_size

-- No pending file has received more than it declared.
abbrev pub AreWithin : Receiving → Type 0
AreWithin s = AllValues IsWithin s.transfer.files

write_body-Keeps :
    (id : ℤ) (pending : PendingFile) (body : Bytes) → Keeps AreWithin (write_body id pending body)
unfolding write_body
write_body-Keeps id pending body =
    elim (Bool-cases (leb (2 ^ 64) (pending.received + length body))) [
      | inl e ↦ rw e (λ s h. h)
      | inr e ↦ elim (Bool-cases (ltb pending.expected_size (pending.received + length body))) [
        | inl l ↦ rw (e, l) (λ s h. h)
        | inr l ↦
            rw (e, l)
              (Keeps-bind AreWithin (on_disk (write_file pending.part_path body)) _ (λ s h. h)
                (λ u s h.
                  AllValues-insert IsWithin id (advance pending (length body)) s.transfer.files
                    (ground arith) h))
      ]
    ]

write_chunk-Keeps :
    (id : ℤ) (pending : PendingFile) (chunk : PayloadChunk)
    → Keeps AreWithin (write_chunk id pending chunk)
write_chunk-Keeps id pending chunk = elim (Option-cases chunk.body) [
  | inl e ↦ rw e (λ s h. h)
  | inr (body, e) ↦ rw e (
      Keeps-bind AreWithin (write_body id pending body) _ (write_body-Keeps id pending body)
        (λ x s h. h))
]

save-Keeps : (pending : PendingFile) → Keeps AreWithin (save pending)
unfolding save
save-Keeps pending =
    Keeps-bind AreWithin (on_disk sync_all) _ (λ s h. h)
      (λ u.
        Keeps-bind AreWithin (on_disk (rename pending.part_path pending.final_path)) _ (λ s h. h)
          (λ v s h. h))

remove_file-Keeps : (id : ℤ) → Keeps AreWithin (change (remove_file id))
remove_file-Keeps id s h = AllValues-remove IsWithin id s.transfer.files h

finish_file-Keeps :
    (id : ℤ) (pending : PendingFile) (chunk : PayloadChunk)
    → Keeps AreWithin (finish_file id pending chunk)
unfolding finish_file
finish_file-Keeps id pending chunk = elim (Bool-cases (is_last (unwrap_or chunk.flags (pos 0)))) [
  | inr e ↦ rw e (λ s h. h)
  | inl e ↦ elim (Bool-cases (pending.received == pending.expected_size)) [
    | inr l ↦ rw (e, l) (λ s h. h)
    | inl l ↦
        rw (e, l)
          (Keeps-bind AreWithin (change (remove_file id)) (λ u. save pending) (remove_file-Keeps id)
            (λ u. save-Keeps pending))
  ]
]

receive_chunk-Keeps :
    (id : ℤ) (chunk : PayloadChunk) (found : Option PendingFile)
    → Keeps AreWithin (receive_chunk id chunk found)
unfolding receive_chunk
receive_chunk-Keeps id chunk none = λ s h. h
receive_chunk-Keeps id chunk (some pending) =
    elim (Bool-cases (is_value chunk.offset (as_i64 pending.received))) [
      | inr e ↦ rw e (λ s h. h)
      | inl e ↦ rw e (
          Keeps-bind AreWithin (write_chunk id pending chunk) _ (write_chunk-Keeps id pending chunk)
            (λ x.
              Keeps-bind AreWithin (finish_file id x.0 chunk) _ (finish_file-Keeps id x.0 chunk)
                (λ u s h. h)))
    ]

save_whole-Keeps :
    (bytes : Bytes) (pending : PendingFile) → Keeps AreWithin (save_whole bytes pending)
unfolding save_whole
save_whole-Keeps bytes pending =
    Keeps-bind AreWithin (change (count_bytes (length bytes)))
      (λ u. on_disk (write_file pending.part_path bytes) >> named) (λ s h. h)
      (λ u.
        Keeps-bind AreWithin (on_disk (write_file pending.part_path bytes)) (λ v. named) (λ s h. h)
          (λ v.
            Keeps-bind AreWithin (save pending)
              (λ w. pure (file_name pending.final_path unnamed_file)) (save-Keeps pending)
              (λ w s h. h)))
  where
    named : Step Text
    named = save pending >> pure (file_name pending.final_path unnamed_file)

save_bytes-Keeps :
    (bytes : Bytes) (pending : PendingFile) → Keeps AreWithin (save_bytes bytes pending)
unfolding save_bytes
save_bytes-Keeps bytes pending = elim (Bool-cases (length bytes == pending.expected_size)) [
  | inr e ↦ rw e (λ s h. h)
  | inl e ↦ rw e (save_whole-Keeps bytes pending)
]

receive_bytes-Keeps :
    (id : ℤ) (bytes : Bytes) (found : Option PendingFile)
    → Keeps AreWithin (receive_bytes id bytes found)
unfolding receive_bytes
receive_bytes-Keeps id bytes none = λ s h. h
receive_bytes-Keeps id bytes (some pending) =
    Keeps-bind AreWithin (change (remove_file id)) (λ u. save_bytes bytes pending)
      (remove_file-Keeps id) (λ u. save_bytes-Keeps bytes pending)

-- Whatever the peer sends and however the disk answers, a chunk of a file leaves every pending file
-- with at most as many bytes as it declared.
pub receive_file_chunk-AreWithin :
    (transfer : PayloadTransferFrame) (s : Receiving)
    → AreWithin s
    → AreWithin (receive_file_chunk transfer s).1
unfolding receive_file_chunk
receive_file_chunk-AreWithin transfer s h = elim (Result-cases (read_file_transfer transfer)) [
  | inl ((id, chunk), e) ↦ rw e (receive_chunk-Keeps id chunk (lookup id s.transfer.files) s h)
  | inr (x, e) ↦ rw e h
]

-- A file that comes as one byte payload, too, leaves every pending file with at most as many bytes
-- as it declared, on every branch.
pub receive_file_bytes-AreWithin :
    (id : ℤ) (bytes : Bytes) (s : Receiving)
    → AreWithin s
    → AreWithin (receive_file_bytes id bytes s).1
unfolding receive_file_bytes
receive_file_bytes-AreWithin id bytes s h =
    receive_bytes-Keeps id bytes (lookup id s.transfer.files) s h
