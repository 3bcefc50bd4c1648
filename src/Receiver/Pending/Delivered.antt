-- ===== src/Receiver/Pending/Delivered.antt =====
-- A file that src/quick_share_sender.rs sends in chunks, src/quick_share_receiver.rs saves whole.
use hi_rodrop.Prelude.{
  ℕ, Bool, Bool-cases, inl, inr, ◌≤◌, ◌<◌, ◌+◌, ◌^◌, ◌≡◌, refl, sym, ◌∙◌, ap, some, none, Option,
  arith, length, ◌++◌, [], ◌∷◌, List, ok, true, false, length-append, leb, le→ltb, ==_iff, Result,
}
use mathlib.Core.Path.{subst}
use mathlib.Core.List.{append_assoc}
use hi_rodrop.Prelude.Int.{ℤ, ==ℤ_refl}
use hi_rodrop.Prelude.Bytes.{Bytes}
use hi_rodrop.Prelude.Utf8.{Text}
use hi_rodrop.Prelude.Exec.{pure, ◌>>◌}
use hi_rodrop.Prelude.Map.{lookup, insert, lookup-insert, lookup-remove}
use hi_rodrop.Wire.{PayloadTransferFrame}
use hi_rodrop.Storage.FilePath.{FilePath, eq_path, eq_path_iff}
use hi_rodrop.Storage.Disk.{Node, Fault, is_directory, update, write_file, sync_all, rename}
use hi_rodrop.Receiver.Errors.{ReceiveError}
use hi_rodrop.Receiver.Assembler.Reassembly.{concat}
use hi_rodrop.Sender.Files.{OutgoingFile, file_transfer, file_transfers}
use hi_rodrop.Receiver.Pending.{
  PendingFile, PendingTransfer, Receiving, Step, as_i64, file_name, unnamed_file,
}
use hi_rodrop.Receiver.Pending.Chunk.{
  read_file_transfer, advance, set_file, write_body, remove_file, complete_file, save, finish_file,
  receive_chunk, receive_file_chunk,
}

unfoldable pub receive_file_chunks : List PayloadTransferFrame → Step (Unit {0})
receive_file_chunks [] = pure tt
receive_file_chunks (t ∷ ts) = receive_file_chunk t >> receive_file_chunks ts

module _ (unreadable : FilePath → Bool) where
  -- A transfer on a disk whose calls all succeed.
  abbrev on : PendingTransfer → (FilePath → Option Node) → Receiving
  on t nodes = record {
    transfer = t;
    disk = record { node = nodes; unreadable = unreadable; faults = [] };
  }

  fits_word : (n size : ℕ) → n ≤ size → size < 2 ^ 63 → leb (2 ^ 64) n ≡ false
  fits_word n size h s = ground arith

  chunk_received :
      (file : OutgoingFile) (pending : PendingFile) (content body : Bytes) (t : PendingTransfer)
      (nodes : FilePath → Option Node)
      → lookup file.payload_id t.files ≡ some pending
      → nodes pending.part_path ≡ some (Node.file content)
      → pending.received + length body ≤ pending.expected_size
      → pending.expected_size < 2 ^ 63
      → receive_file_chunk (file_transfer file pending.received body false) (on t nodes) ≡ (
        ok (some (file_name pending.final_path unnamed_file)),
        on
            (set_file file.payload_id pending (length body) t)
            (update nodes pending.part_path (some (Node.file (content ++ body)))),
      )
  unfolding receive_file_chunk read_file_transfer receive_chunk write_body write_file finish_file
  chunk_received file pending content body t nodes look part fits small =
      rw
        (
          look,
          ==ℤ_refl (as_i64 pending.received),
          fits_word (pending.received + length body) pending.expected_size fits small,
          le→ltb pending.expected_size (pending.received + length body) fits,
          part,
        )
        refl

  eq_path_refl : (p : FilePath) → eq_path p p ≡ true
  eq_path_refl p = (eq_path_iff p p).1 refl

  -- The table once the file is saved.
  abbrev saved_transfer : ℤ → PendingFile → PendingTransfer → PendingTransfer
  saved_transfer id pending t =
      complete_file (advance pending 0) (remove_file id (set_file id pending 0 t))

  abbrev moved_away : PendingFile → Bytes → (FilePath → Option Node) → FilePath → Option Node
  moved_away pending content nodes =
      update (update nodes pending.part_path (some (Node.file content))) pending.part_path none

  abbrev saved_nodes : PendingFile → Bytes → (FilePath → Option Node) → FilePath → Option Node
  saved_nodes pending content nodes =
      update (moved_away pending content nodes) pending.final_path (some (Node.file content))

  -- A file that is written somewhere makes no directory of another path.
  not_directory :
      (nodes : FilePath → Option Node) (p q : FilePath) (content : Bytes)
      → is_directory (nodes q) ≡ false
      → is_directory (update nodes p (some (Node.file content)) q) ≡ false
  not_directory nodes p q content h = elim (Bool-cases (eq_path p q)) [
    | inl e ↦ rw e refl
    | inr e ↦ rw e h
  ]

  last_received :
      (file : OutgoingFile) (pending : PendingFile) (content : Bytes) (t : PendingTransfer)
      (nodes : FilePath → Option Node)
      → lookup file.payload_id t.files ≡ some pending
      → nodes pending.part_path ≡ some (Node.file content)
      → pending.received ≡ pending.expected_size
      → pending.expected_size < 2 ^ 63
      → is_directory (nodes pending.final_path) ≡ false
      → receive_file_chunk (file_transfer file pending.received [] true) (on t nodes) ≡ (
        ok (some (file_name pending.final_path unnamed_file)),
        on (saved_transfer file.payload_id pending t) (saved_nodes pending (content ++ []) nodes),
      )
  unfolding receive_file_chunk read_file_transfer receive_chunk write_body write_file finish_file
      save sync_all rename
  last_received file pending content t nodes look part all small free =
      rw
        (
          look,
          ==ℤ_refl (as_i64 pending.received),
          fits_word (pending.received + 0) pending.expected_size (omega (arith, all)) small,
          le→ltb pending.expected_size (pending.received + 0) (omega (arith, all)),
          part,
          (==_iff (pending.received + 0) pending.expected_size).1 (omega (arith, all)),
          eq_path_refl pending.part_path,
          not_directory nodes pending.part_path pending.final_path (content ++ []) free,
        )
        refl

  -- The file stands at its final path, is listed there and is no longer waited for.
  abbrev IsSaved :
      ℤ → FilePath → Bytes → List FilePath → Result ReceiveError (Unit {0}) × Receiving → Type 0
  IsSaved id final_path message completed r =
      (r.0 ≡ ok tt)
      × (r.1.disk.node final_path ≡ some (Node.file message))
      × (lookup id r.1.transfer.files ≡ none)
      × (r.1.transfer.completed ≡ completed ++ (final_path ∷ []))

  receive_file_chunks-step :
      (t : PayloadTransferFrame) (ts : List PayloadTransferFrame) (s u : Receiving)
      (x : Option Text)
      → receive_file_chunk t s ≡ (ok x, u)
      → receive_file_chunks (t ∷ ts) s ≡ receive_file_chunks ts u
  unfolding receive_file_chunks
  receive_file_chunks-step t ts s u x e = rw e refl

  updated :
      (nodes : FilePath → Option Node) (p : FilePath) (n : Option Node) → update nodes p n p ≡ n
  updated nodes p n = rw (eq_path_refl p) refl

  deliver :
      (file : OutgoingFile) (bodies : List Bytes) (pending : PendingFile) (content message : Bytes)
      (t : PendingTransfer) (nodes : FilePath → Option Node) (offset : ℕ)
      → lookup file.payload_id t.files ≡ some pending
      → nodes pending.part_path ≡ some (Node.file content)
      → offset ≡ pending.received
      → message ≡ content ++ concat bodies
      → pending.received + length (concat bodies) ≡ pending.expected_size
      → pending.expected_size < 2 ^ 63
      → is_directory (nodes pending.final_path) ≡ false
      → IsSaved file.payload_id pending.final_path message t.completed
          (receive_file_chunks (file_transfers file offset bodies) (on t nodes))
  unfolding file_transfers receive_file_chunks
  deliver file [] pending content message t nodes offset look part here whole all small free =
      rw
        (here, last_received file pending content t nodes look part (omega (arith, all)) small free)
        (
          refl,
          updated (moved_away pending (content ++ []) nodes) pending.final_path
                (some (Node.file (content ++ [])))
              ∙ ap (λ (b : Bytes). some (Node.file b)) (sym whole),
          rw
              (
                lookup-remove file.payload_id file.payload_id
                    (insert file.payload_id (advance pending 0) t.files),
                ==ℤ_refl file.payload_id,
              )
              refl,
          refl,
        )
  deliver file (body ∷ bodies) pending content message t nodes offset look part here whole all small
        free =
      let n : ℕ = length body in
      let u : PendingTransfer = set_file file.payload_id pending n t in
      let nodes' : (FilePath → Option Node) =
        update nodes pending.part_path (some (Node.file (content ++ body))) in
      let sum : pending.received + (n + length (concat bodies)) ≡ pending.expected_size =
        ap (λ m. pending.received + m) (sym (length-append body (concat bodies))) ∙ all in
      let first : receive_file_chunk (file_transfer file offset body false) (on t nodes)
          ≡ (ok (some (file_name pending.final_path unnamed_file)), on u nodes') =
        rw here
          (chunk_received file pending content body t nodes look part (omega (arith, sum)) small) in
      subst (IsSaved file.payload_id pending.final_path message t.completed)
        (sym (
          receive_file_chunks-step _ (file_transfers file (offset + n) bodies) (on t nodes)
            (on u nodes') _ first))
        (deliver file bodies (advance pending n) (content ++ body) message u nodes' (offset + n)
          (rw
            (
              lookup-insert file.payload_id file.payload_id (advance pending n) t.files,
              ==ℤ_refl file.payload_id,
            )
            refl)
          (updated nodes pending.part_path (some (Node.file (content ++ body))))
          (ap (λ m. m + n) here) (whole ∙ sym (append_assoc content body (concat bodies)))
          (omega (arith, sum)) small
          (not_directory nodes pending.part_path pending.final_path (content ++ body) free))

-- A file that is waited for and of which nothing has come is received from its chunks in order, however
-- the sender cut it, when the chunks hold as many bytes as it declared (below 2 ^ 63), no directory
-- stands at its final path and no call of the disk fails: all chunks are taken, the bytes stand at its final path, which is
-- the last one listed as completed, and it is waited for no more.
pub receive_file_chunks-file_transfers :
    (file : OutgoingFile) (bodies : List Bytes) (pending : PendingFile) (s : Receiving)
    → lookup file.payload_id s.transfer.files ≡ some pending
    → s.disk.faults ≡ []
    → s.disk.node pending.part_path ≡ some (Node.file [])
    → pending.received ≡ 0
    → length (concat bodies) ≡ pending.expected_size
    → pending.expected_size < 2 ^ 63
    → is_directory (s.disk.node pending.final_path) ≡ false
    → let r = receive_file_chunks (file_transfers file 0 bodies) s in
      (r.0 ≡ ok tt)
      × (r.1.disk.node pending.final_path ≡ some (Node.file (concat bodies)))
      × (lookup file.payload_id r.1.transfer.files ≡ none)
      × (r.1.transfer.completed ≡ s.transfer.completed ++ (pending.final_path ∷ []))
receive_file_chunks-file_transfers file bodies pending s look fine part fresh all small free =
    subst
      (λ (q : List (Option Fault)).
        IsSaved s.disk.unreadable file.payload_id pending.final_path (concat bodies)
          s.transfer.completed
          (receive_file_chunks (file_transfers file 0 bodies) (record {
            transfer = s.transfer;
            disk = record { node = s.disk.node; unreadable = s.disk.unreadable; faults = q };
          })))
      (sym fine)
      (deliver s.disk.unreadable file bodies pending [] (concat bodies) s.transfer s.disk.node 0
        look part (sym fresh) refl (omega (arith, fresh, all)) small free)
