-- ===== src/Receiver/Transfer/Confined.antt =====
-- Where src/quick_share_receiver.rs puts what comes in: below the download directory.
use hi_rodrop.Prelude.{
  ◌≤◌, ◌+◌, ◌^◌, ◌≡◌, refl, inl, inr, some, Option, [], ◌∷◌, arith, length, ltb, leb, ◌==◌,
  Bool-cases, Option-cases, unwrap_or, All, All-append, ok, err, Result,
}
use hi_rodrop.Prelude.Int.{ℤ, pos, is_value}
use hi_rodrop.Prelude.Bytes.{Bytes}
use hi_rodrop.Prelude.Utf8.{Text}
use hi_rodrop.Prelude.Exec.{
  pure, ◌>>◌, Keeps, Keeps-bind, Keeps-bind_given, Holds, Ensures, Ensures-bind,
}
use hi_rodrop.Prelude.Map.{AllValues, AllValues-insert, AllValues-remove}
use hi_rodrop.Wire.{PayloadChunk}
use hi_rodrop.Storage.FilePath.{FilePath}
use hi_rodrop.Storage.Disk.{write_file, sync_all, rename}
use hi_rodrop.Storage.Parents.Inside.{IsBelow}
use hi_rodrop.Receiver.Errors.{ReceiveError}
use hi_rodrop.Receiver.Assembler.{is_last}
use hi_rodrop.Receiver.Pending.{
  PendingFile, PendingTransfer, Receiving, Step, on_disk, change, as_i64, file_name, unnamed_file,
}
use hi_rodrop.Receiver.Pending.Chunk.{
  advance, set_file, write_body, write_chunk, remove_file, complete_file, save, finish_file,
  receive_chunk, count_bytes, receive_bytes, save_bytes, save_whole,
}
use hi_rodrop.Receiver.Pending.Texts.{complete_path}

-- A file that is waited for has its place below the directory, and no more of it than it declared.
abbrev pub IsKept : FilePath → PendingFile → Type 0
IsKept directory f = IsBelow directory f.final_path × (f.received ≤ f.expected_size)

-- All that is waited for and all that is saved has its place below the directory.
pub record IsConfined (directory : FilePath) (t : PendingTransfer) : Type 0 where
  pub files : AllValues (IsKept directory) t.files
  pub completed : All (IsBelow directory) t.completed
  pub download_directory : t.download_directory ≡ directory

module _ (directory : FilePath) where
  abbrev pub Confined : Receiving → Type 0
  Confined r = IsConfined directory r.transfer

  abbrev pub completes :
      (p : FilePath) (t : PendingTransfer)
      → IsBelow directory p
      → IsConfined directory t
      → IsConfined directory (complete_path p t)
  completes p t h c = record {
    files = c.files;
    completed = All-append (IsBelow directory) t.completed (p ∷ []) c.completed (h, tt);
    download_directory = c.download_directory;
  }

  save-Confined : (f : PendingFile) → IsBelow directory f.final_path → Keeps Confined (save f)
  unfolding save
  save-Confined f h =
      Keeps-bind Confined (on_disk sync_all)
        (λ u. on_disk (rename f.part_path f.final_path) >> change (complete_file f)) (λ s c. c)
        (λ u.
          Keeps-bind Confined (on_disk (rename f.part_path f.final_path))
            (λ v. change (complete_file f)) (λ s c. c)
            (λ v s c. completes f.final_path s.transfer h c))

  removes : (id : ℤ) → Keeps Confined (change (remove_file id))
  removes id s c = record {
    files = AllValues-remove (IsKept directory) id s.transfer.files c.files;
    completed = c.completed;
    download_directory = c.download_directory;
  }

  write_body-Confined :
      (id : ℤ) (f : PendingFile) (body : Bytes)
      → IsKept directory f
      → Keeps Confined (write_body id f body)
  unfolding write_body
  write_body-Confined id f body h = elim (Bool-cases (leb (2 ^ 64) (f.received + length body))) [
    | inl e ↦ rw e (λ s c. c)
    | inr e ↦ elim (Bool-cases (ltb f.expected_size (f.received + length body))) [
      | inl l ↦ rw (e, l) (λ s c. c)
      | inr l ↦
          rw (e, l)
            (Keeps-bind Confined (on_disk (write_file f.part_path body))
              (λ u. change (set_file id f (length body)) >> pure (advance f (length body)))
              (λ s c. c)
              (λ u s c. record {
                files =
                    AllValues-insert (IsKept directory) id (advance f (length body))
                      s.transfer.files (h.0, ground arith) c.files;
                completed = c.completed;
                download_directory = c.download_directory;
              }))
    ]
  ]

  write_chunk-Confined :
      (id : ℤ) (f : PendingFile) (chunk : PayloadChunk)
      → IsKept directory f
      → Keeps Confined (write_chunk id f chunk)
  write_chunk-Confined id f chunk h = elim (Option-cases chunk.body) [
    | inl e ↦ rw e (λ s c. c)
    | inr (body, e) ↦ rw e (
        Keeps-bind Confined (write_body id f body)
          (λ w. pure (w, some (file_name f.final_path unnamed_file)))
          (write_body-Confined id f body h) (λ x s c. c))
  ]

  -- Writing moves no file.
  abbrev StaysAt : FilePath → PendingFile × Option Text → Type 0
  StaysAt path x = x.0.final_path ≡ path

  write_body-StaysAt :
      (id : ℤ) (f : PendingFile) (body : Bytes)
      → Ensures (λ (g : PendingFile). g.final_path ≡ f.final_path) (write_body id f body)
  unfolding write_body
  write_body-StaysAt id f body s = elim (Bool-cases (leb (2 ^ 64) (f.received + length body))) [
    | inl e ↦ rw e tt
    | inr e ↦ elim (Bool-cases (ltb f.expected_size (f.received + length body))) [
      | inl l ↦ rw (e, l) tt
      | inr l ↦
          rw (e, l)
            (Ensures-bind (λ u. Unit {0}) (λ (g : PendingFile). g.final_path ≡ f.final_path)
              (on_disk (write_file f.part_path body))
              (λ u. change (set_file id f (length body)) >> pure (advance f (length body)))
              (λ s. Holds-unit (on_disk (write_file f.part_path body) s).0) (λ u q s. refl) s)
    ]
  ]
    where
      Holds-unit : (r : Result ReceiveError (Unit {0})) → Holds (λ u. Unit {0}) r
      Holds-unit (ok u) = tt
      Holds-unit (err e) = tt

  write_chunk-StaysAt :
      (id : ℤ) (f : PendingFile) (chunk : PayloadChunk)
      → Ensures (StaysAt f.final_path) (write_chunk id f chunk)
  write_chunk-StaysAt id f chunk = elim (Option-cases chunk.body) [
    | inl e ↦ rw e (λ s. refl)
    | inr (body, e) ↦ rw e (
        Ensures-bind (λ (g : PendingFile). g.final_path ≡ f.final_path) (StaysAt f.final_path)
          (write_body id f body) (λ w. pure (w, some (file_name f.final_path unnamed_file)))
          (write_body-StaysAt id f body) (λ g q s. q))
  ]

  finish_file-Confined :
      (id : ℤ) (f : PendingFile) (chunk : PayloadChunk)
      → IsBelow directory f.final_path
      → Keeps Confined (finish_file id f chunk)
  unfolding finish_file
  finish_file-Confined id f chunk h = elim (Bool-cases (is_last (unwrap_or chunk.flags (pos 0)))) [
    | inr e ↦ rw e (λ s c. c)
    | inl e ↦ elim (Bool-cases (f.received == f.expected_size)) [
      | inr l ↦ rw (e, l) (λ s c. c)
      | inl l ↦
          rw (e, l)
            (Keeps-bind Confined (change (remove_file id)) (λ u. save f) (removes id)
              (λ u. save-Confined f h))
    ]
  ]

  pub receive_chunk-Confined :
      (id : ℤ) (f : PendingFile) (chunk : PayloadChunk)
      → IsKept directory f
      → Keeps Confined (receive_chunk id chunk (some f))
  unfolding receive_chunk
  receive_chunk-Confined id f chunk h =
      elim (Bool-cases (is_value chunk.offset (as_i64 f.received))) [
        | inr e ↦ rw e (λ s c. c)
        | inl e ↦ rw e (
            Keeps-bind_given Confined (StaysAt f.final_path) (write_chunk id f chunk)
              (λ x. finish_file id x.0 chunk >> pure x.1) (write_chunk-Confined id f chunk h)
              (write_chunk-StaysAt id f chunk)
              (λ x q.
                Keeps-bind Confined (finish_file id x.0 chunk) (λ u. pure x.1)
                  (finish_file-Confined id x.0 chunk (rw q h.0)) (λ u s c. c)))
      ]

  save_whole-Confined :
      (bytes : Bytes) (f : PendingFile)
      → IsBelow directory f.final_path
      → Keeps Confined (save_whole bytes f)
  unfolding save_whole
  save_whole-Confined bytes f h =
      Keeps-bind Confined (change (count_bytes (length bytes)))
        (λ u. on_disk (write_file f.part_path bytes) >> named)
        (λ s c. record {
          files = c.files;
          completed = c.completed;
          download_directory = c.download_directory;
        })
        (λ u.
          Keeps-bind Confined (on_disk (write_file f.part_path bytes)) (λ v. named) (λ s c. c)
            (λ v.
              Keeps-bind Confined (save f) (λ w. pure (file_name f.final_path unnamed_file))
                (save-Confined f h) (λ w s c. c)))
    where
      named : Step Text
      named = save f >> pure (file_name f.final_path unnamed_file)

  pub receive_bytes-Confined :
      (id : ℤ) (bytes : Bytes) (f : PendingFile)
      → IsBelow directory f.final_path
      → Keeps Confined (receive_bytes id bytes (some f))
  unfolding receive_bytes save_bytes
  receive_bytes-Confined id bytes f h =
      Keeps-bind Confined (change (remove_file id)) (λ u. save_bytes bytes f) (removes id)
        (λ u. elim (Bool-cases (length bytes == f.expected_size)) [
          | inr e ↦ rw e (λ s c. c)
          | inl e ↦ rw e (save_whole-Confined bytes f h)
        ])
