-- ===== src/Receiver/Pending/Prepare/Total.antt =====
-- The tables and the sum of a transfer that `prepare` of src/quick_share_receiver.rs lets through.
use hi_rodrop.Prelude.{
  ℕ, ◌≤◌, ◌+◌, ◌≡◌, refl, ap, inl, inr, ◌&&◌, List, [], ◌∷◌, arith, ltb, ok, Result, ok_or,
  Bool-cases,
}
use mathlib.Core.Path.{subst}
use hi_rodrop.Prelude.Int.{ℤ}
use hi_rodrop.Prelude.Exec.{lift, Holds, Ensures, Ensures-bind}
use hi_rodrop.Prelude.Map.{Map, insert, AllValues, AllValues-insert}
use hi_rodrop.Wire.{FileMetadata, TextMetadata, IntroductionFrame}
use hi_rodrop.Transport.{max_wire_frame_bytes}
use hi_rodrop.Storage.FilePath.{FilePath}
use hi_rodrop.Storage.Disk.{Disk}
use hi_rodrop.Receiver.Errors.{ReceiveError}
use hi_rodrop.Receiver.Pending.{PendingFile, PendingText, PendingTransfer}
use hi_rodrop.Receiver.Pending.Prepare.{
  declared_size, add_size, contains_key, prepare_text, prepare_file, prepare_files, prepare_texts,
  check_total, prepare, is_empty_list, max_total_transfer_bytes, Texts,
}
use hi_rodrop.Receiver.Pending.Prepare.Accounts.{
  sum_files, sum_texts, IsPlaced, IsCounted, Holds-each, add_size-value, insert_absent-sum,
  insert_absent-sum_texts, prepare_file-IsCounted,
}

abbrev pub FitsFrame : PendingText → Type 0
FitsFrame t = t.expected_size ≤ max_wire_frame_bytes

abbrev IsCountedText : ℕ → ℤ × PendingText × ℕ → Type 0
IsCountedText total (id, t, sum) = FitsFrame t × (sum ≡ total + t.expected_size)

prepare_text-counted :
    (metadata : TextMetadata) (total : ℕ)
    → Ensures (IsCountedText total) (prepare_text metadata total)
unfolding prepare_text
prepare_text-counted metadata total =
    Ensures-bind (λ id. Unit {0}) (IsCountedText total)
      (lift (ok_or metadata.payload_id ReceiveError.unsafe_metadata)) _
      (λ d.
        Holds-each (λ id. Unit {0}) (ok_or metadata.payload_id ReceiveError.unsafe_metadata)
          (λ id e. tt))
      (λ id u.
        Ensures-bind (λ size. Unit {0}) (IsCountedText total) (lift (declared_size metadata.size)) _
          (λ d. Holds-each (λ size. Unit {0}) (declared_size metadata.size) (λ size e. tt))
          (λ size u. elim (Bool-cases (ltb max_wire_frame_bytes size)) [
            | inl l ↦ rw l (λ d. tt)
            | inr l ↦ rw l (
                Ensures-bind (λ sum. sum ≡ total + size) (IsCountedText total)
                  (lift (add_size total size)) _
                  (λ d.
                    Holds-each (λ sum. sum ≡ total + size) (add_size total size)
                      (add_size-value total size))
                  (λ sum counted d. (ground arith, counted)))
          ]))

-- All files are placed, and the sum is that of their sizes.
abbrev AreCounted : FilePath → Map PendingFile × ℕ → Type 0
AreCounted directory (files, total) =
    AllValues (IsPlaced directory) files × (total ≡ sum_files files)

-- All texts fit into a frame, and the sum is that of all sizes.
abbrev AreCountedTexts : Map PendingFile → Texts → Type 0
AreCountedTexts files (texts, total) =
    AllValues FitsFrame texts × (total ≡ sum_files files + sum_texts texts)

module _ (directory : FilePath) (process_id : ℕ) (random : ℕ → ℕ) where
  prepare_files-counted :
      (list : List FileMetadata) (i : ℕ) (files : Map PendingFile) (total : ℕ)
      → AreCounted directory (files, total)
      → Ensures
          (AreCounted directory)
          (prepare_files directory process_id random list i files total)
  unfolding prepare_files
  prepare_files-counted [] i files total h = λ d. h
  prepare_files-counted (metadata ∷ rest) i files total h =
      Ensures-bind (IsCounted directory process_id random total) (AreCounted directory)
        (prepare_file directory process_id random metadata i total) _
        (prepare_file-IsCounted directory process_id random metadata i total)
        (λ x counted. elim (Bool-cases (contains_key x.0 files)) [
          | inl e ↦ rw e (λ d. tt)
          | inr e ↦ rw e (
              prepare_files-counted rest (i + 1) (insert x.0 x.1 files) x.2 (
                AllValues-insert (IsPlaced directory) x.0 x.1 files counted.0 h.0,
                omega (arith, counted.1, h.1, insert_absent-sum x.0 x.1 files e),
              ))
        ])

  prepare_texts-counted :
      (list : List TextMetadata) (files : Map PendingFile) (texts : Map PendingText) (total : ℕ)
      → AreCountedTexts files (texts, total)
      → Ensures
          (AreCountedTexts files)
          (prepare_texts directory process_id random list files texts total)
  unfolding prepare_texts
  prepare_texts-counted [] files texts total h = λ d. h
  prepare_texts-counted (metadata ∷ rest) files texts total h =
      Ensures-bind (IsCountedText total) (AreCountedTexts files) (prepare_text metadata total) _
        (prepare_text-counted metadata total)
        (λ x counted. elim (Bool-cases (contains_key x.0 texts)) [
          | inl e ↦ rw e (λ d. tt)
          | inr e ↦ elim (Bool-cases (contains_key x.0 files)) [
            | inl e2 ↦ rw (e, e2) (λ d. tt)
            | inr e2 ↦
                rw (e, e2)
                  (prepare_texts-counted rest files (insert x.0 x.1 texts) x.2 (
                    AllValues-insert FitsFrame x.0 x.1 texts counted.0 h.0,
                    omega (arith, counted.1, h.1, insert_absent-sum_texts x.0 x.1 texts e),
                  ))
          ]
        ])

  -- What a prepared transfer is.
  abbrev IsPrepared : PendingTransfer → Type 0
  IsPrepared t =
      AllValues (IsPlaced directory) t.files
      × AllValues FitsFrame t.texts
      × (t.total_bytes ≡ sum_files t.files + sum_texts t.texts)
      × (t.total_bytes ≤ max_total_transfer_bytes)
      × (t.received_bytes ≡ 0)

  check_total-IsPrepared :
      (ids : List ℤ) (files : Map PendingFile) (texts : Texts)
      → AllValues (IsPlaced directory) files
      → AreCountedTexts files texts
      → Ensures IsPrepared (check_total directory process_id random ids files texts)
  unfolding check_total
  check_total-IsPrepared ids files texts h counted =
      elim (Bool-cases (ltb max_total_transfer_bytes texts.1)) [
        | inl e ↦ rw e (λ d. tt)
        | inr e ↦ rw e (λ d. (h, counted.0, counted.1, ground arith, refl))
      ]

  prepare-Ensures :
      (introduction : IntroductionFrame)
      → Ensures IsPrepared (prepare directory process_id random introduction)
  unfolding prepare
  prepare-Ensures introduction =
      elim (Bool-cases
        (is_empty_list introduction.file_metadata && is_empty_list introduction.text_metadata)) [
          | inl e ↦ rw e (λ d. tt)
          | inr e ↦ rw e (
              Ensures-bind (AreCounted directory) IsPrepared
                (prepare_files directory process_id random introduction.file_metadata 0 [] 0) _
                (prepare_files-counted introduction.file_metadata 0 [] 0 (tt, refl))
                (λ files h.
                  Ensures-bind (AreCountedTexts files.0) IsPrepared
                    (prepare_texts directory process_id random introduction.text_metadata files.0 []
                      files.1)
                    _
                    (prepare_texts-counted introduction.text_metadata files.0 [] files.1
                      (tt, omega (arith, h.1)))
                    (λ texts counted.
                      check_total-IsPrepared introduction.preview_payload_ids files.0 texts h.0
                        counted)))
        ]

  -- A transfer that is let through starts with nothing received, the place of each of its files is
  -- strictly below the download directory (an entry, by a safe name, of a directory that is the
  -- download directory or is reached from it by safe names), each text fits into one wire frame, and
  -- the sizes of all files and texts add up to its total, which is at most 100 GiB.
  pub prepare-IsPrepared :
      (introduction : IntroductionFrame) (t : PendingTransfer) (d e : Disk)
      → prepare directory process_id random introduction d ≡ (ok t, e)
      → AllValues (IsPlaced directory) t.files
        × AllValues FitsFrame t.texts
        × (t.total_bytes ≡ sum_files t.files + sum_texts t.texts)
        × (t.total_bytes ≤ max_total_transfer_bytes)
        × (t.received_bytes ≡ 0)
  prepare-IsPrepared introduction t d e h =
      subst (Holds IsPrepared) (ap (λ (p : Result ReceiveError PendingTransfer × Disk). p.0) h)
        (prepare-Ensures introduction d)
