-- ===== src/Receiver/Pending/Prepare.antt =====
-- `PendingTransfer::prepare` of src/quick_share_receiver.rs. The id of the process and the random numbers are
-- arguments: the file at place i takes two of them.
pub mod Accounts
pub mod Total
use hi_rodrop.Prelude.{
  ℕ, ◌+◌, ◌*◌, ◌^◌, Bool, true, false, ◌&&◌, ◌||◌, Option, none, some, List, [], ◌∷◌, ◌++◌, ltb,
  if◌then◌else◌, Result, ok, err, ok_or, and_then, unwrap_or,
}
use hi_rodrop.Prelude.Int.{ℤ, pos, negsuc}
use hi_rodrop.Prelude.Utf8.{Text, chars}
use hi_rodrop.Prelude.Decimal.{decimal}
use hi_rodrop.Prelude.Exec.{Exec, pure, raise, lift, gets, ◌>>=◌, ◌>>◌}
use hi_rodrop.Prelude.Map.{Map, lookup, insert}
use hi_rodrop.Wire.Enumeration.{try_from}
use hi_rodrop.Wire.{FileMetadata, TextMetadata, TextType, text_type_enumeration, IntroductionFrame}
use hi_rodrop.Transport.{max_wire_frame_bytes}
use hi_rodrop.Storage.Names.{sanitize_file_name}
use hi_rodrop.Storage.FilePath.{FilePath, join}
use hi_rodrop.Storage.Disk.{Disk, create_new}
use hi_rodrop.Storage.Parents.{on_disk, safe_parent_directory}
use hi_rodrop.Storage.Destination.{unique_destination}
use hi_rodrop.Receiver.Errors.{ReceiveError}
use hi_rodrop.Receiver.Pending.{PendingFile, PendingText, PendingTransfer}

abbrev pub max_total_transfer_bytes : ℕ
max_total_transfer_bytes = 100 * 1024 * 1024 * 1024

abbrev pub Preparing : Type 0 → Type 0
Preparing A = Exec Disk ReceiveError A

-- `u64::try_from` of an optional `i64`
unfoldable pub declared_size : Option ℤ → Result ReceiveError ℕ
declared_size none = err ReceiveError.unsafe_metadata
declared_size (some (pos n)) = ok n
declared_size (some (negsuc n)) = err ReceiveError.unsafe_metadata

-- `checked_add` of `u64`
unfoldable pub add_size : ℕ → ℕ → Result ReceiveError ℕ
add_size total size =
    if ltb (total + size) (2 ^ 64) then ok (total + size) else err ReceiveError.transfer_too_large

abbrev pub contains_key {ℓ} : {V : Type ℓ} → ℤ → Map V → Bool
contains_key k m = elim (lookup k m) [ none ↦ false | some v ↦ true ]

abbrev pub part_name : ℕ → ℕ → Text
part_name process_id random =
    chars ".hirodrop-" ++ (decimal process_id ++ (chars "-" ++ (decimal random ++ chars ".part")))

abbrev pub Texts : Type 0
Texts = Map PendingText × ℕ

unfoldable pub prepare_text : TextMetadata → ℕ → Preparing (ℤ × PendingText × ℕ)
prepare_text metadata total = do
  id ← lift (ok_or metadata.payload_id ReceiveError.unsafe_metadata)
  size ← lift (declared_size metadata.size)
  if ltb max_wire_frame_bytes size then raise ReceiveError.unsafe_metadata else do
    sum ← lift (add_size total size)
    let text_type = unwrap_or (and_then metadata.text_type try_from) TextType.unknown
    pure (id, record { expected_size = size; text_type = text_type }, sum)

abbrev pub is_empty_list {ℓ} : {A : Type ℓ} → List A → Bool
is_empty_list [] = true
is_empty_list (x ∷ xs) = false

module _ (download_directory : FilePath) (process_id : ℕ) (random : ℕ → ℕ) where
  -- The part file is made in the download directory itself.
  unfoldable pub open_part : ℕ → FilePath → FilePath → Preparing PendingFile
  open_part size final_path part_path = do
    on_disk (create_new part_path)
    pure (record {
      expected_size = size;
      received = 0;
      final_path = final_path;
      part_path = part_path;
    })

  unfoldable pub place_file : ℕ → Text → Option Text → ℕ → Preparing PendingFile
  place_file size safe_name parent_folder i = do
    parent_directory ← safe_parent_directory download_directory parent_folder
    final_path ← gets (λ d. unique_destination d parent_directory safe_name (random (2 * i)))
    open_part size final_path (join download_directory (part_name process_id (random (2 * i + 1))))

  unfoldable pub prepare_file : FileMetadata → ℕ → ℕ → Preparing (ℤ × PendingFile × ℕ)
  prepare_file metadata i total = do
    id ← lift (ok_or metadata.payload_id ReceiveError.unsafe_metadata)
    size ← lift (declared_size metadata.size)
    sum ← lift (add_size total size)
    name ← lift (ok_or metadata.name ReceiveError.unsafe_metadata)
    safe_name ← lift (sanitize_file_name name)
    pending ← place_file size safe_name metadata.parent_folder i
    pure (id, pending, sum)

  -- A second file under one id ends it.
  unfoldable pub prepare_files :
      List FileMetadata → ℕ → Map PendingFile → ℕ → Preparing (Map PendingFile × ℕ)
  prepare_files [] i files total = pure (files, total)
  prepare_files (metadata ∷ rest) i files total = do
    x ← prepare_file metadata i total
    if contains_key x.0 files
        then raise ReceiveError.unsafe_metadata
        else prepare_files rest (i + 1) (insert x.0 x.1 files) x.2

  -- A second text under one id, or one under the id of a file, ends it.
  unfoldable pub prepare_texts :
      List TextMetadata → Map PendingFile → Map PendingText → ℕ → Preparing Texts
  prepare_texts [] files texts total = pure (texts, total)
  prepare_texts (metadata ∷ rest) files texts total = do
    x ← prepare_text metadata total
    if contains_key x.0 texts || contains_key x.0 files
        then raise ReceiveError.unsafe_metadata
        else prepare_texts rest files (insert x.0 x.1 texts) x.2

  abbrev pub prepared : List ℤ → Map PendingFile → Map PendingText → ℕ → PendingTransfer
  prepared preview_payload_ids files texts total = record {
    files = files;
    texts = texts;
    preview_payload_ids = preview_payload_ids;
    download_directory = download_directory;
    completed = [];
    total_bytes = total;
    received_bytes = 0;
  }

  unfoldable pub check_total : List ℤ → Map PendingFile → Texts → Preparing PendingTransfer
  check_total preview_payload_ids files texts =
      if ltb max_total_transfer_bytes texts.1
      then raise ReceiveError.transfer_too_large
      else pure (prepared preview_payload_ids files texts.0 texts.1)

  unfoldable pub prepare : IntroductionFrame → Preparing PendingTransfer
  prepare introduction =
      if is_empty_list introduction.file_metadata && is_empty_list introduction.text_metadata
      then raise ReceiveError.unsafe_metadata
      else do
        files ← prepare_files introduction.file_metadata 0 [] 0
        texts ← prepare_texts introduction.text_metadata files.0 [] files.1
        check_total introduction.preview_payload_ids files.0 texts
