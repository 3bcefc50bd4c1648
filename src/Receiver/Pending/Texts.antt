-- ===== src/Receiver/Pending/Texts.antt =====
-- `PendingTransfer::receive_text` and `cleanup_parts` of src/quick_share_receiver.rs. The time in seconds and the
-- random number of a last resort are arguments.
use hi_rodrop.Prelude.{ℕ, not, Option, none, some, [], ◌∷◌, ◌++◌, length, ◌==◌, if◌then◌else◌}
use hi_rodrop.Prelude.Int.{ℤ}
use hi_rodrop.Prelude.Bytes.{Bytes}
use hi_rodrop.Prelude.Utf8.{Text, chars}
use hi_rodrop.Prelude.Decimal.{decimal}
use hi_rodrop.Prelude.Exec.{pure, raise, gets, ◌>>=◌, ◌>>◌}
use hi_rodrop.Prelude.Map.{Map, lookup, remove}
use hi_rodrop.Wire.{TextType}
use hi_rodrop.Storage.FilePath.{FilePath}
use hi_rodrop.Storage.Disk as Disk
use hi_rodrop.Storage.Disk.{write_new}
use hi_rodrop.Storage.Destination.{unique_destination}
use hi_rodrop.Receiver.Errors.{ReceiveError}
use hi_rodrop.Receiver.Pending.{
  PendingFile, PendingText, PendingTransfer, Step, on_disk, change, file_name,
}
use hi_rodrop.Receiver.Pending.Chunk.{count_bytes}

abbrev pub remove_text : ℤ → PendingTransfer → PendingTransfer
remove_text id transfer = record transfer { texts = remove id transfer.texts }

abbrev pub complete_path : FilePath → PendingTransfer → PendingTransfer
complete_path path transfer = record transfer { completed = transfer.completed ++ path ∷ [] }

abbrev pub suffix : TextType → Text
suffix TextType.url = chars "url.txt"
suffix _ = chars "txt"

unfoldable pub text_name : ℕ → TextType → Text
text_name timestamp text_type =
    chars "Quick Share " ++ (decimal timestamp ++ (chars "." ++ suffix text_type))

-- "分享的文字"
abbrev pub unnamed_text : Text
unnamed_text = 0x5206 ∷ 0x4EAB ∷ 0x7684 ∷ 0x6587 ∷ 0x5B57 ∷ []

unfoldable pub save_text : ℕ → ℕ → Bytes → PendingText → Step Text
save_text timestamp random bytes pending = do
  change (count_bytes (length bytes))
  path ← gets λ s.
      unique_destination s.disk s.transfer.download_directory
        (text_name timestamp pending.text_type) random
  on_disk (write_new path bytes)
  change (complete_path path)
  pure (file_name path unnamed_text)

-- The entry leaves the table before the size is tested.
unfoldable pub take_text : ℕ → ℕ → ℤ → Bytes → Option PendingText → Step Text
take_text timestamp random id bytes none = raise (ReceiveError.protocol "unknown text payload ID")
take_text timestamp random id bytes (some pending) = do
  change (remove_text id)
  if not (length bytes == pending.expected_size)
      then raise (ReceiveError.protocol "text payload size mismatch")
      else save_text timestamp random bytes pending

unfoldable pub receive_text : ℕ → ℕ → ℤ → Bytes → Step Text
receive_text timestamp random id bytes = do
  pending ← gets (λ s. lookup id s.transfer.texts)
  take_text timestamp random id bytes pending

-- `let _ = fs::remove_file(…)`: an error is dropped.
abbrev pub try_remove : FilePath → Disk.Disk → Disk.Disk
try_remove path disk = (Disk.remove_file path disk).1

unfoldable pub cleanup_files : Map PendingFile → Disk.Disk → Disk.Disk
cleanup_files [] disk = disk
cleanup_files ((id, pending) ∷ files) disk = cleanup_files files (try_remove pending.part_path disk)

unfoldable pub cleanup_parts : PendingTransfer → Disk.Disk → Disk.Disk
cleanup_parts transfer disk = cleanup_files transfer.files disk
