-- ===== src/Receiver/Pending.antt =====
-- `PendingTransfer` of src/quick_share_receiver.rs: the files and texts that an accepted transfer still
-- waits for. The open file of a pending file stands for its part path on the disk.
pub mod Chunk
pub mod Bounded
pub mod Prepare
pub mod Delivered
pub mod Texts
pub mod Cleanup
use hi_rodrop.Prelude.{
  ℕ, ◌+◌, ◌-◌, ◌^◌, Bool, true, false, ◌||◌, Option, none, some, List, [], ◌∷◌, ◌++◌, length, ltb,
  leb, ◌==◌, min, if◌then◌else◌, Result, ok, err, ok_or, unwrap_or,
}
use hi_rodrop.Prelude.Int.{ℤ, pos, negsuc}
use hi_rodrop.Prelude.Bytes.{eq_bytes}
use hi_rodrop.Prelude.Utf8.{Text}
use hi_rodrop.Prelude.Exec.{Exec, pure, raise, lift, gets, modify, convert, focus, ◌>>=◌, ◌>>◌}
use hi_rodrop.Prelude.Map.{Map, lookup, insert, remove}
use hi_rodrop.Wire.{TextType, PayloadTransferFrame, PayloadChunk}
use hi_rodrop.Storage.FilePath.{FilePath}
use hi_rodrop.Storage.Disk.{Disk, Io, write_file, sync_all, rename}
use hi_rodrop.Receiver.Errors.{ReceiveError}

pub record PendingFile : Type 0 where
  pub expected_size : ℕ
  pub received : ℕ
  pub final_path : FilePath
  pub part_path : FilePath

pub record PendingText : Type 0 where
  pub expected_size : ℕ
  pub text_type : TextType

pub record PendingTransfer : Type 0 where
  pub files : Map PendingFile
  pub texts : Map PendingText
  pub preview_payload_ids : List ℤ
  pub download_directory : FilePath
  pub completed : List FilePath
  pub total_bytes : ℕ
  pub received_bytes : ℕ

-- The transfer and the disk that it writes to.
pub record Receiving : Type 0 where
  pub transfer : PendingTransfer
  pub disk : Disk

abbrev pub Step : Type 0 → Type 0
Step A = Exec Receiving ReceiveError A

abbrev pub on_disk : {A : Type 0} → Io A → Step A
on_disk = focus (λ s. s.disk) (λ d s. record s { disk = d }) ReceiveError.io

abbrev pub change : (PendingTransfer → PendingTransfer) → Step (Unit {0})
change f = modify (λ s. record s { transfer = f s.transfer })

-- `received as i64`
unfoldable pub as_i64 : ℕ → ℤ
as_i64 n = if ltb n (2 ^ 63) then pos n else negsuc (2 ^ 64 - 1 - n)

-- `u64::saturating_add`
abbrev pub saturating_add : ℕ → ℕ → ℕ
saturating_add a b = min (a + b) (2 ^ 64 - 1)

abbrev pub last_component : FilePath → Option Text
last_component [] = none
last_component (c ∷ []) = some c
last_component (c ∷ d ∷ p) = last_component (d ∷ p)

-- `Path::file_name`, with the program's word for a path that has none
abbrev pub file_name : FilePath → Text → Text
file_name p default = elim (last_component p) [
  | none ↦ default
  | some c ↦ if eq_bytes c (46 ∷ 46 ∷ []) then default else c
]

-- "檔案"
abbrev pub unnamed_file : Text
unnamed_file = 0x6A94 ∷ 0x6848 ∷ []
