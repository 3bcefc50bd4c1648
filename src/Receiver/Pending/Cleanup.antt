-- ===== src/Receiver/Pending/Cleanup.antt =====
-- What `cleanup_parts` of src/quick_share_receiver.rs removes.
use hi_rodrop.Prelude.{Bool, false, ◌||◌, Option, [], ◌∷◌}
use hi_rodrop.Prelude.Map.{Map}
use hi_rodrop.Storage.FilePath.{FilePath, eq_path}
use hi_rodrop.Storage.Disk.{Node, Disk}
use hi_rodrop.Receiver.Pending.{PendingFile}

-- The part path of a file that is waited for.
unfoldable pub is_part : Map PendingFile → FilePath → Bool
is_part [] path = false
is_part ((id, pending) ∷ files) path = eq_path pending.part_path path || is_part files path

module _ (unreadable : FilePath → Bool) where
  -- A disk whose calls do not fail.
  abbrev quiet : (FilePath → Option Node) → Disk
  quiet nodes = record { node = nodes; unreadable = unreadable; faults = [] }
