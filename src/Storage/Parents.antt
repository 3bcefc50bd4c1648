-- ===== src/Storage/Parents.antt =====
-- `safe_parent_directory` of src/quick_share_receiver.rs.
pub mod Inside
use hi_rodrop.Prelude.{
  Bool, true, false, not, Option, none, some, List, [], ◌∷◌, Result, ok, err, keep_if,
}
use hi_rodrop.Prelude.Bytes.{eq_bytes}
use hi_rodrop.Prelude.Utf8.{Text}
use hi_rodrop.Prelude.Exec.{Exec, pure, lift, convert, ◌>>=◌, ◌>>◌}
use hi_rodrop.Transport.{ErrorKind}
use hi_rodrop.Receiver.Errors.{ReceiveError}
use hi_rodrop.Storage.Names.{split, sanitize_path_component}
use hi_rodrop.Storage.FilePath.{FilePath, join}
use hi_rodrop.Storage.Disk.{Node, Disk, Io, symlink_metadata, create_dir}

-- An action of the disk, its error turned into the receiver's, as `?` does.
abbrev pub on_disk : {A : Type 0} → Io A → Exec Disk ReceiveError A
on_disk m d = (convert ReceiveError.io (m d).0, (m d).1)

-- What `symlink_metadata` says: a directory that stands there is used, one that is missing is
-- made, and a link or a file ends it.
unfoldable pub enter : FilePath → Result ErrorKind Node → Exec Disk ReceiveError (Unit {0})
enter directory (ok Node.directory) d = (ok tt, d)
enter directory (ok other) d = (err ReceiveError.unsafe_metadata, d)
enter directory (err ErrorKind.not_found) d = on_disk (create_dir directory) d
enter directory (err kind) d = (err (ReceiveError.io kind), d)

unfoldable pub enter_directory : FilePath → Exec Disk ReceiveError (Unit {0})
unfolding symlink_metadata
enter_directory directory d =
    enter directory (symlink_metadata directory d).0 (symlink_metadata directory d).1

unfoldable pub walk : List Text → FilePath → Exec Disk ReceiveError FilePath
walk [] directory = pure directory
walk (c ∷ cs) directory = do
  component ← lift (sanitize_path_component c)
  let next = join directory component
  enter_directory next
  walk cs next

unfoldable pub walk_folder : Option Text → FilePath → Exec Disk ReceiveError FilePath
walk_folder none directory = pure directory
walk_folder (some folder) directory = walk (split [] folder) directory

unfoldable pub safe_parent_directory : FilePath → Option Text → Exec Disk ReceiveError FilePath
safe_parent_directory download_directory parent_folder =
    walk_folder (keep_if (λ value. not (eq_bytes value [])) parent_folder) download_directory
