-- ===== src/Storage/Disk.antt =====
-- The calls of `std::fs` that src/quick_share_receiver.rs makes. A disk maps paths to what stands there.
-- Any call may fail: `faults` says how the next calls go, `some fault` for one that fails, and past its
-- end all go well; a missing parent, a full disk and all else that the map does not show is a
-- fault. An open file stands for its path, which nothing else writes to.
use hi_rodrop.Prelude.{
  ℕ, Bool, true, false, not, ◌&&◌, take, unwrap_or, Option, none, some, List, [], ◌∷◌, ◌++◌,
  if◌then◌else◌, ok,
}
use hi_rodrop.Prelude.Bytes.{Bytes}
use hi_rodrop.Prelude.Exec.{Exec, pure, raise, gets, modify, ◌>>=◌, ◌>>◌}
use hi_rodrop.Transport.{ErrorKind}
use hi_rodrop.Storage.FilePath.{FilePath, eq_path}

-- A symbolic link says whether its target exists.
pub data Node : Type 0 where
  file : Bytes → Node
  directory special : Node
  symlink : Bool → Node

-- How a call fails. One that writes may have written some bytes before, or none if it fails at once.
pub record Fault : Type 0 where
  pub kind : ErrorKind
  pub written : Option ℕ

-- The metadata of an unreadable path cannot be asked for.
pub record Disk : Type 0 where
  pub node : FilePath → Option Node
  pub unreadable : FilePath → Bool
  pub faults : List (Option Fault)

abbrev pub Io : Type 0 → Type 0
Io A = Exec Disk ErrorKind A

abbrev pub update : (FilePath → Option Node) → FilePath → Option Node → FilePath → Option Node
update nodes p n q = if eq_path p q then n else nodes q

-- How the next call goes.
abbrev pub next_fault : Io (Option Fault)
next_fault d = elim d.faults [
  | [] ↦ (ok none, d)
  | step ∷ rest ↦ (ok step, record d { faults = rest })
]

abbrev fail_by : Option Fault → Io (Unit {0})
fail_by none = pure tt
fail_by (some fault) = raise fault.kind

-- A call that does nothing when it fails.
abbrev pub system_call : Io (Unit {0})
system_call = next_fault >>= fail_by

abbrev pub set_node : FilePath → Option Node → Io (Unit {0})
set_node p n = modify (λ d. record d { node = update d.node p n })

-- Whether a call that follows links finds something.
abbrev pub is_found : Option Node → Bool
is_found none = false
is_found (some (Node.symlink target)) = target
is_found (some (Node.file content)) = true
is_found (some Node.directory) = true
is_found (some Node.special) = true

-- `Path::exists`, which follows links, and answers false where the metadata cannot be read
abbrev pub exists : Disk → FilePath → Bool
exists d p = not (d.unreadable p) && is_found (d.node p)

abbrev some_or : Option Node → Io Node
some_or none = raise ErrorKind.not_found
some_or (some n) = pure n

unfoldable pub symlink_metadata : FilePath → Io Node
symlink_metadata p = do
  system_call
  unreadable ← gets (λ d. d.unreadable p)
  n ← gets (λ d. d.node p)
  if unreadable then raise ErrorKind.other else some_or n

abbrev create_at : FilePath → Node → Option Node → Io (Unit {0})
create_at p n none = set_node p (some n)
create_at p n (some old) = raise ErrorKind.other

-- `OpenOptions::create_new`, which refuses whatever stands there
unfoldable pub create_new : FilePath → Io (Unit {0})
create_new p = do system_call; old ← gets (λ d. d.node p); create_at p (Node.file []) old

unfoldable pub create_dir : FilePath → Io (Unit {0})
create_dir p = do system_call; old ← gets (λ d. d.node p); create_at p Node.directory old

abbrev append_to : FilePath → Bytes → Option Node → Io (Unit {0})
append_to p bytes none = raise ErrorKind.not_found
append_to p bytes (some (Node.file content)) = set_node p (some (Node.file (content ++ bytes)))
append_to p bytes (some other) = raise ErrorKind.other

-- What of some bytes is written before a fault.
abbrev pub written_part : Bytes → Option Fault → Bytes
written_part bytes none = bytes
written_part bytes (some fault) = take (unwrap_or fault.written 0) bytes

-- `write_all` on an open file, which may fail behind a part of the bytes
unfoldable pub write_file : FilePath → Bytes → Io (Unit {0})
write_file p bytes = do
  fault ← next_fault
  n ← gets (λ d. d.node p)
  append_to p (written_part bytes fault) n
  fail_by fault

unfoldable pub sync_all : Io (Unit {0})
sync_all = system_call

abbrev pub is_directory : Option Node → Bool
is_directory none = false
is_directory (some Node.directory) = true
is_directory (some (Node.file content)) = false
is_directory (some Node.special) = false
is_directory (some (Node.symlink target)) = false

abbrev move_to : FilePath → FilePath → Option Node → Bool → Io (Unit {0})
move_to from to none occupied = raise ErrorKind.not_found
move_to from to (some n) true = raise ErrorKind.other
move_to from to (some n) false = set_node from none >> set_node to (some n)

-- `fs::rename` of what is no directory, which replaces all but a directory at the destination
unfoldable pub rename : FilePath → FilePath → Io (Unit {0})
rename from to = do
  system_call
  n ← gets (λ d. d.node from)
  occupied ← gets (λ d. is_directory (d.node to))
  move_to from to n occupied

-- Opening for `fs::write`: a file is emptied, or made where nothing stands. The link stays where one stands,
-- and what it leads to, like a device, is not on the map.
abbrev empty_at : FilePath → Option Node → Io (Unit {0})
empty_at p none = set_node p (some (Node.file []))
empty_at p (some (Node.file content)) = set_node p (some (Node.file []))
empty_at p (some Node.directory) = raise ErrorKind.other
empty_at p (some Node.special) = pure tt
empty_at p (some (Node.symlink target)) = pure tt

abbrev fill_at : FilePath → Bytes → Option Node → Io (Unit {0})
fill_at p bytes none = pure tt
fill_at p bytes (some (Node.file content)) = set_node p (some (Node.file bytes))
fill_at p bytes (some Node.directory) = pure tt
fill_at p bytes (some Node.special) = pure tt
fill_at p bytes (some (Node.symlink target)) = pure tt

abbrev open_and_fill : FilePath → Bytes → Io (Unit {0})
open_and_fill p bytes = do
  old ← gets (λ d. d.node p)
  empty_at p old
  new ← gets (λ d. d.node p)
  fill_at p bytes new

-- Whether a call fails before it writes.
abbrev fails_at_once : Option Fault → Bool
fails_at_once none = false
fails_at_once (some fault) = elim fault.written [ none ↦ true | some n ↦ false ]

-- `fs::write`, which opens and then writes, and may fail at either
unfoldable pub write_new : FilePath → Bytes → Io (Unit {0})
write_new p bytes = do
  fault ← next_fault
  if fails_at_once fault then pure tt else open_and_fill p (written_part bytes fault)
  fail_by fault

abbrev drop_at : FilePath → Option Node → Io (Unit {0})
drop_at p none = raise ErrorKind.not_found
drop_at p (some n) = set_node p none

unfoldable pub remove_file : FilePath → Io (Unit {0})
remove_file p = do system_call; n ← gets (λ d. d.node p); drop_at p n
