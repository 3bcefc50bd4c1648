-- ===== src/Storage/Parents/Inside.antt =====
-- Where src/quick_share_receiver.rs puts a file that names a parent folder.
use hi_rodrop.Prelude.{
  ◌≡◌, sym, ◌∙◌, inl, inr, Option, none, some, List, [], ◌∷◌, ◌++◌, All, ok, Result-cases, arith,
}
use mathlib.Core.List.{append_assoc, append-nil}
use hi_rodrop.Prelude.Utf8.{Text}
use hi_rodrop.Prelude.Exec.{Exec, pure}
use hi_rodrop.Receiver.Errors.{ReceiveError}
use hi_rodrop.Storage.Names.{split, sanitize_path_component}
use hi_rodrop.Storage.SafeNames.{IsSafe, sanitize_path_component-IsSafe}
use hi_rodrop.Storage.Destination.Inside.{IsEntry}
use hi_rodrop.Storage.FilePath.{FilePath, join-IsSafe}
use hi_rodrop.Storage.Disk.{Disk}
use hi_rodrop.Storage.Parents.{enter_directory, walk, walk_folder, safe_parent_directory}

-- A path that lies below a directory by safe names only.
abbrev pub IsInside : FilePath → FilePath → Type 0
IsInside directory p = (names : List Text) × (p ≡ directory ++ names) × All IsSafe names

IsInside-next :
    (directory : FilePath) (s : Text) (p : FilePath)
    → IsSafe s
    → IsInside (directory ++ s ∷ []) p
    → IsInside directory p
IsInside-next directory s p h (names, e, all) =
    (s ∷ names, e ∙ append_assoc directory (s ∷ []) names, (h, all))

abbrev returned : FilePath → Exec Disk ReceiveError FilePath
returned directory = pure directory

same :
    (directory p : FilePath) (d t : Disk) → returned directory d ≡ (ok p, t) → p ≡ directory ++ []
same directory p d t h = ground arith ∙ sym (append-nil directory)

walk-IsInside :
    (cs : List Text) (directory : FilePath) (p : FilePath) (d t : Disk)
    → walk cs directory d ≡ (ok p, t)
    → IsInside directory p
unfolding walk
walk-IsInside [] directory p d t h = ([], same directory p d t h, tt)
walk-IsInside (c ∷ cs) directory p d t h = elim (Result-cases (sanitize_path_component c)) [
  | inr (e, x) ↦ absurd (cc (rw x at h))
  | inl (s, x) ↦
      let safe : IsSafe s = (sanitize_path_component-IsSafe c s x).0 in
      elim (Result-cases (enter_directory (directory ++ s ∷ []) d).0) [
        | inr (e, y) ↦ absurd (cc (rw (x, join-IsSafe directory s safe, y) at h))
        | inl (u, y) ↦ IsInside-next directory s p safe (
            walk-IsInside cs (directory ++ s ∷ []) p (enter_directory (directory ++ s ∷ []) d).1 t
              (rw (x, join-IsSafe directory s safe, y) at h))
      ]
]

walk_folder-IsInside :
    (folder : Option Text) (directory : FilePath) (p : FilePath) (d t : Disk)
    → walk_folder folder directory d ≡ (ok p, t)
    → IsInside directory p
unfolding walk_folder
walk_folder-IsInside none directory p d t h = ([], same directory p d t h, tt)
walk_folder-IsInside (some f) directory p d t h = walk-IsInside (split [] f) directory p d t h

-- Whatever folder the peer names, the directory that a file is put in is the download directory
-- itself or lies below it by safe names: no name leads out of it.
pub safe_parent_directory-IsInside :
    (directory : FilePath) (folder : Option Text) (p : FilePath) (d t : Disk)
    → safe_parent_directory directory folder d ≡ (ok p, t)
    → IsInside directory p
unfolding safe_parent_directory
safe_parent_directory-IsInside directory folder p d t h = walk_folder-IsInside _ directory p d t h

-- A path strictly below a directory: an entry, by a safe name, of a directory that is inside it.
abbrev pub IsBelow : FilePath → FilePath → Type 0
IsBelow directory p = (parent : FilePath) × IsInside directory parent × IsEntry parent p
