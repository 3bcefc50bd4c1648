-- ===== src/Tests/Storage.antt =====
-- The properties of names and paths at concrete ones.
use hi_rodrop.Prelude.{false, ◌≡◌, ◌↔◌, refl, none, some, [], ◌∷◌, ◌++◌, ok}
use hi_rodrop.Prelude.Bytes.{eq_bytes}
use hi_rodrop.Prelude.Utf8.{chars}
use hi_rodrop.Storage.Names.{
  sanitize_path_component, sanitize_file_name, split, is_blank, replace_char,
}
use hi_rodrop.Storage.SafeNames.{IsSafe, sanitize_path_component-IsSafe, sanitize_file_name_iff}
use hi_rodrop.Storage.FilePath.{FilePath, join, components, eq_path, join-IsSafe}
use hi_rodrop.Storage.Disk.{Disk, create_dir, symlink_metadata}
use hi_rodrop.Storage.Parents.{safe_parent_directory, walk, walk_folder, enter_directory, enter}
use hi_rodrop.Storage.Parents.Inside.{IsInside, safe_parent_directory-IsInside}

sanitize_file_name_iff_example :
    IsSafe (chars "a.txt") ↔ (sanitize_file_name (chars "a.txt") ≡ ok (chars "a.txt"))
sanitize_file_name_iff_example = sanitize_file_name_iff (chars "a.txt")

abbrev downloads : FilePath
downloads = chars "home" ∷ chars "Downloads" ∷ []

join-IsSafe_example : join downloads (chars "a_b") ≡ downloads ++ (chars "a_b" ∷ [])
unfolding sanitize_path_component eq_bytes is_blank replace_char
join-IsSafe_example =
    join-IsSafe downloads (chars "a_b")
      (sanitize_path_component-IsSafe (chars "a/b") (chars "a_b") refl).0

abbrev empty_disk : Disk
empty_disk = record { node = λ p. none; unreadable = λ p. false; faults = [] }

safe_parent_directory-IsInside_example :
    IsInside downloads (downloads ++ (chars "x" ∷ chars "y" ∷ []))
unfolding safe_parent_directory walk_folder walk enter_directory enter join components split
    sanitize_path_component eq_path eq_bytes is_blank replace_char create_dir symlink_metadata
safe_parent_directory-IsInside_example =
    safe_parent_directory-IsInside downloads (some (chars "x/y"))
      (downloads ++ (chars "x" ∷ chars "y" ∷ [])) empty_disk
      (safe_parent_directory downloads (some (chars "x/y")) empty_disk).1 refl
