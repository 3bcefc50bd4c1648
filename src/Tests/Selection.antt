-- ===== src/Tests/Selection.antt =====
-- The properties of the selection of files at a concrete tree.
use hi_rodrop.Prelude.{
  zero, suc, ℕ, ◌≡◌, ◌≢◌, ◌≤◌, refl, true, some, none, map, List, [], ◌∷◌, ◌++◌, ok, err, arith,
  All, Result,
}
use hi_rodrop.Prelude.Utf8.{Text, chars}
use hi_rodrop.Prelude.Bytes.{eq_bytes}
use mathlib.Core.List.{Perm}
use hi_rodrop.Storage.FilePath.{FilePath}
use hi_rodrop.Sender.Files.{OutgoingFile}
use hi_rodrop.Sender.Selection.{
  Entry, Listing, Children, Candidate, own_name, collect_all, collect_selected_path,
}
use hi_rodrop.Sender.Selection.Collected.{regular_files, collect_selected_path-perm}
use hi_rodrop.Sender.Preparation.{
  Metadata, prepare_each, check_candidate, pick_id, prepare_files, max_total_transfer_bytes, is_new,
  id_of, is_used,
}
use hi_rodrop.Sender.Preparation.Ids.{IsFresh, pick_id_ends}
use hi_rodrop.Sender.Preparation.Sound.{
  selected_files, candidate_of, IsRegular, HasName, AreDistinct, sum_sizes, prepare_files-AreSound,
}

-- A folder with a file and a folder in which a link and a file stand; the names are not in order.
abbrev inner : Entry
inner = Entry.folder (Listing.listed (Children.child (chars "d") Entry.file Children.nil))

abbrev tree : Entry
tree = Entry.folder (
    Listing.listed
      (Children.child (chars "c") inner (Children.child (chars "b.txt") Entry.file Children.nil)))

abbrev root : FilePath
root = chars "a" ∷ []

abbrev collected : List Candidate
collected =
    (root ++ chars "b.txt" ∷ [], some (chars "a"))
    ∷ (root ++ (chars "c" ∷ (chars "d" ∷ [])), some (chars "a/c"))
    ∷ []

tree_found : collect_selected_path tree root none [] ≡ (ok tt, collected)
unfolding collect_selected_path own_name eq_bytes
tree_found = refl

collect_selected_path-perm_example : Perm collected ([] ++ regular_files tree root none)
collect_selected_path-perm_example =
    collect_selected_path-perm tree root none [] collected tree_found

abbrev stat : FilePath → Result Text Metadata
stat path = ok (record { is_file = true; len = 5; modified = some 9 })

-- The second draw repeats the first, and the third is 0.
abbrev draw : ℕ → ℕ
draw n = elim n [ zero ↦ 7 | suc m ↦ elim m [ zero ↦ 7 | suc k ↦ k ] ]

abbrev selection : List (FilePath × Entry)
selection = (root, tree) ∷ []

abbrev files : List OutgoingFile
files = elim (prepare_files stat draw 5 selection) [ ok fs ↦ fs | err e ↦ [] ]

files_prepared : prepare_files stat draw 5 selection ≡ ok files
unfolding prepare_files collect_selected_path own_name eq_bytes collect_all prepare_each
    check_candidate pick_id is_used
files_prepared = refl

prepare_files-AreSound_example :
    (files ≢ [])
    × Perm (map candidate_of files) (selected_files selection)
    × All (IsRegular stat) files
    × All HasName files
    × All (λ (f : OutgoingFile). IsFresh [] f.payload_id) files
    × AreDistinct files
    × (sum_sizes files ≤ max_total_transfer_bytes)
prepare_files-AreSound_example = prepare_files-AreSound stat draw 5 selection files files_prepared

draw_3_is_new : is_new (id_of (draw 3)) (7 ∷ []) ≡ true
unfolding is_used
draw_3_is_new = refl

pick_id_ends_example : (r : ℕ × ℕ) × (pick_id draw 5 1 (7 ∷ []) ≡ some r)
pick_id_ends_example = pick_id_ends draw 2 5 1 (7 ∷ []) (omega arith) draw_3_is_new
