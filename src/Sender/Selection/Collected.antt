-- ===== src/Sender/Selection/Collected.antt =====
-- What `collect_selected_path` of src/quick_share_sender.rs collects of a tree, and how much.
use hi_rodrop.Prelude.{
  ◌≡◌, refl, inl, inr, Bool-cases, Option, none, some, List, [], ◌∷◌, ◌++◌, length, ok, leb,
}
use mathlib.Core.Path.{subst}
use mathlib.Core.List.{Perm, append_assoc, append-nil, perm_append_comm}
use mathlib.Core.List.Perm
use hi_rodrop.Prelude.Utf8.{Text}
use hi_rodrop.Prelude.Exec.{bind_inverse, ◌>>◌}
use hi_rodrop.Storage.FilePath.{FilePath}
use hi_rodrop.Sender.Selection.{
  Entry, Listing, Children, file, symlink, special, unreadable, folder, unlistable, listed, nil,
  child, Candidate, Collect, max_selected, own_name, folder_name, before, insert_sorted,
  sort_by_name, run_all, check_count, enter_folder, visit, visit_listing, visits,
  collect_selected_path,
}

-- The regular files of a tree, each with the folder that it is sent in: independent of errors, of the
-- order and of the limit.
mutual
  pub regular_files : Entry → FilePath → Option Text → List Candidate
  regular_files file path parent_folder = (path, parent_folder) ∷ []
  regular_files symlink path parent_folder = []
  regular_files special path parent_folder = []
  regular_files (unreadable error) path parent_folder = []
  regular_files (folder listing) path parent_folder = elim (own_name path) [
    | none ↦ []
    | some name ↦ listing_files listing path (folder_name parent_folder name)
  ]

  pub listing_files : Listing → FilePath → Text → List Candidate
  listing_files (unlistable error) path name = []
  listing_files (listed children) path name = children_files children path name

  pub children_files : Children → FilePath → Text → List Candidate
  children_files nil path name = []
  children_files (child entry_name entry rest) path name =
      regular_files entry (path ++ entry_name ∷ []) (some name) ++ children_files rest path name

-- An action that, if it succeeds, adds these candidates.
abbrev Adds : Collect → List Candidate → Type 0
Adds action added =
    (files files' : List Candidate) → action files ≡ (ok tt, files') → Perm files' (files ++ added)

abbrev AddsAll : List (Text × Collect) → List Candidate → Type 0
AddsAll [] added = added ≡ []
AddsAll ((name, action) ∷ rest) added =
    (here later : List Candidate) × Adds action here × AddsAll rest later × (added ≡ here ++ later)

Adds-perm : (action : Collect) (l k : List Candidate) → Perm l k → Adds action l → Adds action k
Adds-perm action l k p h files files' e = Perm.trans (h files files' e) (Perm.append_left files p)

Adds-then : (a b : Collect) (l k : List Candidate) → Adds a l → Adds b k → Adds (a >> b) (l ++ k)
Adds-then a b l k h j files files' e =
    let (_, middle, e1, e2) = bind_inverse a (λ _. b) files files' tt e in
    subst (Perm files') (append_assoc files l k)
      (Perm.trans (j middle files' e2) (Perm.append_right k (h files middle e1)))

run_all-Adds :
    (xs : List (Text × Collect)) (added : List Candidate)
    → AddsAll xs added
    → Adds (run_all xs) added
unfolding run_all
run_all-Adds [] added h files files' e =
    let same : files ≡ files' = cc e in rw (h, ← same, append-nil files) (Perm.refl files)
run_all-Adds ((name, a) ∷ rest) added (here, later, h, hs, e) files files' r =
    rw e (Adds-then a (run_all rest) here later h (run_all-Adds rest later hs) files files' r)

perm_swap : (l k m : List Candidate) → Perm (l ++ (k ++ m)) (k ++ (l ++ m))
perm_swap l k m = subst (Perm (l ++ (k ++ m))) (append_assoc k l m) (
    subst (λ x. Perm x ((k ++ l) ++ m)) (append_assoc l k m)
      (Perm.append_right m (perm_append_comm l k)))

insert_sorted-AddsAll :
    (name : Text) (a : Collect) (xs : List (Text × Collect)) (here later : List Candidate)
    → Adds a here
    → AddsAll xs later
    → (added : List Candidate) × AddsAll (insert_sorted name a xs) added
      × Perm added (here ++ later)
unfolding insert_sorted
insert_sorted-AddsAll name a [] here later h hs =
    (here ++ later, (here, later, h, hs, refl), Perm.refl (here ++ later))
insert_sorted-AddsAll name a ((other, b) ∷ rest) here later h (l, k, hl, hk, e) =
    elim (Bool-cases (before name other)) [
      | inl x ↦
          rw x (here ++ later, (here, later, h, (l, k, hl, hk, e), refl), Perm.refl (here ++ later))
      | inr x ↦
          let (m, hm, p) = insert_sorted-AddsAll name a rest here k h hk in
          rw x (
            l ++ m,
            (l, m, hl, hm, refl),
            rw e (Perm.trans (Perm.append_left l p) (perm_swap l here k)),
          )
    ]

sort_by_name-AddsAll :
    (xs : List (Text × Collect)) (later : List Candidate)
    → AddsAll xs later
    → (added : List Candidate) × AddsAll (sort_by_name xs) added × Perm added later
unfolding sort_by_name
sort_by_name-AddsAll [] later h = (later, h, Perm.refl later)
sort_by_name-AddsAll ((name, a) ∷ rest) later (l, k, hl, hk, e) =
    let (m, hm, p) = sort_by_name-AddsAll rest k hk in
    let (added, hs, q) = insert_sorted-AddsAll name a (sort_by_name rest) l m hl hm in
    (added, hs, rw e (Perm.trans q (Perm.append_left l p)))

check_count-Adds : Adds check_count []
check_count-Adds files files' e = elim (Bool-cases (leb max_selected (length files))) [
  | inl x ↦ absurd (cc (rw x at e))
  | inr x ↦
      let same : files ≡ files' = cc (rw x at e) in rw (← same, append-nil files) (Perm.refl files)
]

enter_folder-Adds :
    (inside : Text → Collect) (added : Text → List Candidate)
    → ((name : Text) → Adds (inside name) (added name))
    → (path : FilePath) (parent_folder name : Option Text)
    → Adds
        (enter_folder inside path parent_folder name)
        (elim name [ none ↦ [] | some n ↦ added (folder_name parent_folder n) ])
enter_folder-Adds inside added h path parent_folder none = λ files files' e. absurd (cc e)
enter_folder-Adds inside added h path parent_folder (some name) = h (folder_name parent_folder name)

mutual
  unfolding visit regular_files

  visit-Adds :
      (entry : Entry) (path : FilePath) (parent_folder : Option Text)
      → Adds (visit entry path parent_folder) (regular_files entry path parent_folder)
  visit-Adds file path parent_folder files files' e =
      let same : files ++ ((path, parent_folder) ∷ []) ≡ files' = cc e in
      rw (← same) (Perm.refl (files ++ ((path, parent_folder) ∷ [])))
  visit-Adds symlink path parent_folder files files' e = absurd (cc e)
  visit-Adds special path parent_folder files files' e = absurd (cc e)
  visit-Adds (unreadable error) path parent_folder files files' e = absurd (cc e)
  visit-Adds (folder listing) path parent_folder files files' e =
      enter_folder-Adds (λ name. visit_listing listing path name)
        (λ name. listing_files listing path name) (λ name. visit_listing-Adds listing path name)
        path parent_folder (own_name path) files files' e

  visit_listing-Adds :
      (listing : Listing) (path : FilePath) (name : Text)
      → Adds (visit_listing listing path name) (listing_files listing path name)
  visit_listing-Adds (unlistable error) path name files files' e = absurd (cc e)
  visit_listing-Adds (listed children) path name files files' e =
      let xs = visits children path name in
      let (added, h, p) =
        sort_by_name-AddsAll xs (children_files children path name)
          (visits-AddsAll children path name) in
      Adds-perm (run_all (sort_by_name xs)) added (children_files children path name) p
        (run_all-Adds (sort_by_name xs) added h) files files' e

  visits-AddsAll :
      (children : Children) (path : FilePath) (name : Text)
      → AddsAll (visits children path name) (children_files children path name)
  visits-AddsAll nil path name = refl
  visits-AddsAll (child entry_name entry rest) path name = (
    regular_files entry (path ++ entry_name ∷ []) (some name),
    children_files rest path name,
    Adds-then check_count (visit entry (path ++ entry_name ∷ []) (some name)) []
        (regular_files entry (path ++ entry_name ∷ []) (some name)) check_count-Adds
        (visit-Adds entry (path ++ entry_name ∷ []) (some name)),
    visits-AddsAll rest path name,
    refl,
  )

-- A path that is selected with success adds exactly the regular files below it, each once and with the
-- folder that it is sent in, in some order, to the files that were collected before.
pub collect_selected_path-perm :
    (entry : Entry) (path : FilePath) (parent_folder : Option Text) (files files' : List Candidate)
    → collect_selected_path entry path parent_folder files ≡ (ok tt, files')
    → Perm files' (files ++ regular_files entry path parent_folder)
unfolding collect_selected_path
collect_selected_path-perm entry path parent_folder files files' e =
    Adds-then check_count (visit entry path parent_folder) []
      (regular_files entry path parent_folder) check_count-Adds
      (visit-Adds entry path parent_folder) files files' e
