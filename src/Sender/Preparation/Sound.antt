-- ===== src/Sender/Preparation/Sound.antt =====
-- What `prepare_files` of src/quick_share_sender.rs promises of the files that it hands on.
use hi_rodrop.Prelude.{
  ℕ, ◌+◌, ◌^◌, ◌≤◌, ◌≡◌, ◌≢◌, refl, sym, ap, ◌∙◌, true, false, Option, none, some, List, [], ◌∷◌,
  ◌++◌, All, map, ok, Result, arith, leb, ltb, ok_or, map_err, >>=-eq-ok, guard, guard-eq-ok,
  ok_or-eq-ok, map_err-eq-ok,
}
use mathlib.Core.Path.{subst}
use mathlib.Core.List.{Perm, append-nil, append_assoc}
use mathlib.Core.List.Perm
use hi_rodrop.Prelude.Int.{pos}
use hi_rodrop.Prelude.Utf8.{Text}
use hi_rodrop.Prelude.Exec.{bind_inverse}
use hi_rodrop.Storage.FilePath.{FilePath}
use hi_rodrop.Sender.Errors.{SendError}
use hi_rodrop.Sender.Files.{OutgoingFile}
use hi_rodrop.Sender.Selection.{
  Entry, Candidate, collect_selected_path, collect_all, own_name, display,
}
use hi_rodrop.Sender.Selection.Collected.{regular_files, collect_selected_path-perm}
use hi_rodrop.Sender.Preparation.{
  Metadata, failed, out_of_draws, max_total_transfer_bytes, is_used, pick_id, outgoing_file,
  unreadable_file, not_regular, check_candidate, prepare_each, prepare_candidates, prepare_files,
}
use hi_rodrop.Sender.Preparation.Ids.{IsFresh, pick_id-IsFresh}

abbrev pub sum_sizes : List OutgoingFile → ℕ
sum_sizes [] = 0
sum_sizes (f ∷ fs) = f.size + sum_sizes fs

abbrev pub selected_files : List (FilePath × Entry) → List Candidate
selected_files [] = []
selected_files ((path, entry) ∷ rest) = regular_files entry path none ++ selected_files rest

abbrev pub AreDistinct : List OutgoingFile → Type 0
AreDistinct [] = Unit {0}
AreDistinct (f ∷ fs) = All (λ (g : OutgoingFile). g.payload_id ≢ f.payload_id) fs × AreDistinct fs

abbrev pub HasName : OutgoingFile → Type 0
HasName f = own_name f.path ≡ some f.name

abbrev pub candidate_of : OutgoingFile → Candidate
candidate_of f = (f.path, f.parent_folder)

-- A file as it was found: a regular one, with the size that was read.
abbrev pub IsRegular : (FilePath → Result Text Metadata) → OutgoingFile → Type 0
IsRegular stat f = (m : Metadata) × (stat f.path ≡ ok m) × (m.is_file ≡ true) × (f.size ≡ m.len)

pub record AreSound (stat : FilePath → Result Text Metadata) (ids : List ℕ) (total : ℕ)
    (candidates : List Candidate) (files : List OutgoingFile) : Type 0 where
  pub fresh : All (λ (f : OutgoingFile). IsFresh ids f.payload_id) files
  pub distinct : AreDistinct files
  pub small : total + sum_sizes files ≤ max_total_transfer_bytes
  pub named : All HasName files
  pub regular : All (IsRegular stat) files
  pub same : map candidate_of files ≡ candidates

not_used :
    (id n : ℕ) (ids : List ℕ) → is_used n (id ∷ ids) ≡ false → (n ≢ id) × (is_used n ids ≡ false)
unfolding is_used
not_used id n ids h = (ground arith, ground arith)

still-IsFresh :
    (id : ℕ) (ids : List ℕ) (files : List OutgoingFile)
    → All (λ (f : OutgoingFile). IsFresh (id ∷ ids) f.payload_id) files
    → All (λ (f : OutgoingFile). IsFresh ids f.payload_id) files
      × All (λ (f : OutgoingFile). f.payload_id ≢ pos id) files
still-IsFresh id ids [] h = (tt, tt)
still-IsFresh id ids (f ∷ fs) ((n, e, p, s, u), hs) =
    let (differs, unused) = not_used id n ids u in
    let (rest, apart) = still-IsFresh id ids fs hs in
    (((n, e, p, s, unused), rest), ((λ q. differs (cc (sym e ∙ q))), apart))

module _ (stat : FilePath → Result Text Metadata) (draw : ℕ → ℕ) (patience : ℕ) where
  check_candidate_sound :
      (path : FilePath) (parent_folder : Option Text) (total : ℕ) (m : Metadata) (sum : ℕ)
      (name : Text)
      → check_candidate stat draw patience (path, parent_folder) total ≡ ok (m, sum, name)
      → (stat path ≡ ok m)
        × (m.is_file ≡ true)
        × (sum ≡ total + m.len)
        × (sum ≤ max_total_transfer_bytes)
        × (own_name path ≡ some name)
  unfolding check_candidate
  check_candidate_sound path parent_folder total m sum name e =
      let (found, e1, r1) =
        >>=-eq-ok (map_err (λ x. failed (unreadable_file path x)) (stat path)) _ e in
      let (_, e2, r2) = >>=-eq-ok (guard found.is_file (failed (not_regular path))) _ r1 in
      let (_, e3, r3) =
        >>=-eq-ok (guard (ltb (total + found.len) (2 ^ 64)) (failed SendError.transfer_too_large)) _
          r2 in
      let (_, e4, r4) =
        >>=-eq-ok
          (guard (leb (total + found.len) max_total_transfer_bytes)
            (failed SendError.transfer_too_large))
          _ r3 in
      let (called, e5, r5) =
        >>=-eq-ok (ok_or (own_name path) (failed (SendError.invalid_file (display path)))) _ r4 in
      let same : found ≡ m = cc r5 in
      let added : total + found.len ≡ sum = cc r5 in
      let named : called ≡ name = cc r5 in
      (
        map_err-eq-ok (λ x. failed (unreadable_file path x)) (stat path) e1 ∙ ap ok same,
        ap (λ (x : Metadata). x.is_file) (sym same) ∙ guard-eq-ok found.is_file _ e2,
        sym added ∙ ap (λ (x : Metadata). total + x.len) same,
        rw (← added) (ground (arith, guard-eq-ok _ (failed SendError.transfer_too_large) e4)),
        ok_or-eq-ok (own_name path) _ e5 ∙ ap some named,
      )

  prepare_each-AreSound :
      (candidates : List Candidate) (total n : ℕ) (ids : List ℕ) (files : List OutgoingFile)
      → total ≤ max_total_transfer_bytes
      → prepare_each stat draw patience candidates total n ids ≡ ok files
      → AreSound stat ids total candidates files
  unfolding prepare_each
  prepare_each-AreSound [] total n ids files h e =
      let same : [] ≡ files = cc e in
      rw (← same) (record {
        fresh = tt;
        distinct = tt;
        small = omega arith;
        named = tt;
        regular = tt;
        same = refl;
      })
  prepare_each-AreSound ((path, parent_folder) ∷ rest) total n ids files h e =
      let ((m, sum, name), e1, r1) =
        >>=-eq-ok (check_candidate stat draw patience (path, parent_folder) total) _ e in
      let ((id, next), e2, r2) =
        >>=-eq-ok (ok_or (pick_id draw patience n ids) out_of_draws) _ r1 in
      let (later, e3, r3) =
        >>=-eq-ok (prepare_each stat draw patience rest sum next (id ∷ ids)) _ r2 in
      let (found, regular, added, small, named) =
        check_candidate_sound path parent_folder total m sum name e1 in
      let more : AreSound stat (id ∷ ids) sum rest later =
        prepare_each-AreSound rest sum next (id ∷ ids) later small e3 in
      let fresh =
        pick_id-IsFresh draw patience n ids id next
          (ok_or-eq-ok (pick_id draw patience n ids) out_of_draws e2) in
      let (still, apart) = still-IsFresh id ids later more.fresh in
      let same : outgoing_file (path, parent_folder) m name id ∷ later ≡ files = cc r3 in
      rw (← same) (record {
        fresh = (fresh, still);
        distinct = (apart, more.distinct);
        small = omega (arith, more.small, added);
        named = (named, more.named);
        regular = ((m, found, regular, refl), more.regular);
        same = ap (λ cs. (path, parent_folder) ∷ cs) more.same;
      })

collect_all-perm :
    (selection : List (FilePath × Entry)) (files files' : List Candidate)
    → collect_all selection files ≡ (ok tt, files')
    → Perm files' (files ++ selected_files selection)
unfolding collect_all
collect_all-perm [] files files' e =
    let same : files ≡ files' = cc e in rw (← same, append-nil files) (Perm.refl files)
collect_all-perm ((path, entry) ∷ rest) files files' e =
    let (_, middle, e1, e2) =
      bind_inverse (collect_selected_path entry path none) (λ _. collect_all rest) files files' tt
        e in
    subst (Perm files') (append_assoc files (regular_files entry path none) (selected_files rest)) (
      Perm.trans (collect_all-perm rest middle files' e2) (
        Perm.append_right (selected_files rest)
          (collect_selected_path-perm entry path none files middle e1)))

module _ (stat : FilePath → Result Text Metadata) (draw : ℕ → ℕ) (patience : ℕ) where
  prepare_candidates-AreSound :
      (candidates : List Candidate) (files : List OutgoingFile)
      → prepare_candidates stat draw patience candidates ≡ ok files
      → (candidates ≢ []) × AreSound stat [] 0 candidates files
  prepare_candidates-AreSound [] files e = absurd (cc e)
  prepare_candidates-AreSound (c ∷ rest) files e =
      (λ h. cc h, prepare_each-AreSound stat draw patience (c ∷ rest) 0 0 [] files (omega arith) e)

  -- A selection that is prepared gives at least one file to send. The files are exactly the regular
  -- files of the selected trees, each once and with its folder, in some order; each was found to be
  -- a regular file of the size that is announced, and has its own name; their payload ids are
  -- positive `i64` values and differ from one another; and their sizes add up to at most 100 GiB.
  pub prepare_files-AreSound :
      (selection : List (FilePath × Entry)) (files : List OutgoingFile)
      → prepare_files stat draw patience selection ≡ ok files
      → (files ≢ [])
        × Perm (map candidate_of files) (selected_files selection)
        × All (IsRegular stat) files
        × All HasName files
        × All (λ (f : OutgoingFile). IsFresh [] f.payload_id) files
        × AreDistinct files
        × (sum_sizes files ≤ max_total_transfer_bytes)
  unfolding prepare_files
  prepare_files-AreSound [] files e = absurd (cc e)
  prepare_files-AreSound (selected ∷ more) files e =
      let collected = collect_all (selected ∷ more) [] in
      let (_, e1, r) = >>=-eq-ok (map_err failed collected.0) _ e in
      let ok_collected : collected ≡ (ok tt, collected.1) =
        λ i. (map_err-eq-ok failed collected.0 e1 i, collected.1) in
      let (some_file, h) = prepare_candidates-AreSound collected.1 files r in
      (
        λ none_left. some_file (sym h.same ∙ ap (map candidate_of) none_left),
        subst (λ cs. Perm cs (selected_files (selected ∷ more))) (sym h.same)
            (collect_all-perm (selected ∷ more) [] collected.1 ok_collected),
        h.regular,
        h.named,
        h.fresh,
        h.distinct,
        omega (arith, h.small),
      )
