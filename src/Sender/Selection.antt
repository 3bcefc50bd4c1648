-- ===== src/Sender/Selection.antt =====
-- `collect_selected_path` of src/quick_share_sender.rs. What `symlink_metadata` and `read_dir` answer is given as a
-- tree, whose failing calls carry the text of their error; names are valid UTF-8.
pub mod Collected
use hi_rodrop.Prelude.{
  ℕ, ◌+◌, Bool, true, false, Option, none, some, List, [], ◌∷◌, ◌++◌, length, ltb, leb, ◌==◌,
  if◌then◌else◌, ◌||◌, ◌&&◌,
}
use hi_rodrop.Prelude.Bytes.{eq_bytes}
use hi_rodrop.Prelude.Utf8.{Text, chars}
use hi_rodrop.Prelude.Exec.{Exec, pure, raise, gets, modify, ◌>>=◌, ◌>>◌}
use hi_rodrop.Storage.FilePath.{FilePath}
use hi_rodrop.Receiver.Pending.{last_component}
use hi_rodrop.Sender.Errors.{SendError}

mutual
  pub data Entry : Type 0 where
    file symlink special : Entry
    unreadable : Text → Entry
    folder : Listing → Entry

  pub data Listing : Type 0 where
    unlistable : Text → Listing
    listed : Children → Listing

  pub data Children : Type 0 where
    nil : Children
    child : Text → Entry → Children → Children

abbrev pub Candidate : Type 0
Candidate = FilePath × Option Text

abbrev pub Collect : Type 0
Collect = Exec (List Candidate) SendError (Unit {0})

abbrev pub max_selected : ℕ
max_selected = 10000

-- `Path::display` of an absolute path on Unix
unfoldable pub display : FilePath → Text
display [] = []
display (c ∷ p) = chars "/" ++ (c ++ display p)

abbrev pub with_error : FilePath → Text → SendError
with_error path error = SendError.invalid_file (display path ++ (chars ": " ++ error))

-- `Path::file_name`, which has to be there and not empty
unfoldable pub own_name : FilePath → Option Text
own_name path = elim (last_component path) [
  | none ↦ none
  | some c ↦ if eq_bytes c (chars "..") || eq_bytes c [] then none else some c
]

abbrev pub folder_name : Option Text → Text → Text
folder_name none name = name
folder_name (some parent) name = parent ++ (chars "/" ++ name)

-- The order of the bytes of two names, which is that of their scalar values.
unfoldable pub before : Text → Text → Bool
before [] t = true
before (a ∷ s) [] = false
before (a ∷ s) (b ∷ t) = ltb a b || ((a == b) && before s t)

module _ {ℓ} {A : Type ℓ} where
  unfoldable pub insert_sorted : Text → A → List (Text × A) → List (Text × A)
  unfolding before
  insert_sorted name a [] = (name, a) ∷ []
  insert_sorted name a ((other, b) ∷ rest) =
      let on = insert_sorted name a rest in
      if before name other then (name, a) ∷ (other, b) ∷ rest else (other, b) ∷ on

  -- `sort_by_key`, which is stable
  unfoldable pub sort_by_name : List (Text × A) → List (Text × A)
  unfolding insert_sorted
  sort_by_name [] = []
  sort_by_name ((name, a) ∷ rest) = insert_sorted name a (sort_by_name rest)

unfoldable pub run_all : List (Text × Collect) → Collect
run_all [] = pure tt
run_all ((name, action) ∷ rest) = action >> run_all rest

abbrev pub check_count : Collect
check_count s =
    if leb max_selected (length s)
    then raise (SendError.invalid_file (chars "more than 10,000 files were selected")) s
    else pure tt s

abbrev pub add_file : FilePath → Option Text → Collect
add_file path parent_folder = modify (λ files. files ++ (path, parent_folder) ∷ [])

abbrev pub enter_folder : (Text → Collect) → FilePath → Option Text → Option Text → Collect
enter_folder inside path parent_folder none = raise (SendError.invalid_file (display path))
enter_folder inside path parent_folder (some name) = inside (folder_name parent_folder name)

unfoldable mutual
  unfolding sort_by_name run_all

  pub visit : Entry → FilePath → Option Text → Collect
  visit (unreadable error) path parent_folder = raise (with_error path error)
  visit symlink path parent_folder =
      raise (SendError.invalid_file (display path ++ chars " is a symbolic link"))
  visit file path parent_folder = add_file path parent_folder
  visit special path parent_folder =
      raise (SendError.invalid_file (display path ++ chars " is not a regular file or folder"))
  visit (folder listing) path parent_folder =
      enter_folder (λ name. visit_listing listing path name) path parent_folder (own_name path)

  pub visit_listing : Listing → FilePath → Text → Collect
  visit_listing (unlistable error) path name = raise (with_error path error)
  visit_listing (listed children) path name = run_all (sort_by_name (visits children path name))

  pub visits : Children → FilePath → Text → List (Text × Collect)
  visits nil path name = []
  visits (child entry_name entry rest) path name =
      (entry_name, check_count >> visit entry (path ++ entry_name ∷ []) (some name))
      ∷ visits rest path name

unfoldable pub collect_selected_path : Entry → FilePath → Option Text → Collect
unfolding visit
collect_selected_path entry path parent_folder = check_count >> visit entry path parent_folder

-- The selected paths, one after the other (the first loop of `prepare_files`).
unfoldable pub collect_all : List (FilePath × Entry) → Collect
collect_all [] = pure tt
collect_all ((path, entry) ∷ rest) = collect_selected_path entry path none >> collect_all rest
