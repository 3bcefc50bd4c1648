-- ===== src/Storage/Destination.antt =====
-- `unique_destination` of src/quick_share_receiver.rs, and the stem and extension of std's `Path` for a
-- name of one component. The random number of the last resort is an argument.
pub mod Free
pub mod Inside
use hi_rodrop.Prelude.{
  ℕ, zero, suc, ◌+◌, ◌-◌, ◌^◌, Bool, true, false, Option, none, some, List, [], ◌∷◌, ◌++◌, ◌==◌,
  if◌then◌else◌, unwrap_or,
}
use hi_rodrop.Prelude.Bytes.{eq_bytes}
use hi_rodrop.Prelude.Utf8.{Text, chars}
use hi_rodrop.Prelude.Decimal.{decimal}
use hi_rodrop.Storage.Names.{is_dots}
use hi_rodrop.Storage.FilePath.{FilePath, join}
use hi_rodrop.Storage.Disk.{Disk, exists}

abbrev pub put_before : ℕ → Text → Option (Text × Text) → Option (Text × Text)
put_before c cs none = if c == 46 then some ([], cs) else none
put_before c cs (some (before, after)) = some (c ∷ before, after)

-- What stands before and behind the last dot.
unfoldable pub split_last_dot : Text → Option (Text × Text)
split_last_dot [] = none
split_last_dot (c ∷ cs) = put_before c cs (split_last_dot cs)

abbrev pub stem_of_parts : Text → Option (Text × Text) → Text × Option Text
stem_of_parts name none = (name, none)
stem_of_parts name (some (before, after)) =
    if eq_bytes before [] then (name, none) else (before, some after)

-- `file_stem` and `extension`: a name that begins with its only dot is all stem. `file` stands for the
-- stem of a name that is no file name.
unfoldable pub stem_and_extension : Text → Text × Option Text
stem_and_extension name =
    if is_dots name then (chars "file", none) else stem_of_parts name (split_last_dot name)

unfoldable pub candidate_name : Text → Option Text → ℕ → Text
candidate_name stem none index = stem ++ (chars " (" ++ (decimal index ++ chars ")"))
candidate_name stem (some extension) index =
    stem ++ (chars " (" ++ (decimal index ++ (chars ")." ++ extension)))

-- The numbers from `index` on, as many as `count`.
unfoldable pub find_free : Disk → FilePath → Text → Option Text → ℕ → ℕ → Option FilePath
find_free disk directory stem extension zero index = none
find_free disk directory stem extension (suc count) index =
    let candidate = join directory (candidate_name stem extension index) in
    let later = find_free disk directory stem extension count (index + 1) in
    if exists disk candidate then later else some candidate

abbrev pub last_resort : ℕ → Text
last_resort random = chars "hirodrop-" ++ decimal random

unfoldable pub unique_destination : Disk → FilePath → Text → ℕ → FilePath
unique_destination disk directory name random =
    let numbered =
      find_free disk directory (stem_and_extension name).0 (stem_and_extension name).1 (2 ^ 32 - 2)
        1 in
    if exists disk (join directory name)
    then unwrap_or numbered (join directory (last_resort random))
    else join directory name
