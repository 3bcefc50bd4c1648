-- ===== src/Sender/Preparation.antt =====
-- `prepare_files` and `classify_file` of src/quick_share_sender.rs. What `symlink_metadata` answers for a candidate, and
-- the random numbers, are arguments. The source draws ids until one is new; here it draws at most
-- `patience` times for a file, and `out_of_draws` says that it would still be drawing.
pub mod Ids
pub mod Sound
use hi_rodrop.Prelude.{
  ℕ, zero, suc, ◌+◌, ◌-◌, ◌*◌, ◌^◌, ◌%◌, Bool, true, false, ◌||◌, ◌&&◌, Option, none, some, List,
  [], ◌∷◌, ◌++◌, ltb, leb, ◌==◌, min, map, if◌then◌else◌, Result, ok, err, ok_or, map_err, guard,
  and_then, unwrap_or, not, ◌>>=◌, ◌>>◌,
}
use hi_rodrop.Prelude.Int.{pos}
use hi_rodrop.Prelude.Bytes.{eq_bytes}
use hi_rodrop.Prelude.Utf8.{Text, chars}
use hi_rodrop.Wire.{FileType}
use hi_rodrop.Storage.FilePath.{FilePath}
use hi_rodrop.Storage.Destination.{stem_and_extension}
use hi_rodrop.Sender.Errors.{SendError}
use hi_rodrop.Sender.Files.{OutgoingFile}
use hi_rodrop.Sender.Selection.{Entry, Candidate, collect_all, own_name, display}

abbrev pub max_total_transfer_bytes : ℕ
max_total_transfer_bytes = 100 * 1024 * 1024 * 1024

-- `fs::Metadata`; `modified` is in milliseconds since 1970, where there is such a time.
pub record Metadata : Type 0 where
  pub is_file : Bool
  pub len : ℕ
  pub modified : Option ℕ

-- `to_ascii_lowercase`
abbrev pub lower : ℕ → ℕ
lower c = if leb 65 c && leb c 90 then c + 32 else c

unfoldable pub extension : FilePath → Text
extension path =
    map lower (unwrap_or (and_then (own_name path) (λ name. (stem_and_extension name).1)) [])

-- The arms of the `match`, in order.
abbrev pub known_types : List (Text × FileType × Text)
known_types =
    (chars "jpg", FileType.image, chars "image/jpeg")
    ∷ (chars "jpeg", FileType.image, chars "image/jpeg")
    ∷ (chars "png", FileType.image, chars "image/png")
    ∷ (chars "gif", FileType.image, chars "image/gif")
    ∷ (chars "webp", FileType.image, chars "image/webp")
    ∷ (chars "mp4", FileType.video, chars "video/mp4")
    ∷ (chars "mov", FileType.video, chars "video/quicktime")
    ∷ (chars "mp3", FileType.audio, chars "audio/mpeg")
    ∷ (chars "m4a", FileType.audio, chars "audio/mp4")
    ∷ (chars "pdf", FileType.document, chars "application/pdf")
    ∷ (chars "txt", FileType.document, chars "text/plain")
    ∷ (chars "apk", FileType.android_app, chars "application/vnd.android.package-archive")
    ∷ []

unfoldable pub find_type : Text → List (Text × FileType × Text) → FileType × Text
find_type ext [] = (FileType.unknown, chars "application/octet-stream")
find_type ext ((known, kind, mime) ∷ rest) =
    if eq_bytes ext known then (kind, mime) else find_type ext rest

unfoldable pub classify_file : FilePath → FileType × Text
classify_file path = find_type (extension path) known_types

pub data Stop : Type 0 where
  failed : SendError → Stop
  out_of_draws : Stop

abbrev pub fail : {A : Type 0} → SendError → Result Stop A
fail e = err (failed e)

unfoldable pub is_used : ℕ → List ℕ → Bool
is_used id [] = false
is_used id (x ∷ xs) = (x == id) || is_used id xs

-- `next_u64() & i64::MAX`
abbrev pub id_of : ℕ → ℕ
id_of draw = draw % 2 ^ 63

abbrev pub is_new : ℕ → List ℕ → Bool
is_new id ids = not (id == 0) && not (is_used id ids)

abbrev pub millis : Option ℕ → ℕ
millis none = 0
millis (some t) = min t (2 ^ 63 - 1)

abbrev pub outgoing_file : Candidate → Metadata → Text → ℕ → OutgoingFile
outgoing_file (path, parent_folder) metadata name id = record {
  path = path;
  name = name;
  parent_folder = parent_folder;
  size = metadata.len;
  payload_id = pos id;
  file_type = (classify_file path).0;
  mime_type = (classify_file path).1;
  last_modified_timestamp_millis = pos (millis metadata.modified);
}

abbrev pub unreadable_file : FilePath → Text → SendError
unreadable_file path e = SendError.invalid_file (display path ++ (chars ": " ++ e))

abbrev pub not_regular : FilePath → SendError
not_regular path = SendError.invalid_file (display path ++ chars " is not a regular file")

module _ (draw : ℕ → ℕ) where
  -- From draw `n` on, the first id that is not 0 and new, and the number of the next draw.
  unfoldable pub pick_id : ℕ → ℕ → List ℕ → Option (ℕ × ℕ)
  pick_id zero n ids = none
  pick_id (suc fuel) n ids =
      let later = pick_id fuel (suc n) ids in
      if is_new (id_of (draw n)) ids then some (id_of (draw n), suc n) else later

module _ (stat : FilePath → Result Text Metadata) (draw : ℕ → ℕ) (patience : ℕ) where
  -- The tests of a candidate, and what they find out: its metadata, the new total and its name.
  unfoldable pub check_candidate : Candidate → ℕ → Result Stop (Metadata × ℕ × Text)
  check_candidate (path, parent_folder) total = do
    metadata ← map_err (λ e. failed (unreadable_file path e)) (stat path)
    guard metadata.is_file (failed (not_regular path))
    guard (ltb (total + metadata.len) (2 ^ 64)) (failed SendError.transfer_too_large)
    guard (leb (total + metadata.len) max_total_transfer_bytes)
        (failed SendError.transfer_too_large)
    name ← ok_or (own_name path) (failed (SendError.invalid_file (display path)))
    ok (metadata, total + metadata.len, name)

  unfoldable pub prepare_each : List Candidate → ℕ → ℕ → List ℕ → Result Stop (List OutgoingFile)
  prepare_each [] total n ids = ok []
  prepare_each (c ∷ rest) total n ids = do
    (metadata, sum, name) ← check_candidate c total
    (id, next) ← ok_or (pick_id draw patience n ids) out_of_draws
    files ← prepare_each rest sum next (id ∷ ids)
    ok (outgoing_file c metadata name id ∷ files)

  abbrev pub prepare_candidates : List Candidate → Result Stop (List OutgoingFile)
  prepare_candidates [] =
      fail (SendError.invalid_file (chars "the selected folders contain no files"))
  prepare_candidates (c ∷ rest) = prepare_each (c ∷ rest) 0 0 []

  unfoldable pub prepare_files : List (FilePath × Entry) → Result Stop (List OutgoingFile)
  prepare_files [] = fail (SendError.invalid_file (chars "no files selected"))
  prepare_files (selected ∷ more) =
      map_err failed (collect_all (selected ∷ more) []).0
      >> prepare_candidates (collect_all (selected ∷ more) []).1
