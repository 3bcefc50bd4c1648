-- ===== src/Tests/Prepare.antt =====
-- The preparation of a transfer at a concrete introduction.
use hi_rodrop.Prelude.{
  ◌≡◌, ◌≤◌, ◌⊎◌, ◌+◌, refl, none, some, [], ◌∷◌, ok, ℕ, false, true, ◌^◌, ◌-◌, if◌then◌else◌,
}
use hi_rodrop.Prelude.Int.{pos}
use hi_rodrop.Prelude.Bytes.{eq_bytes}
use hi_rodrop.Prelude.Utf8.{chars}
use hi_rodrop.Prelude.Decimal.{decimal}
use hi_rodrop.Prelude.Map.{AllValues, insert, remove, lookup}
use hi_rodrop.Wire.{FileMetadata, IntroductionFrame, default_introduction}
use hi_rodrop.Storage.Names.{sanitize_path_component, sanitize_file_name, is_blank, replace_char}
use hi_rodrop.Storage.SafeNames.{sanitize_file_name-IsSafe}
use hi_rodrop.Storage.FilePath.{FilePath, join, components, eq_path}
use hi_rodrop.Storage.Disk.{Node, Disk, exists, create_new}
use hi_rodrop.Storage.Parents.{safe_parent_directory, walk_folder}
use hi_rodrop.Storage.Destination.{
  stem_and_extension, split_last_dot, candidate_name, unique_destination, last_resort,
}
use hi_rodrop.Storage.Destination.Free.{IsNotFound, AreTaken, unique_destination-free}
use hi_rodrop.Storage.Destination.Inside.{IsEntry, unique_destination-IsEntry}
use hi_rodrop.Receiver.Pending.{PendingTransfer}
use hi_rodrop.Receiver.Pending.Prepare.{
  declared_size, add_size, open_part, place_file, prepare_file, prepare_files, prepare_texts,
  check_total, prepare, max_total_transfer_bytes, prepared,
}
use hi_rodrop.Receiver.Pending.Prepare.Accounts.{IsPlaced, sum_files, sum_texts}
use hi_rodrop.Receiver.Pending.Prepare.Total.{FitsFrame, prepare-IsPrepared}

abbrev downloads : FilePath
downloads = chars "Downloads" ∷ []

abbrev empty_disk : Disk
empty_disk = record { node = λ p. none; unreadable = λ p. false; faults = [] }

-- A disk on which a file of the name stands.
abbrev taken_disk : Disk
taken_disk = record empty_disk {
  node = λ p. if eq_path p (join downloads (chars "a.txt")) then some (Node.file []) else none;
}

unique_destination-free_example :
    let chosen = unique_destination taken_disk downloads (chars "a.txt") 7 in
    (IsNotFound taken_disk chosen × (chosen ≡ join downloads (chars "a.txt")))
    ⊎ ((exists taken_disk (join downloads (chars "a.txt")) ≡ true)
        × ((IsNotFound taken_disk chosen
              × ((i : ℕ) × (1 ≤ i)
                  × (chosen ≡ join downloads (candidate_name (chars "a") (some (chars "txt")) i))
                  × AreTaken taken_disk downloads (chars "a") (some (chars "txt")) 1 i))
            ⊎ (AreTaken taken_disk downloads (chars "a") (some (chars "txt")) 1 (2 ^ 32 - 1)
                × (chosen ≡ join downloads (last_resort 7)))))
unfolding stem_and_extension split_last_dot eq_bytes
unique_destination-free_example = unique_destination-free taken_disk downloads (chars "a.txt") 7

unique_destination-IsEntry_example :
    IsEntry downloads (unique_destination empty_disk downloads (chars "a.txt") 7)
unfolding sanitize_file_name sanitize_path_component eq_bytes is_blank replace_char
unique_destination-IsEntry_example =
    unique_destination-IsEntry empty_disk downloads (chars "a.txt") 7
      (sanitize_file_name-IsSafe (chars "x/a.txt") (chars "a.txt") refl)

abbrev photo : FileMetadata
photo = record {
  name = some (chars "a.txt");
  file_type = none;
  payload_id = some (pos 4);
  size = some (pos 3);
  mime_type = none;
  id = none;
  parent_folder = none;
}

abbrev introduction : IntroductionFrame
introduction = record default_introduction { file_metadata = photo ∷ [] }

abbrev random : ℕ → ℕ
random i = i

abbrev ready : PendingTransfer
ready =
    prepared downloads 1 random []
      ((
        pos 4,
        record {
          expected_size = 3;
          received = 0;
          final_path = chars "Downloads" ∷ chars "a.txt" ∷ [];
          part_path = chars "Downloads" ∷ chars ".hirodrop-1-1.part" ∷ [];
        },
      )
        ∷ [])
      [] 3

introduction_prepared :
    prepare downloads 1 random introduction empty_disk
    ≡ (ok ready, (prepare downloads 1 random introduction empty_disk).1)
unfolding prepare prepare_files prepare_file prepare_texts check_total declared_size add_size
    place_file open_part safe_parent_directory walk_folder sanitize_file_name
    sanitize_path_component eq_bytes is_blank replace_char unique_destination join components
    create_new insert remove lookup eq_path decimal
introduction_prepared = refl

prepare-IsPrepared_example :
    AllValues (IsPlaced downloads) ready.files
    × AllValues FitsFrame ready.texts
    × (3 ≡ sum_files ready.files + sum_texts ready.texts)
    × (3 ≤ max_total_transfer_bytes)
    × (ready.received_bytes ≡ 0)
prepare-IsPrepared_example =
    prepare-IsPrepared downloads 1 random introduction ready empty_disk
      (prepare downloads 1 random introduction empty_disk).1 introduction_prepared
