-- ===== src/Receiver/Pending/Prepare/Accounts.antt =====
-- What `PendingTransfer::prepare` of src/quick_share_receiver.rs promises of a transfer that it lets through.
use hi_rodrop.Prelude.{
  ℕ, ◌+◌, ◌*◌, ◌≡◌, refl, sym, ◌∙◌, ap, false, Option, [], ◌∷◌, arith, ok, err, ok_or, Result,
}
use hi_rodrop.Prelude.Int.{ℤ}
use hi_rodrop.Prelude.Utf8.{Text}
use hi_rodrop.Prelude.Exec.{lift, Holds, Ensures, Ensures-bind}
use hi_rodrop.Prelude.Map.{Map, insert, remove-absent}
use hi_rodrop.Wire.{FileMetadata}
use hi_rodrop.Storage.Names.{sanitize_file_name}
use hi_rodrop.Storage.SafeNames.{IsSafe, sanitize_file_name-IsSafe}
use hi_rodrop.Storage.FilePath.{FilePath}
use hi_rodrop.Storage.Disk.{create_new}
use hi_rodrop.Storage.Parents.{on_disk, safe_parent_directory}
use hi_rodrop.Storage.Parents.Inside.{IsInside, IsBelow, safe_parent_directory-IsInside}
use hi_rodrop.Storage.Destination.{unique_destination}
use hi_rodrop.Storage.Destination.Inside.{unique_destination-IsEntry}
use hi_rodrop.Receiver.Errors.{ReceiveError}
use hi_rodrop.Receiver.Pending.{PendingFile, PendingText}
use hi_rodrop.Receiver.Pending.Prepare.{
  declared_size, add_size, contains_key, open_part, place_file, prepare_file,
}

abbrev pub sum_files : Map PendingFile → ℕ
sum_files [] = 0
sum_files ((id, f) ∷ m) = f.expected_size + sum_files m

abbrev pub sum_texts : Map PendingText → ℕ
sum_texts [] = 0
sum_texts ((id, t) ∷ m) = t.expected_size + sum_texts m

-- Nothing of the file has come, and its place is strictly below the download directory: under a safe name,
-- in a directory that is the download directory or is reached from it by safe names.
abbrev pub IsPlaced : FilePath → PendingFile → Type 0
IsPlaced directory f = (f.received ≡ 0) × IsBelow directory f.final_path

pub Holds-each {ℓ κ μ} :
    {E : Type ℓ} {A : Type κ} (P : A → Type μ) (r : Result E A)
    → ((a : A) → r ≡ ok a → P a)
    → Holds P r
Holds-each P (ok a) k = k a refl
Holds-each P (err e) k = tt

pub insert_absent-sum :
    (id : ℤ) (f : PendingFile) (m : Map PendingFile)
    → contains_key id m ≡ false
    → sum_files (insert id f m) ≡ f.expected_size + sum_files m
unfolding insert
insert_absent-sum id f m h = rw (remove-absent id m (ground (arith, h))) refl

pub insert_absent-sum_texts :
    (id : ℤ) (t : PendingText) (m : Map PendingText)
    → contains_key id m ≡ false
    → sum_texts (insert id t m) ≡ t.expected_size + sum_texts m
unfolding insert
insert_absent-sum_texts id t m h = rw (remove-absent id m (ground (arith, h))) refl

pub add_size-value : (total size sum : ℕ) → add_size total size ≡ ok sum → sum ≡ total + size
unfolding add_size
add_size-value total size sum e = ground arith

module _ (directory : FilePath) (process_id : ℕ) (random : ℕ → ℕ) where
  open_part-IsPlaced :
      (size : ℕ) (final_path part_path : FilePath)
      → IsBelow directory final_path
      → Ensures
          (λ f. IsPlaced directory f × (f.expected_size ≡ size))
          (open_part directory process_id random size final_path part_path)
  unfolding open_part
  open_part-IsPlaced size final_path part_path h =
      Ensures-bind (λ u. Unit {0}) _ (on_disk (create_new part_path)) _
        (λ d. Holds-each (λ u. Unit {0}) (on_disk (create_new part_path) d).0 (λ u e. tt))
        (λ u p s. ((refl, h), refl))

  place_file-IsPlaced :
      (size : ℕ) (safe_name : Text) (folder : Option Text) (i : ℕ)
      → IsSafe safe_name
      → Ensures
          (λ f. IsPlaced directory f × (f.expected_size ≡ size))
          (place_file directory process_id random size safe_name folder i)
  unfolding place_file
  place_file-IsPlaced size safe_name folder i h =
      Ensures-bind (IsInside directory) _ (safe_parent_directory directory folder) _
        (λ d. Holds-each (IsInside directory) (safe_parent_directory directory folder d).0 (λ p e.
          safe_parent_directory-IsInside directory folder p d
            (safe_parent_directory directory folder d).1
            (λ i. (e i, (safe_parent_directory directory folder d).1))))
        (λ parent inside d.
          open_part-IsPlaced size (unique_destination d parent safe_name (random (2 * i))) _
            (parent, inside, unique_destination-IsEntry d parent safe_name (random (2 * i)) h) d)

  -- What is known of a file that is prepared, and of the sum behind it.
  abbrev pub IsCounted : ℕ → ℤ × PendingFile × ℕ → Type 0
  IsCounted total (id, f, sum) = IsPlaced directory f × (sum ≡ total + f.expected_size)

  pub prepare_file-IsCounted :
      (metadata : FileMetadata) (i total : ℕ)
      → Ensures (IsCounted total) (prepare_file directory process_id random metadata i total)
  unfolding prepare_file
  prepare_file-IsCounted metadata i total =
      Ensures-bind (λ id. Unit {0}) (IsCounted total)
        (lift (ok_or metadata.payload_id ReceiveError.unsafe_metadata)) _
        (λ d.
          Holds-each (λ id. Unit {0}) (ok_or metadata.payload_id ReceiveError.unsafe_metadata)
            (λ id e. tt))
        (λ id u.
          Ensures-bind (λ size. Unit {0}) (IsCounted total) (lift (declared_size metadata.size)) _
            (λ d. Holds-each (λ size. Unit {0}) (declared_size metadata.size) (λ size e. tt))
            (λ size u.
              Ensures-bind (λ sum. sum ≡ total + size) (IsCounted total)
                (lift (add_size total size)) _
                (λ d.
                  Holds-each (λ sum. sum ≡ total + size) (add_size total size)
                    (add_size-value total size))
                (λ sum counted.
                  Ensures-bind (λ name. Unit {0}) (IsCounted total)
                    (lift (ok_or metadata.name ReceiveError.unsafe_metadata)) _
                    (λ d.
                      Holds-each (λ name. Unit {0})
                        (ok_or metadata.name ReceiveError.unsafe_metadata) (λ name e. tt))
                    (λ name u.
                      Ensures-bind IsSafe (IsCounted total) (lift (sanitize_file_name name)) _
                        (λ d.
                          Holds-each IsSafe (sanitize_file_name name)
                            (λ safe_name e. sanitize_file_name-IsSafe name safe_name e))
                        (λ safe_name safe.
                          Ensures-bind (λ f. IsPlaced directory f × (f.expected_size ≡ size))
                            (IsCounted total)
                            (place_file directory process_id random size safe_name
                              metadata.parent_folder i)
                            _ (place_file-IsPlaced size safe_name metadata.parent_folder i safe)
                            (λ f placed d.
                              (placed.0, counted ∙ ap (λ n. total + n) (sym placed.1))))))))
