-- ===== src/Discovery/QrRecords.antt =====
-- The records behind the name of an endpoint info, as the loops of src/quick_share_qr.rs walk them: a
-- type, a length and a value. The source keeps an offset into `info`; here the loops carry what
-- stands behind that offset, which a record shortens by two bytes at least.
use hi_rodrop.Prelude.{
  ℕ, zero, suc, ◌≡◌, Bool, true, false, Option, none, some, [], ◌∷◌, ◌++◌, ◌&&◌, leb, ◌==◌,
  if◌then◌else◌, length, take, drop,
}
use hi_rodrop.Prelude.Bytes.{Bytes, eq_bytes}

-- The visible loop: `record_type == 1 && value == expected_token`.
unfoldable pub has_token_fuel : ℕ → Bytes → Bytes → Bool
has_token_fuel zero token rest = false
has_token_fuel (suc fuel) token [] = false
has_token_fuel (suc fuel) token (t ∷ []) = false
has_token_fuel (suc fuel) token (t ∷ n ∷ rest) =
    let later = has_token_fuel fuel token (drop n rest) in
    if leb n (length rest)
    then (if (t == 1) && eq_bytes (take n rest) token then true else later)
    else false

-- Each record takes two bytes, so the length of the list is fuel enough.
unfoldable pub has_token : Bytes → Bytes → Bool
unfolding has_token_fuel
has_token token rest = has_token_fuel (length rest) token rest

-- The loop over records of which `choose` takes the first that it can use, as in the hidden form.
unfoldable pub first_record_fuel : {A : Type 0} → ℕ → (ℕ → Bytes → Option A) → Bytes → Option A
first_record_fuel zero choose rest = none
first_record_fuel (suc fuel) choose [] = none
first_record_fuel (suc fuel) choose (t ∷ []) = none
first_record_fuel (suc fuel) choose (t ∷ n ∷ rest) =
    let later = first_record_fuel fuel choose (drop n rest) in
    if leb n (length rest)
    then (elim (choose t (take n rest)) [ some a ↦ some a | none ↦ later ])
    else none

unfoldable pub first_record : {A : Type 0} → (ℕ → Bytes → Option A) → Bytes → Option A
unfolding first_record_fuel
first_record choose rest = first_record_fuel (length rest) choose rest

-- A record of the given type and value stands in the list, behind whole records only.
pub data HasRecord (t : ℕ) (v : Bytes) : Bytes → Type 0 where
  here : (l rest : Bytes) → l ≡ t ∷ (length v ∷ (v ++ rest)) → HasRecord t v l
  later :
      (s : ℕ) (l w rest : Bytes)
      → l ≡ s ∷ (length w ∷ (w ++ rest))
      → HasRecord t v rest
      → HasRecord t v l
