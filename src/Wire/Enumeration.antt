-- ===== src/Wire/Enumeration.antt =====
-- What prost derives for an enumeration of src/quick_share_wire.rs: `v as i32`, which is its number,
-- and `try_from`, which finds the variant of a number.
use hi_rodrop.Prelude.{ℕ, List, [], ◌∷◌, Option, none, some, ◌≡◌, ◌==◌, if◌then◌else◌}
use hi_rodrop.Prelude.Int.{ℤ, pos, negsuc}

abbrev pub find_code {ℓ} : {E : Type ℓ} → (E → ℕ) → List E → ℕ → Option E
find_code code [] n = none
find_code code (v ∷ vs) n = if code v == n then some v else find_code code vs n

pub record Enumeration (E : Type 0) : Type 0 where
  pub code : E → ℕ
  pub variants : List E
  pub covers : (v : E) → find_code code variants (code v) ≡ some v

module _ {E : Type 0} ⦃e : Enumeration E⦄ where
  abbrev pub as_i32 : E → ℤ
  as_i32 v = pos (e.code v)

  abbrev pub try_from : ℤ → Option E
  try_from (pos n) = find_code e.code e.variants n
  try_from (negsuc n) = none
