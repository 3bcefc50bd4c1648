-- ===== src/Prelude/Map.antt =====
-- `HashMap<i64, V>` as an association list. The program iterates over such a map only to remove files.
use mathlib.Core.Path.{◌≡◌, refl, subst}
use mathlib.Core.Bool.{Bool, true, false}
use mathlib.Core.Option.{Option, none, some}
use mathlib.Core.List.{List, [], ◌∷◌}
use native.Mathlib.Omega.{arith}
use hi_rodrop.Prelude.Tests.{if◌then◌else◌, Bool-cases}
use mathlib.Core.Logic.{inl, inr}
use hi_rodrop.Prelude.Int.{ℤ, ◌==ℤ◌, ==ℤ_iff}

abbrev pub Map {ℓ} : Type ℓ → Type ℓ
Map V = List (ℤ × V)

module _ {ℓ} {V : Type ℓ} where
  unfoldable pub lookup : ℤ → Map V → Option V
  lookup k [] = none
  lookup k ((j, v) ∷ m) = if j ==ℤ k then some v else lookup k m

  unfoldable pub remove : ℤ → Map V → Map V
  remove k [] = []
  remove k ((j, v) ∷ m) = let rest = remove k m in if j ==ℤ k then rest else (j, v) ∷ rest

  unfoldable pub insert : ℤ → V → Map V → Map V
  unfolding remove
  insert k v m = (k, v) ∷ remove k m

  abbrev pub is_empty : Map V → Bool
  is_empty [] = true
  is_empty (e ∷ m) = false

  pub lookup-remove :
      (k j : ℤ) (m : Map V) → lookup j (remove k m) ≡ (if k ==ℤ j then none else lookup j m)
  unfolding lookup remove
  lookup-remove k j [] = ground arith
  lookup-remove k j ((i, v) ∷ m) =
      ground (arith, lookup-remove k j m, ==ℤ_iff i k, ==ℤ_iff i j, ==ℤ_iff k j)

  pub lookup-insert :
      (k j : ℤ) (v : V) (m : Map V)
      → lookup j (insert k v m) ≡ (if k ==ℤ j then some v else lookup j m)
  unfolding insert lookup
  lookup-insert k j v m = ground (arith, lookup-remove k j m)

  -- A property of all values is kept by the writers.
  abbrev pub AllValues {κ} : (V → Type κ) → Map V → Type κ
  AllValues P [] = Unit {κ}
  AllValues P ((k, v) ∷ m) = P v × AllValues P m

  pub AllValues-remove {κ} :
      (P : V → Type κ) (k : ℤ) (m : Map V) → AllValues P m → AllValues P (remove k m)
  unfolding remove
  AllValues-remove P k [] h = tt
  AllValues-remove P k ((j, v) ∷ m) h = elim (Bool-cases (j ==ℤ k)) [
    | inl e ↦ rw e (AllValues-remove P k m h.1)
    | inr e ↦ rw e (h.0, AllValues-remove P k m h.1)
  ]

  pub AllValues-insert {κ} :
      (P : V → Type κ) (k : ℤ) (v : V) (m : Map V)
      → P v
      → AllValues P m
      → AllValues P (insert k v m)
  unfolding insert
  AllValues-insert P k v m p h = (p, AllValues-remove P k m h)

  pub AllValues-lookup {κ} :
      (P : V → Type κ) (k : ℤ) (v : V) (m : Map V) → lookup k m ≡ some v → AllValues P m → P v
  unfolding lookup
  AllValues-lookup P k v [] e h = cc
  AllValues-lookup P k v ((j, w) ∷ m) e h = elim (Bool-cases (j ==ℤ k)) [
    | inl x ↦ subst P (cc (rw x at e)) h.0
    | inr x ↦ AllValues-lookup P k v m (rw x at e) h.1
  ]

  pub remove-absent : (k : ℤ) (m : Map V) → lookup k m ≡ none → remove k m ≡ m
  unfolding lookup remove
  remove-absent k [] h = refl
  remove-absent k ((j, v) ∷ m) h = elim (Bool-cases (j ==ℤ k)) [
    | inl e ↦ absurd (cc (rw e at h))
    | inr e ↦ rw (e, remove-absent k m (rw e at h)) refl
  ]
