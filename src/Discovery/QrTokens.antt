-- ===== src/Discovery/QrTokens.antt =====
-- The loop of a visible endpoint's records in src/quick_share_qr.rs against what it looks for.
use hi_rodrop.Prelude.{
  ℕ, zero, suc, ◌≤◌, ◌≡◌, ◌↔◌, inl, inr, refl, ap, true, [], ◌∷◌, ◌++◌, ◌&&◌, leb, ◌==◌, arith,
  length, length-append, take, drop, take-append, drop-append, Bool-cases, length-take,
}
use hi_rodrop.Prelude.Bytes.{Bytes, eq_bytes, eq_bytes_iff}
use hi_rodrop.Discovery.QrRecords.{has_token_fuel, has_token, HasRecord, here, later}

take-append-drop : (n : ℕ) (xs : Bytes) → take n xs ++ drop n xs ≡ xs
take-append-drop zero xs = refl
take-append-drop (suc n) [] = refl
take-append-drop (suc n) (x ∷ xs) = rw (take-append-drop n xs)

has_token_sound :
    (fuel : ℕ) (token rest : Bytes) → has_token_fuel fuel token rest ≡ true → HasRecord 1 token rest
unfolding has_token_fuel
has_token_sound zero token rest e = cc
has_token_sound (suc fuel) token [] e = cc
has_token_sound (suc fuel) token (t ∷ []) e = cc
has_token_sound (suc fuel) token (t ∷ n ∷ rest) e = elim (Bool-cases (leb n (length rest))) [
  | inr short ↦ cc (rw short at e)
  | inl fits ↦ elim (Bool-cases ((t == 1) && eq_bytes (take n rest) token)) [
    | inl match ↦ here (t ∷ n ∷ rest) (drop n rest) (
        ground
          (arith, eq_bytes_iff (take n rest) token, length-take n rest, take-append-drop n rest))
    | inr other ↦
        later t (t ∷ n ∷ rest) (take n rest) (drop n rest)
          (ground (arith, length-take n rest, take-append-drop n rest))
          (has_token_sound fuel token (drop n rest) (ground arith))
  ]
]

step_here :
    (fuel : ℕ) (token r : Bytes)
    → has_token_fuel (suc fuel) token (1 ∷ (length token ∷ (token ++ r))) ≡ true
unfolding has_token_fuel
step_here fuel token r =
    ground (arith, length-append token r, take-append token r, eq_bytes_iff token token)

step_later :
    (fuel s : ℕ) (token w r : Bytes)
    → has_token_fuel fuel token r ≡ true
    → has_token_fuel (suc fuel) token (s ∷ (length w ∷ (w ++ r))) ≡ true
unfolding has_token_fuel
step_later fuel s token w r h =
    rw (take-append w r, drop-append w r, h) (ground (arith, length-append w r))

has_token_complete :
    (fuel : ℕ) (token rest : Bytes)
    → length rest ≤ fuel
    → HasRecord 1 token rest
    → has_token_fuel fuel token rest ≡ true
has_token_complete zero token rest h (here l r e) = absurd (omega (arith, ap length e))
has_token_complete zero token rest h (later s l w r e m) = absurd (omega (arith, ap length e))
has_token_complete (suc fuel) token rest h (here l r e) = rw e (step_here fuel token r)
has_token_complete (suc fuel) token rest h (later s l w r e m) = rw e (
    step_later fuel s token w r
      (has_token_complete fuel token r (omega (arith, ap length e, length-append w r)) m))

-- The loop of a visible endpoint finds a token exactly when a record of type 1 with that value stands
-- in the list behind whole records: it runs to the end, and a record cut short stops it.
pub has_token_iff : (token rest : Bytes) → (has_token token rest ≡ true) ↔ HasRecord 1 token rest
unfolding has_token
has_token_iff token rest = (
  has_token_sound (length rest) token rest,
  has_token_complete (length rest) token rest (omega arith),
)
