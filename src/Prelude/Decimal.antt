-- ===== src/Prelude/Decimal.antt =====
-- `format!` of an unsigned number, plain and padded with zeros.
use Prim.Native.Nat.{ℕ, zero, suc, ◌+◌, ◌-◌, ◌/◌, ◌%◌, ◌^◌, ◌≤◌, ◌<◌}
use mathlib.Core.Path.{◌≡◌}
use mathlib.Core.List.{[], ◌∷◌, ◌++◌}
use native.Mathlib.Omega.{arith}
use hi_rodrop.Prelude.Tests.{ltb, if◌then◌else◌, Bool-cases, ltb→lt}
use mathlib.Core.Logic.{inl, inr}
use native.Mathlib.Nat.{pow-suc}
use hi_rodrop.Prelude.Lists.{length, replicate, All, length-append, length-replicate, All-append}
use hi_rodrop.Prelude.Utf8.{Text}

-- The fuel is a bound on the number of digits.
pub decimal_fuel : ℕ → ℕ → Text
decimal_fuel zero n = []
decimal_fuel (suc k) n =
    let rest = decimal_fuel k (n / 10) in
    if ltb n 10 then (48 + n) ∷ [] else rest ++ (48 + n % 10) ∷ []

-- Twenty digits are enough for a `u64`.
unfoldable pub decimal : ℕ → Text
unfolding decimal_fuel
decimal n = decimal_fuel 20 n

-- `{:0w}`
unfoldable pub zero_padded : ℕ → ℕ → Text
unfolding decimal
zero_padded w n = replicate (w - length (decimal n)) 48 ++ decimal n

abbrev pub IsDigit : ℕ → Type 0
IsDigit c = (48 ≤ c) × (c ≤ 57)

length-decimal_fuel : (k j n : ℕ) → n < 10 ^ suc j → length (decimal_fuel k n) ≤ suc j
unfolding decimal_fuel
length-decimal_fuel zero j n h = omega arith
length-decimal_fuel (suc k) zero n h = ground arith
length-decimal_fuel (suc k) (suc j) n h = ground (
  arith,
  length-append (decimal_fuel k (n / 10)) ((48 + n % 10) ∷ []),
  length-decimal_fuel k j (n / 10) (omega (arith, pow-suc 10 (suc j))),
)

decimal_fuel-IsDigit : (k n : ℕ) → All IsDigit (decimal_fuel k n)
unfolding decimal_fuel
decimal_fuel-IsDigit zero n = omega arith
decimal_fuel-IsDigit (suc k) n = elim (Bool-cases (ltb n 10)) [
  | inl e ↦ rw e (omega (arith, ltb→lt n 10 e))
  | inr e ↦ rw e (
      All-append IsDigit (decimal_fuel k (n / 10)) _ (decimal_fuel-IsDigit k (n / 10))
        (omega arith))
]

replicate-IsDigit : (n : ℕ) → All IsDigit (replicate n 48)
replicate-IsDigit zero = omega arith
replicate-IsDigit (suc n) = (omega arith, replicate-IsDigit n)

pub decimal-IsDigit : (n : ℕ) → All IsDigit (decimal n)
unfolding decimal
decimal-IsDigit n = decimal_fuel-IsDigit 20 n

pub zero_padded-IsDigit : (w n : ℕ) → All IsDigit (zero_padded w n)
unfolding zero_padded
zero_padded-IsDigit w n =
    All-append IsDigit (replicate (w - length (decimal n)) 48) (decimal n) (replicate-IsDigit _)
      (decimal_fuel-IsDigit 20 n)

-- A number of at most w digits fills exactly w places.
pub length-zero_padded : (w n : ℕ) → n < 10 ^ suc w → length (zero_padded (suc w) n) ≡ suc w
unfolding zero_padded
length-zero_padded w n h = omega (
  arith,
  length-append (replicate (suc w - length (decimal n)) 48) (decimal n),
  length-replicate {A = ℕ} (suc w - length (decimal n)) 48,
  length-decimal_fuel 20 w n h,
)
