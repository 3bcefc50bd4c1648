-- ===== src/Prelude/Int.antt =====
-- Signed integers over the native numbers, under the library's names, for `i32` and `i64` values.
use Prim.Native.Nat.{ℕ, suc, ◌+◌, ◌-◌, ◌*◌, ◌%◌, ◌^◌}
use mathlib.Core.Path.{◌≡◌, refl}
use mathlib.Core.Logic.{◌↔◌}
use mathlib.Core.Bool.{Bool, true, false, ◌&&◌}
use mathlib.Core.Option.{Option, none, some}
use native.Mathlib.Omega.{arith}
use hi_rodrop.Prelude.Tests.{ltb, leb, ◌==◌, if◌then◌else◌}

-- `negsuc n` is -(n + 1).
pub data ℤ : Type 0 where
  pos : ℕ → ℤ
  negsuc : ℕ → ℤ

abbrev pub pos_part : ℤ → ℕ
pos_part (pos n) = n
pos_part (negsuc n) = 0

abbrev pub neg_part : ℤ → ℕ
neg_part (pos n) = 0
neg_part (negsuc n) = suc n

-- a - b, as an integer.
abbrev pub sub_ℕ : ℕ → ℕ → ℤ
sub_ℕ a b = if leb b a then pos (a - b) else negsuc (b - a - 1)

infixl 65 ◌+ℤ◌
infixl 70 ◌*ℤ◌
infix 50 ◌==ℤ◌
unfoldable pub ◌+ℤ◌ : ℤ → ℤ → ℤ
a +ℤ b = sub_ℕ (pos_part a + pos_part b) (neg_part a + neg_part b)

unfoldable pub ◌*ℤ◌ : ℤ → ℤ → ℤ
a *ℤ b =
    sub_ℕ (pos_part a * pos_part b + neg_part a * neg_part b)
      (pos_part a * neg_part b + neg_part a * pos_part b)

abbrev pub abs : ℤ → ℕ
abs a = pos_part a + neg_part a

-- Rust's `%`: the quotient rounds to zero, so the remainder has the sign of the dividend.
unfoldable pub rem_ℤ : ℤ → ℕ → ℤ
rem_ℤ (pos a) m = pos (a % m)
rem_ℤ (negsuc a) m = sub_ℕ 0 (suc a % m)

abbrev pub ◌==ℤ◌ : ℤ → ℤ → Bool
pos a ==ℤ pos b = a == b
pos a ==ℤ negsuc b = false
negsuc a ==ℤ pos b = false
negsuc a ==ℤ negsuc b = a == b

pub ==ℤ_iff : (a b : ℤ) → ((a ==ℤ b) ≡ true) ↔ (a ≡ b)
==ℤ_iff a b = ground arith

pub ==ℤ_refl : (a : ℤ) → (a ==ℤ a) ≡ true
==ℤ_refl a = (==ℤ_iff a a).1 refl

-- -(2 ^ 31) ≤ a < 2 ^ 31
abbrev pub in_i32 : ℤ → Bool
in_i32 a = ltb (pos_part a) (2 ^ 31) && leb (neg_part a) (2 ^ 31)

-- `i32::checked_add`
unfoldable pub checked_add_i32 : ℤ → ℤ → Option ℤ
unfolding ◌+ℤ◌
checked_add_i32 a b = if in_i32 (a +ℤ b) then some (a +ℤ b) else none

-- `field == Some(v)` and its negation are tests of this function.
abbrev pub is_value : Option ℤ → ℤ → Bool
is_value none v = false
is_value (some a) v = a ==ℤ v

pub is_value_iff : (o : Option ℤ) (v : ℤ) → (is_value o v ≡ true) ↔ (o ≡ some v)
is_value_iff none v = ground arith
is_value_iff (some a) v = ground arith

-- The step of a sequence number, which stops below 2 ^ 31.
pub checked_add_i32_one :
    (n : ℕ)
    → checked_add_i32 (pos n) (pos 1) ≡ (if ltb (n + 1) (2 ^ 31) then some (pos (n + 1)) else none)
unfolding checked_add_i32
checked_add_i32_one n = ground arith
