-- ===== src/Crypto/Pin.antt =====
-- `pin_code` of src/quick_share_crypto.rs, in `i32` arithmetic: `%` rounds to zero.
use hi_rodrop.Prelude.{
  ℕ, ◌+◌, ◌-◌, ◌*◌, ◌%◌, ◌<◌, ◌^◌, ◌≡◌, true, [], ◌∷◌, arith, ltb, if◌then◌else◌, length, All, ◌≤◌,
}
use hi_rodrop.Prelude.Int.{ℤ, pos, negsuc, ◌+ℤ◌, ◌*ℤ◌, rem_ℤ, abs, in_i32}
use hi_rodrop.Prelude.Bytes.{Bytes, IsByte}
use hi_rodrop.Prelude.Utf8.{Text}
use hi_rodrop.Prelude.Decimal.{zero_padded, IsDigit, zero_padded-IsDigit, length-zero_padded}

-- `*byte as i8 as i32`
abbrev pub as_i8 : ℕ → ℤ
as_i8 b = if ltb b 128 then pos b else negsuc (255 - b)

abbrev pub next_hash : ℤ → ℤ → ℕ → ℤ
next_hash hash multiplier b = rem_ℤ (hash +ℤ as_i8 b *ℤ multiplier) 9973

abbrev pub next_multiplier : ℤ → ℤ
next_multiplier multiplier = rem_ℤ (multiplier *ℤ pos 31) 9973

pub pin_loop : ℤ → ℤ → Bytes → ℤ
pin_loop hash multiplier [] = hash
pin_loop hash multiplier (b ∷ bs) =
    pin_loop (next_hash hash multiplier b) (next_multiplier multiplier) bs

unfoldable pub pin_code : Bytes → Text
unfolding pin_loop
pin_code auth_key = zero_padded 4 (abs (pin_loop (pos 0) (pos 1) auth_key))

-- Each product, sum and result of the loop is an `i32`: no operation of it overflows.
abbrev pub Fits : ℤ → ℤ → Bytes → Type 0
Fits hash multiplier [] = in_i32 hash ≡ true
Fits hash multiplier (b ∷ bs) =
    (in_i32 (as_i8 b *ℤ multiplier) ≡ true)
    × (in_i32 (hash +ℤ as_i8 b *ℤ multiplier) ≡ true)
    × (in_i32 (multiplier *ℤ pos 31) ≡ true)
    × Fits (next_hash hash multiplier b) (next_multiplier multiplier) bs

abbrev Small : ℤ → Type 0
Small a = abs a < 9973

rem_ℤ-Small : (a : ℤ) → Small (rem_ℤ a 9973)
unfolding rem_ℤ
rem_ℤ-Small a = ground arith

next_multiplier-pos : (k : ℕ) → next_multiplier (pos k) ≡ pos (k * 31 % 9973)
unfolding ◌*ℤ◌ rem_ℤ
next_multiplier-pos k = ground arith

product_small : (b k : ℕ) → b ≤ 128 → k < 9973 → b * k ≤ 1276416
product_small b k h h' = grind arith

abs_product : (b k : ℕ) → b < 256 → k < 9973 → abs (as_i8 b *ℤ pos k) ≤ 1276416
unfolding ◌*ℤ◌
abs_product b k h h' = ground (arith, product_small b k, product_small (256 - b) k)

abs_sum : (a b : ℤ) → abs (a +ℤ b) ≤ abs a + abs b
unfolding ◌+ℤ◌
abs_sum a b = ground arith

abs-in_i32 : (a : ℤ) → abs a < 2 ^ 31 → in_i32 a ≡ true
abs-in_i32 a h = ground arith

times_31 : (k : ℕ) → k < 9973 → abs (pos k *ℤ pos 31) < 2 ^ 31
unfolding ◌*ℤ◌
times_31 k h = ground arith

pin_loop-Fits :
    (hash : ℤ) (k : ℕ) (bs : Bytes)
    → Small hash
    → k < 9973
    → All IsByte bs
    → Fits hash (pos k) bs × Small (pin_loop hash (pos k) bs)
unfolding pin_loop
pin_loop-Fits hash k [] h hk hb = (abs-in_i32 hash (omega arith), h)
pin_loop-Fits hash k (b ∷ bs) h hk hb =
    let p = abs_product b k hb.0 hk in
    let (fits, small) =
      pin_loop-Fits (next_hash hash (pos k) b) (k * 31 % 9973) bs (rem_ℤ-Small _) (omega arith)
        hb.1 in
    (
      (
        abs-in_i32 (as_i8 b *ℤ pos k) (omega arith),
        abs-in_i32 (hash +ℤ as_i8 b *ℤ pos k) (omega (arith, abs_sum hash (as_i8 b *ℤ pos k))),
        abs-in_i32 (pos k *ℤ pos 31) (times_31 k hk),
        rw (next_multiplier-pos k) fits,
      ),
      rw (next_multiplier-pos k) small,
    )

-- For every authentication key the PIN has exactly four characters, all decimal digits, and no
-- operation of the loop that computes it overflows an `i32`.
pub pin_code_shape :
    (auth_key : Bytes)
    → All IsByte auth_key
    → (length (pin_code auth_key) ≡ 4)
      × All IsDigit (pin_code auth_key)
      × Fits (pos 0) (pos 1) auth_key
unfolding pin_code
pin_code_shape auth_key h =
    let (fits, small) = pin_loop-Fits (pos 0) 1 auth_key (omega arith) (omega arith) h in
    (length-zero_padded 3 _ (omega arith), zero_padded-IsDigit 4 _, fits)
