-- ===== src/Prelude/Utf8.antt =====
-- Rust's `str` as its list of characters (Unicode scalar values), with `as_bytes` and `from_utf8`.
pub mod RoundTrip
use hi_rodrop.Prelude.Bytes.{Bytes, IsByte}
use hi_rodrop.Prelude.Tests.{ltb, leb, if◌then◌else◌}
use hi_rodrop.Prelude.Results.{and_then}
use Prim.Native.Nat.{ℕ, zero, suc, ◌+◌, ◌-◌, ◌*◌, ◌/◌, ◌%◌, ◌≤◌, ◌<◌}
use mathlib.Core.Logic.{◌⊎◌}
use Prim.Native.Char.{code}
use Prim.Native.String.{String}
use mathlib.Core.Bool.{Bool, true, ◌&&◌, ◌||◌}
use mathlib.Core.Path.{◌≡◌, refl, ◌∙◌}
use native.Mathlib.Omega.{arith}
use hi_rodrop.Prelude.Lists.{All, All-append}
use mathlib.Core.Option.{Option, none, some}
use mathlib.Core.List.{List, [], ◌∷◌, ◌++◌}

abbrev pub Text : Type 0
Text = List ℕ

-- A code point that is no surrogate.
abbrev pub IsScalar : ℕ → Type 0
IsScalar c = (c < 0xD800) ⊎ ((0xE000 ≤ c) × (c < 0x110000))

abbrev pub char_bytes : ℕ → Bytes
char_bytes c =
    if ltb c 0x80
    then c ∷ []
    else if ltb c 0x800
    then (0xC0 + c / 64) ∷ (0x80 + c % 64) ∷ []
    else if ltb c 0x10000
    then (0xE0 + c / 4096) ∷ (0x80 + c / 64 % 64) ∷ (0x80 + c % 64) ∷ []
    else (0xF0 + c / 262144) ∷ (0x80 + c / 4096 % 64) ∷ (0x80 + c / 64 % 64) ∷ (0x80 + c % 64) ∷ []

unfoldable pub as_bytes : Text → Bytes
as_bytes [] = []
as_bytes (c ∷ cs) = char_bytes c ++ as_bytes cs

abbrev push_char : ℕ → Option Text → Option Text
push_char c rest = and_then rest (λ cs. some (c ∷ cs))

abbrev pub is_scalar : ℕ → Bool
is_scalar c = ltb c 0xD800 || (leb 0xE000 c && ltb c 0x110000)

pub data ByteClass : Type 0 where
  ascii_byte tail two three four invalid : ByteClass

pub byte_class : ℕ → ByteClass
byte_class b =
    if ltb b 0x80
    then ascii_byte
    else if ltb b 0xC0
    then tail
    else if ltb b 0xE0
    then two
    else if ltb b 0xF0
    then three
    else if ltb b 0xF8
    then four
    else invalid

-- The code point of a finished form, if no shorter form has it and it is a scalar value.
pub finish : ℕ → ℕ → Option Text → Option Text
finish least c rest = if leb least c && is_scalar c then push_char c rest else none

-- One byte at a time: how many tail bytes are still due, the bits so far, and the least code point
-- that has this many bytes. No overlong form, no surrogate, nothing above 0x10FFFF.
pub decode_utf8 : ℕ → ℕ → ℕ → Bytes → Option Text
decode_utf8 zero bits least [] = some []
decode_utf8 (suc due) bits least [] = none
decode_utf8 zero bits least (b ∷ bs) = elim (byte_class b) [
  | ascii_byte ↦ push_char b (decode_utf8 0 0 0 bs)
  | two ↦ decode_utf8 1 (b - 0xC0) 0x80 bs
  | three ↦ decode_utf8 2 (b - 0xE0) 0x800 bs
  | four ↦ decode_utf8 3 (b - 0xF0) 0x10000 bs
  | _ ↦ none
]
decode_utf8 (suc zero) bits least (b ∷ bs) = elim (byte_class b) [
  | tail ↦ finish least (bits * 64 + (b - 0x80)) (decode_utf8 0 0 0 bs)
  | _ ↦ none
]
decode_utf8 (suc (suc due)) bits least (b ∷ bs) = elim (byte_class b) [
  | tail ↦ decode_utf8 (suc due) (bits * 64 + (b - 0x80)) least bs
  | _ ↦ none
]

unfoldable pub from_utf8 : Bytes → Option Text
unfolding decode_utf8
from_utf8 = decode_utf8 0 0 0

-- The bytes of an ASCII literal, `b"..."`, and the characters of any literal.
abbrev pub chars : String → Text
chars String.[] = []
chars (String.◌∷◌ c s) = code c ∷ chars s

abbrev pub ascii : String → Bytes
ascii = chars
