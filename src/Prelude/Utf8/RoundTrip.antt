-- ===== src/Prelude/Utf8/RoundTrip.antt =====
-- Encoded text decodes to itself.
use hi_rodrop.Prelude.Bytes.{Bytes, IsByte}
use Prim.Native.Nat.{ℕ, suc, ◌+◌, ◌-◌, ◌*◌, ◌/◌, ◌%◌, ◌≤◌, ◌<◌}
use mathlib.Core.Bool.{true}
use mathlib.Core.Path.{◌≡◌, refl, ◌∙◌}
use native.Mathlib.Omega.{arith}
use hi_rodrop.Prelude.Lists.{All, All-append}
use mathlib.Core.Option.{Option, some}
use mathlib.Core.List.{[], ◌∷◌, ◌++◌}
use hi_rodrop.Prelude.Utf8.{
  Text, IsScalar, char_bytes, as_bytes, push_char, is_scalar, ascii_byte, tail, two, three, four,
  byte_class, finish, decode_utf8, from_utf8,
}

pub plus-minus : (k t : ℕ) → k + t - k ≡ t
plus-minus k t = omega arith

class_two : (t : ℕ) → t < 32 → byte_class (0xC0 + t) ≡ two
unfolding byte_class
class_two t h = ground arith

class_three : (t : ℕ) → t < 16 → byte_class (0xE0 + t) ≡ three
unfolding byte_class
class_three t h = ground arith

class_four : (t : ℕ) → t < 8 → byte_class (0xF0 + t) ≡ four
unfolding byte_class
class_four t h = ground arith

class_tail : (t : ℕ) → t < 64 → byte_class (0x80 + t) ≡ tail
unfolding byte_class
class_tail t h = ground arith

class_ascii : (c : ℕ) → c < 0x80 → byte_class c ≡ ascii_byte
unfolding byte_class
class_ascii t h = ground arith

lead2 :
    (t : ℕ) (bs : Bytes) → t < 32 → decode_utf8 0 0 0 ((0xC0 + t) ∷ bs) ≡ decode_utf8 1 t 0x80 bs
unfolding decode_utf8
lead2 t bs h = rw (class_two t h, decode_utf8) (rw (plus-minus 0xC0 t))

lead3 :
    (t : ℕ) (bs : Bytes) → t < 16 → decode_utf8 0 0 0 ((0xE0 + t) ∷ bs) ≡ decode_utf8 2 t 0x800 bs
unfolding decode_utf8
lead3 t bs h = rw (class_three t h, decode_utf8) (rw (plus-minus 0xE0 t))

lead4 :
    (t : ℕ) (bs : Bytes) → t < 8 → decode_utf8 0 0 0 ((0xF0 + t) ∷ bs) ≡ decode_utf8 3 t 0x10000 bs
unfolding decode_utf8
lead4 t bs h = rw (class_four t h, decode_utf8) (rw (plus-minus 0xF0 t))

tail_more :
    (due bits least t : ℕ) (bs : Bytes)
    → t < 64
    → decode_utf8 (suc (suc due)) bits least ((0x80 + t) ∷ bs)
      ≡ decode_utf8 (suc due) (bits * 64 + t) least bs
unfolding decode_utf8
tail_more due bits least t bs h = rw (class_tail t h, decode_utf8) (rw (plus-minus 0x80 t))

finish_ok :
    (least c : ℕ) (rest : Option Text)
    → least ≤ c
    → is_scalar c ≡ true
    → finish least c rest ≡ push_char c rest
unfolding finish
finish_ok least c rest l s = rw s (ground arith)

tail_last :
    (bits least t c : ℕ) (bs : Bytes)
    → t < 64
    → bits * 64 + t ≡ c
    → least ≤ c
    → is_scalar c ≡ true
    → decode_utf8 1 bits least ((0x80 + t) ∷ bs) ≡ push_char c (decode_utf8 0 0 0 bs)
unfolding decode_utf8
tail_last bits least t c bs h e l s =
    rw (class_tail t h, decode_utf8)
      (rw (plus-minus 0x80 t, e) (finish_ok least c (decode_utf8 0 0 0 bs) l s))

is_scalar_of : (c : ℕ) → IsScalar c → is_scalar c ≡ true
is_scalar_of c h = ground arith

three_bytes :
    (c : ℕ) (bs : Bytes)
    → 0x800 ≤ c
    → c < 0x10000
    → is_scalar c ≡ true
    → decode_utf8 0 0 0 ((0xE0 + c / 4096) ∷ (0x80 + c / 64 % 64) ∷ (0x80 + c % 64) ∷ bs)
      ≡ push_char c (decode_utf8 0 0 0 bs)
three_bytes c bs lo hi s =
    lead3 (c / 4096) _ (omega arith)
    ∙ tail_more 0 (c / 4096) 0x800 (c / 64 % 64) _ (omega arith)
    ∙ tail_last _ 0x800 (c % 64) c bs (omega arith) (omega arith) lo s

four_bytes :
    (c : ℕ) (bs : Bytes)
    → 0x10000 ≤ c
    → c < 0x110000
    → is_scalar c ≡ true
    → decode_utf8 0 0 0
        ((0xF0 + c / 262144) ∷ (0x80 + c / 4096 % 64) ∷ (0x80 + c / 64 % 64) ∷ (0x80 + c % 64) ∷ bs)
      ≡ push_char c (decode_utf8 0 0 0 bs)
four_bytes c bs lo hi s =
    lead4 (c / 262144) _ (omega arith)
    ∙ tail_more 1 (c / 262144) 0x10000 (c / 4096 % 64) _ (omega arith)
    ∙ tail_more 0 _ 0x10000 (c / 64 % 64) _ (omega arith)
    ∙ tail_last _ 0x10000 (c % 64) c bs (omega arith) (omega arith) lo s

two_bytes :
    (c : ℕ) (bs : Bytes)
    → 0x80 ≤ c
    → c < 0x800
    → is_scalar c ≡ true
    → decode_utf8 0 0 0 ((0xC0 + c / 64) ∷ (0x80 + c % 64) ∷ bs)
      ≡ push_char c (decode_utf8 0 0 0 bs)
two_bytes c bs lo hi s =
    lead2 (c / 64) _ (omega arith)
    ∙ tail_last (c / 64) 0x80 (c % 64) c bs (omega arith) (omega arith) lo s

one_byte :
    (c : ℕ) (bs : Bytes)
    → c < 0x80
    → decode_utf8 0 0 0 (c ∷ bs) ≡ push_char c (decode_utf8 0 0 0 bs)
unfolding decode_utf8
one_byte c bs h = rw (class_ascii c h, decode_utf8)

decode-char_bytes :
    (c : ℕ) (rest : Bytes)
    → IsScalar c
    → decode_utf8 0 0 0 (char_bytes c ++ rest) ≡ push_char c (decode_utf8 0 0 0 rest)
decode-char_bytes c rest h = ground (
  arith,
  is_scalar_of c,
  one_byte c rest,
  two_bytes c rest,
  three_bytes c rest,
  four_bytes c rest,
)

char_bytes-IsByte : (c : ℕ) → IsScalar c → All IsByte (char_bytes c)
char_bytes-IsByte c h = ground arith

pub as_bytes-IsByte : (s : Text) → All IsScalar s → All IsByte (as_bytes s)
unfolding as_bytes
as_bytes-IsByte [] h = tt
as_bytes-IsByte (c ∷ cs) h =
    All-append IsByte (char_bytes c) (as_bytes cs) (char_bytes-IsByte c h.0)
      (as_bytes-IsByte cs h.1)

-- What `as_bytes` gives, `from_utf8` reads.
pub from_utf8-as_bytes : (s : Text) → All IsScalar s → from_utf8 (as_bytes s) ≡ some s
unfolding as_bytes from_utf8
from_utf8-as_bytes [] h = refl
from_utf8-as_bytes (c ∷ cs) h =
    rw (decode-char_bytes c (as_bytes cs) h.0, from_utf8-as_bytes cs h.1)
