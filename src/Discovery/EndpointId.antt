-- ===== src/Discovery/EndpointId.antt =====
-- `QuickShareEndpointId` of src/quick_share.rs. The random bytes are an argument.
use hi_rodrop.Prelude.{
  ℕ, zero, suc, ◌%◌, ◌<◌, ◌≡◌, refl, Bool, true, [], ◌∷◌, ◌&&◌, ◌||◌, leb, arith, map, Result, ok,
  err, get_or, length, ap, if◌then◌else◌,
}
use hi_rodrop.Prelude.Bytes.{Bytes}
use hi_rodrop.Prelude.Utf8.{ascii}

pub data QuickShareError : Type 0 where
  invalid_device_name invalid_endpoint_id : QuickShareError

abbrev pub endpoint_id_alphabet : Bytes
endpoint_id_alphabet = ascii "ABCDEFGHIJKLMNOPQRSTUVWXYZabcdefghijklmnopqrstuvwxyz0123456789"

-- `u8::is_ascii_alphanumeric`
unfoldable pub is_ascii_alphanumeric : ℕ → Bool
is_ascii_alphanumeric b = leb 48 b && leb b 57 || (leb 65 b && leb b 90 || leb 97 b && leb b 122)

abbrev pub all_alphanumeric : Bytes → Bool
all_alphanumeric [] = true
all_alphanumeric (b ∷ bs) = is_ascii_alphanumeric b && all_alphanumeric bs

-- `generate`: the source indexes the alphabet, which has 62 bytes.
unfoldable pub generate : Bytes → Bytes
generate entropy = map (λ b. get_or endpoint_id_alphabet (b % 62) 0) entropy

-- `new`
unfoldable pub new_endpoint_id : Bytes → Result QuickShareError Bytes
unfolding is_ascii_alphanumeric
new_endpoint_id value =
    if all_alphanumeric value then ok value else err QuickShareError.invalid_endpoint_id

get_or-alphanumeric :
    (xs : Bytes) (i : ℕ)
    → all_alphanumeric xs ≡ true
    → i < length xs
    → is_ascii_alphanumeric (get_or xs i 0) ≡ true
get_or-alphanumeric [] i all lt = absurd (omega (arith, lt))
get_or-alphanumeric (x ∷ xs) zero all lt = ground arith
get_or-alphanumeric (x ∷ xs) (suc i) all lt =
    get_or-alphanumeric xs i (ground arith) (omega (arith, lt))

alphabet_alphanumeric :
    (i : ℕ) → i < 62 → is_ascii_alphanumeric (get_or endpoint_id_alphabet i 0) ≡ true
unfolding is_ascii_alphanumeric
alphabet_alphanumeric i h = get_or-alphanumeric endpoint_id_alphabet i refl h

generate_alphanumeric : (entropy : Bytes) → all_alphanumeric (generate entropy) ≡ true
unfolding generate
generate_alphanumeric [] = refl
generate_alphanumeric (b ∷ bs) =
    rw (alphabet_alphanumeric (b % 62) (omega arith)) (generate_alphanumeric bs)

length-generate : (entropy : Bytes) → length (generate entropy) ≡ length entropy
unfolding generate
length-generate [] = refl
length-generate (b ∷ bs) = ap suc (length-generate bs)

-- An endpoint ID that is drawn passes the test that an endpoint ID must pass, whatever the random
-- bytes, and has one character for each of them.
pub new_endpoint_id-generate :
    (entropy : Bytes)
    → (new_endpoint_id (generate entropy) ≡ ok (generate entropy))
      × (length (generate entropy) ≡ length entropy)
unfolding new_endpoint_id
new_endpoint_id-generate entropy = (rw (generate_alphanumeric entropy), length-generate entropy)
