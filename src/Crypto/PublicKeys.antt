-- ===== src/Crypto/PublicKeys.antt =====
-- The P-256 keys of src/quick_share_crypto.rs on the wire: coordinates as signed big-endian numbers.
pub mod RoundTrip
use hi_rodrop.Prelude.{
  ℕ, ◌+◌, ◌-◌, ◌≤◌, Bool, true, false, Option, none, some, List, [], ◌∷◌, ◌++◌, ◌&&◌, ◌||◌, not,
  ltb, ◌==◌, if◌then◌else◌, Result, ok, err, ok_or, guard, ◌>>=◌, ◌>>◌, length, replicate, drop,
  bit_and,
}
use hi_rodrop.Prelude.Int.{is_value}
use hi_rodrop.Prelude.Bytes.{Bytes}
use hi_rodrop.Wire.{GenericPublicKey, EcP256PublicKey, PublicKeyType, public_key_type_enumeration}
use hi_rodrop.Wire.Enumeration.{as_i32}
use hi_rodrop.Crypto.Errors.{CryptoError}
use hi_rodrop.Crypto.Primitives.{Primitives}

-- `first().is_some_and(|byte| byte & 0x80 != 0)`
abbrev high_bit : Bytes → Bool
high_bit [] = false
high_bit (b ∷ bs) = not (bit_and b 0x80 == 0)

unfoldable pub signed_coordinate : Bytes → Bytes
signed_coordinate coordinate = (if high_bit coordinate then 0 ∷ [] else []) ++ coordinate

-- `first() == Some(&0)`
abbrev starts_with_zero : Bytes → Bool
starts_with_zero [] = false
starts_with_zero (b ∷ bs) = b == 0

unfoldable pub unsigned_coordinate : Bytes → Result CryptoError Bytes
unsigned_coordinate signed =
    let value = if length signed == 33 && starts_with_zero signed then drop 1 signed else signed in
    if length value == 0 || ltb 32 (length value)
    then err CryptoError.invalid_public_key
    else ok (replicate (32 - length value) 0 ++ value)

module _ {SecretKey PublicKey : Type 0} (prim : Primitives SecretKey PublicKey) where
  unfoldable pub encode_generic_public_key : PublicKey → GenericPublicKey
  encode_generic_public_key key = record {
    key_type = some (as_i32 PublicKeyType.ec_p256);
    ec_p256_public_key = some (record {
      x = signed_coordinate (prim.affine_x key);
      y = signed_coordinate (prim.affine_y key);
    });
  }

  unfoldable pub decode_generic_public_key : GenericPublicKey → Result CryptoError PublicKey
  decode_generic_public_key key = do
    guard (is_value key.key_type (as_i32 PublicKeyType.ec_p256)) CryptoError.invalid_public_key
    point ← ok_or key.ec_p256_public_key CryptoError.invalid_public_key
    x ← unsigned_coordinate point.x
    y ← unsigned_coordinate point.y
    ok_or (prim.from_affine x y) CryptoError.invalid_public_key
