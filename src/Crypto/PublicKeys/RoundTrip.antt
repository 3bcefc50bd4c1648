-- ===== src/Crypto/PublicKeys/RoundTrip.antt =====
-- Keys of src/quick_share_crypto.rs through the wire and back.
use hi_rodrop.Prelude.{
  ℕ, ◌-◌, ◌≤◌, ◌<◌, ◌≡◌, [], ◌∷◌, ◌++◌, arith, ok, length, length-append, length-replicate,
  replicate,
}
use hi_rodrop.Prelude.Bytes.{Bytes}
use hi_rodrop.Crypto.Primitives.{Primitives}
use hi_rodrop.Crypto.PublicKeys.{
  signed_coordinate, unsigned_coordinate, encode_generic_public_key, decode_generic_public_key,
}

-- A coordinate of 32 bytes comes back whether or not it needs the sign byte.
pub unsigned_coordinate-signed_coordinate :
    (c : Bytes) → length c ≡ 32 → unsigned_coordinate (signed_coordinate c) ≡ ok c
unfolding unsigned_coordinate signed_coordinate
unsigned_coordinate-signed_coordinate [] h = absurd (omega arith)
unsigned_coordinate-signed_coordinate (b ∷ bs) h = ground arith

padded : (v : Bytes) → length v ≤ 32 → length (replicate (32 - length v) 0 ++ v) ≡ 32
padded v h = omega (
  arith,
  length-append (replicate (32 - length v) 0) v,
  length-replicate {A = ℕ} (32 - length v) 0,
)

-- A coordinate that is accepted had 1 to 33 bytes, and is padded to 32.
pub unsigned_coordinate_size :
    (c out : Bytes)
    → unsigned_coordinate c ≡ ok out
    → (length out ≡ 32) × (0 < length c) × (length c ≤ 33)
unfolding unsigned_coordinate
unsigned_coordinate_size [] out h = cc
unsigned_coordinate_size (b ∷ bs) out h = ground (arith, padded bs, padded (b ∷ bs))

module _ {SecretKey PublicKey : Type 0} (prim : Primitives SecretKey PublicKey) where
  -- A public key is rebuilt from its wire form.
  pub decode_generic_public_key-encode_generic_public_key :
      (key : PublicKey)
      → decode_generic_public_key prim (encode_generic_public_key prim key) ≡ ok key
  unfolding encode_generic_public_key decode_generic_public_key
  decode_generic_public_key-encode_generic_public_key key = rw (
    unsigned_coordinate-signed_coordinate (prim.affine_x key) (prim.length-affine_x key),
    unsigned_coordinate-signed_coordinate (prim.affine_y key) (prim.length-affine_y key),
    prim.from_affine-affine key,
  )
