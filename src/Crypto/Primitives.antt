-- ===== src/Crypto/Primitives.antt =====
-- What src/quick_share_crypto.rs calls and does not implement: sha2, hkdf, hmac, aes with cbc, p256 and
-- prost. A field that is `none` is the call's own error. The laws are those crates' promises:
-- which lengths they accept, that decryption undoes encryption under one key and one IV, that the
-- two sides of Diffie-Hellman agree, and that a point is rebuilt from its coordinates.
use hi_rodrop.Prelude.{ℕ, ◌*◌, ◌≤◌, ◌≡◌, Option, some, length}
use hi_rodrop.Prelude.Bytes.{Bytes}
use hi_rodrop.Wire.{
  Ukey2Message, Ukey2ClientInit, Ukey2ServerInit, Ukey2ClientFinished, GenericPublicKey,
  SecureMessage, HeaderAndBody, GcmMetadata, DeviceToDeviceMessage, OfflineFrame,
}
use hi_rodrop.Wire.Codec.{Codec}

pub record Primitives (SecretKey PublicKey : Type 0) : Type 0 where
  pub sha256 : Bytes → Bytes
  pub sha512 : Bytes → Bytes
  pub length-sha512 : (m : Bytes) → length (sha512 m) ≡ 64
  -- salt, input key, info, and the length of the output
  pub hkdf_expand : Bytes → Bytes → Bytes → ℕ → Option Bytes
  pub hkdf_total :
      (salt ikm info : Bytes) (n : ℕ)
      → n ≤ 255 * 32
      → (out : Bytes) × (hkdf_expand salt ikm info n ≡ some out) × (length out ≡ n)
  pub hmac_sha256 : Bytes → Bytes → Option Bytes
  pub hmac_total : (key m : Bytes) → (tag : Bytes) × (hmac_sha256 key m ≡ some tag)
  -- key, IV, plaintext
  pub cbc_encrypt : Bytes → Bytes → Bytes → Option Bytes
  -- key, IV, ciphertext; the inner `none` is a wrong padding
  pub cbc_decrypt : Bytes → Bytes → Bytes → Option (Option Bytes)
  pub cbc_round_trip :
      (key iv plaintext : Bytes)
      → length key ≡ 32
      → length iv ≡ 16
      → (c : Bytes) × (cbc_encrypt key iv plaintext ≡ some c)
        × (cbc_decrypt key iv c ≡ some (some plaintext))
  pub public_key : SecretKey → PublicKey
  pub diffie_hellman : SecretKey → PublicKey → Bytes
  pub diffie_hellman_comm :
      (a b : SecretKey) → diffie_hellman a (public_key b) ≡ diffie_hellman b (public_key a)
  -- the affine coordinates of the uncompressed point, 32 bytes each
  pub affine_x : PublicKey → Bytes
  pub affine_y : PublicKey → Bytes
  pub length-affine_x : (k : PublicKey) → length (affine_x k) ≡ 32
  pub length-affine_y : (k : PublicKey) → length (affine_y k) ≡ 32
  pub from_affine : Bytes → Bytes → Option PublicKey
  pub from_affine-affine : (k : PublicKey) → from_affine (affine_x k) (affine_y k) ≡ some k
  pub to_sec1_bytes : PublicKey → Bytes

pub record Codecs : Type 0 where
  pub ukey2_message : Codec Ukey2Message
  pub client_init : Codec Ukey2ClientInit
  pub server_init : Codec Ukey2ServerInit
  pub client_finished : Codec Ukey2ClientFinished
  pub generic_public_key : Codec GenericPublicKey
  pub secure_message : Codec SecureMessage
  pub header_and_body : Codec HeaderAndBody
  pub gcm_metadata : Codec GcmMetadata
  pub device_message : Codec DeviceToDeviceMessage
  pub offline_frame : Codec OfflineFrame
