-- ===== src/Discovery/External.antt =====
-- What the discovery code calls and does not implement: base64's URL_SAFE_NO_PAD and AES-128-GCM of
-- aes-gcm, with those crates' promise that decoding undoes encoding and decryption encryption.
use hi_rodrop.Prelude.{◌+◌, ◌≡◌, Option, some, All, length}
use hi_rodrop.Prelude.Bytes.{Bytes, IsByte}
use hi_rodrop.Prelude.Utf8.{Text}

pub record Base64 : Type 0 where
  pub encode : Bytes → Text
  pub decode : Text → Option Bytes
  pub decode-encode : (b : Bytes) → All IsByte b → decode (encode b) ≡ some b

-- The arguments are key, nonce, message and associated data. A key is accepted by its length alone.
pub record Aead : Type 0 where
  pub encrypt : Bytes → Bytes → Bytes → Bytes → Bytes
  pub decrypt : Bytes → Bytes → Bytes → Bytes → Option Bytes
  pub decrypt-encrypt :
      (key nonce message aad : Bytes)
      → length key ≡ 16
      → length nonce ≡ 12
      → decrypt key nonce (encrypt key nonce message aad) aad ≡ some message
  pub length-encrypt :
      (key nonce message aad : Bytes) → length (encrypt key nonce message aad) ≡ length message + 16
