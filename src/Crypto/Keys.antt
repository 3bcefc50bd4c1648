-- ===== src/Crypto/Keys.antt =====
-- `hkdf` and `derive_session_keys` of src/quick_share_crypto.rs.
pub mod Mirror
use hi_rodrop.Prelude.{Bool, List, [], ◌∷◌, ◌++◌, Result, ok, ok_or, ◌>>=◌, if◌then◌else◌}
use hi_rodrop.Prelude.Bytes.{Bytes}
use hi_rodrop.Prelude.Utf8.{ascii}
use hi_rodrop.Crypto.Errors.{CryptoError}
use hi_rodrop.Crypto.Primitives.{Primitives}

pub record SessionKeys : Type 0 where
  pub decrypt_key : Bytes
  pub receive_hmac_key : Bytes
  pub encrypt_key : Bytes
  pub send_hmac_key : Bytes

abbrev pub d2d_salt : Bytes
d2d_salt =
    0x82 ∷ 0xAA ∷ 0x55 ∷ 0xA0 ∷ 0xD3 ∷ 0x97 ∷ 0xF8 ∷ 0x83 ∷ 0x46 ∷ 0xCA ∷ 0x1C ∷ 0xEE ∷ 0x8D ∷ 0x39
    ∷ 0x09 ∷ 0xB9 ∷ 0x5F ∷ 0x13 ∷ 0xFA ∷ 0x7D ∷ 0xEB ∷ 0x1D ∷ 0x4A ∷ 0xB3 ∷ 0x83 ∷ 0x76 ∷ 0xB8
    ∷ 0x25 ∷ 0x6D ∷ 0xA8 ∷ 0x55 ∷ 0x10 ∷ []

module _ {SecretKey PublicKey : Type 0} (prim : Primitives SecretKey PublicKey) where
  unfoldable pub hkdf : Bytes → Bytes → Bytes → Result CryptoError Bytes
  hkdf ikm salt info = ok_or (prim.hkdf_expand salt ikm info 32) CryptoError.key_derivation

  unfoldable pub derive_session_keys :
      Bytes → Bytes → Bool → Result CryptoError (SessionKeys × Bytes)
  derive_session_keys secret transcript server = do
    auth_key ← hkdf secret (ascii "UKEY2 v1 auth") transcript
    next_secret ← hkdf secret (ascii "UKEY2 v1 next") transcript
    client_d2d ← hkdf next_secret d2d_salt (ascii "client")
    server_d2d ← hkdf next_secret d2d_salt (ascii "server")
    let secure_message_salt = prim.sha256 (ascii "SecureMessage")
    client_encrypt ← hkdf client_d2d secure_message_salt (ascii "ENC:2")
    client_hmac ← hkdf client_d2d secure_message_salt (ascii "SIG:1")
    server_encrypt ← hkdf server_d2d secure_message_salt (ascii "ENC:2")
    server_hmac ← hkdf server_d2d secure_message_salt (ascii "SIG:1")
    ok (
      (if server
          then record {
            decrypt_key = client_encrypt;
            receive_hmac_key = client_hmac;
            encrypt_key = server_encrypt;
            send_hmac_key = server_hmac;
          }
          else record {
            decrypt_key = server_encrypt;
            receive_hmac_key = server_hmac;
            encrypt_key = client_encrypt;
            send_hmac_key = client_hmac;
          }),
      auth_key,
    )
