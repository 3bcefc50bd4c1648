-- ===== src/Crypto/Keys/Mirror.antt =====
-- The two sides' keys of src/quick_share_crypto.rs against one another.
use hi_rodrop.Prelude.{◌≡◌, refl, true, false, ok, length, arith}
use hi_rodrop.Prelude.Bytes.{Bytes}
use hi_rodrop.Crypto.Primitives.{Primitives}
use hi_rodrop.Prelude.Utf8.{ascii}
use hi_rodrop.Crypto.Keys.{SessionKeys, d2d_salt, hkdf, derive_session_keys}

-- What one side sends by, the other receives by.
pub record IsMirror (a b : SessionKeys) : Type 0 where
  pub forth : a.encrypt_key ≡ b.decrypt_key
  pub forth_hmac : a.send_hmac_key ≡ b.receive_hmac_key
  pub back : b.encrypt_key ≡ a.decrypt_key
  pub back_hmac : b.send_hmac_key ≡ a.receive_hmac_key

pub record IsSized (k : SessionKeys) : Type 0 where
  pub decrypt_size : length k.decrypt_key ≡ 32
  pub encrypt_size : length k.encrypt_key ≡ 32

module _ {SecretKey PublicKey : Type 0} (prim : Primitives SecretKey PublicKey) where
  hkdf_total :
      (ikm salt info : Bytes)
      → (out : Bytes) × (hkdf prim ikm salt info ≡ ok out) × (length out ≡ 32)
  unfolding hkdf
  hkdf_total ikm salt info =
      let (out, e, l) = prim.hkdf_total salt ikm info 32 (omega arith) in (out, rw e, l)

  -- Key derivation succeeds on both sides from one secret and one transcript: the authentication
  -- keys are the same, each side's sending keys are the other's receiving keys, and the cipher keys
  -- have the 32 bytes that AES-256 wants.
  pub derive_session_keys-IsMirror :
      (secret transcript : Bytes)
      → (server client : SessionKeys) × (auth : Bytes) × (derive_session_keys prim secret transcript
            true
          ≡ ok (server, auth))
        × (derive_session_keys prim secret transcript false ≡ ok (client, auth))
        × IsMirror client server
        × IsSized client
        × IsSized server
  unfolding derive_session_keys
  derive_session_keys-IsMirror secret transcript =
      let (auth, ea, _) = hkdf_total secret (ascii "UKEY2 v1 auth") transcript in
      let (next, en, _) = hkdf_total secret (ascii "UKEY2 v1 next") transcript in
      let (client, ec, _) = hkdf_total next d2d_salt (ascii "client") in
      let (server, es, _) = hkdf_total next d2d_salt (ascii "server") in
      let salt = prim.sha256 (ascii "SecureMessage") in
      let (ce, e1, l1) = hkdf_total client salt (ascii "ENC:2") in
      let (ch, e2, _) = hkdf_total client salt (ascii "SIG:1") in
      let (se, e3, l3) = hkdf_total server salt (ascii "ENC:2") in
      let (sh, e4, _) = hkdf_total server salt (ascii "SIG:1") in
      (
        record { decrypt_key = ce; receive_hmac_key = ch; encrypt_key = se; send_hmac_key = sh },
        record { decrypt_key = se; receive_hmac_key = sh; encrypt_key = ce; send_hmac_key = ch },
        auth,
        rw (ea, en, ec, es, e1, e2, e3, e4),
        rw (ea, en, ec, es, e1, e2, e3, e4),
        record { forth = refl; forth_hmac = refl; back = refl; back_hmac = refl },
        record { decrypt_size = l3; encrypt_size = l1 },
        record { decrypt_size = l1; encrypt_size = l3 },
      )
