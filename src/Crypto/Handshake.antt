-- ===== src/Crypto/Handshake.antt =====
-- `Ukey2Initiator` and `Ukey2Responder` of src/quick_share_crypto.rs. The secret key and the random
-- bytes that the source draws from the operating system are arguments.
pub mod Agreement
pub mod Commitment
use hi_rodrop.Prelude.{
  ℕ, ◌+◌, ◌/◌, ◌%◌, Bool, true, false, Option, none, some, List, [], ◌∷◌, ◌++◌, ◌&&◌, not, ltb,
  ◌==◌, if◌then◌else◌, Result, ok, err, ok_or, guard, and_then, keep_if, ◌>>=◌, ◌>>◌, length,
}
use hi_rodrop.Prelude.Int.{ℤ, pos, is_value}
use hi_rodrop.Prelude.Bytes.{Bytes, eq_bytes}
use hi_rodrop.Prelude.Utf8.{Text, chars}
use hi_rodrop.Wire.{
  Ukey2Message, Ukey2MessageType, ukey2_message_type_enumeration, Ukey2ClientInit, Ukey2ServerInit,
  CipherCommitment, Ukey2HandshakeCipher, ukey2_handshake_cipher_enumeration,
}
use hi_rodrop.Wire.Enumeration.{as_i32}
use hi_rodrop.Crypto.Errors.{CryptoError}
use hi_rodrop.Crypto.Primitives.{Primitives, Codecs}
use hi_rodrop.Crypto.Keys.{derive_session_keys}
use hi_rodrop.Crypto.Channel.{SecureChannel, new_channel}
use hi_rodrop.Crypto.Pin.{pin_code}
use hi_rodrop.Crypto.PublicKeys.{encode_generic_public_key, decode_generic_public_key}

abbrev pub next_protocol : Text
next_protocol = chars "AES_256_CBC-HMAC_SHA256"

pub record Ukey2Responder (SecretKey : Type 0) : Type 0 where
  pub commitment : Bytes
  pub client_init_raw : Bytes
  pub server_init_raw : Bytes
  pub secret_key : SecretKey

pub record Ukey2Initiator (SecretKey : Type 0) : Type 0 where
  pub client_init_raw : Bytes
  pub client_finish_raw : Bytes
  pub secret_key : SecretKey

-- `field.as_ref().map(Vec::len) == Some(n)`
abbrev pub has_length : Option Bytes → ℕ → Bool
has_length none n = false
has_length (some b) n = length b == n

-- `field.as_deref() == Some(text)`
abbrev pub is_text : Option Text → Text → Bool
is_text none t = false
is_text (some s) t = eq_bytes s t

abbrev pub cipher : Option ℤ
cipher = some (as_i32 Ukey2HandshakeCipher.p256_sha512)

-- `iter().find(..)`, by the cipher
abbrev pub find_commitment : List CipherCommitment → Option CipherCommitment
find_commitment [] = none
find_commitment (item ∷ items) =
    if is_value item.handshake_cipher (as_i32 Ukey2HandshakeCipher.p256_sha512)
    then some item
    else find_commitment items

abbrev hex_digit : ℕ → ℕ
hex_digit n = if ltb n 10 then 48 + n else 87 + n

-- `{b:02x}` of each byte
unfoldable pub hex : Bytes → Text
hex [] = []
hex (b ∷ bs) = hex_digit (b / 16) ∷ hex_digit (b % 16) ∷ hex bs

module _ {SecretKey PublicKey : Type 0} (prim : Primitives SecretKey PublicKey)
    (codecs : Codecs) where
  abbrev pub ukey2_message : Ukey2MessageType → Bytes → Ukey2Message
  ukey2_message t content = record { message_type = some (as_i32 t); message_data = some content }

  abbrev pub public_key_bytes : SecretKey → Bytes
  public_key_bytes secret =
      codecs.generic_public_key.encode (encode_generic_public_key prim (prim.public_key secret))

  abbrev pub client_finish : SecretKey → Bytes
  client_finish secret = codecs.ukey2_message.encode (
      ukey2_message Ukey2MessageType.client_finish
        (codecs.client_finished.encode (record { public_key = some (public_key_bytes secret) })))

  abbrev pub client_init : SecretKey → Bytes → Ukey2ClientInit
  client_init secret random = record {
    version = some (pos 1);
    random = some random;
    cipher_commitments =
        record { handshake_cipher = cipher; commitment = some (prim.sha512 (client_finish secret)) }
        ∷ [];
    next_protocol = some next_protocol;
  }

  abbrev pub server_init : SecretKey → Bytes → Ukey2ServerInit
  server_init secret random = record {
    version = some (pos 1);
    random = some random;
    handshake_cipher = cipher;
    public_key = some (public_key_bytes secret);
  }

  -- `Ukey2Initiator::begin`
  unfoldable pub begin : SecretKey → Bytes → Result CryptoError (Ukey2Initiator SecretKey × Bytes)
  begin secret random =
      let client_init_raw = codecs.ukey2_message.encode (
        ukey2_message Ukey2MessageType.client_init
          (codecs.client_init.encode (client_init secret random))) in
      ok (
        record {
          client_init_raw = client_init_raw;
          client_finish_raw = client_finish secret;
          secret_key = secret;
        },
        client_init_raw,
      )

  -- `Ukey2Initiator::complete`
  unfoldable pub complete_initiator :
      Ukey2Initiator SecretKey → Bytes → Result CryptoError (Bytes × SecureChannel × Text × Bytes)
  complete_initiator self server_init_raw = do
    outer ← ok_or (codecs.ukey2_message.decode server_init_raw) CryptoError.protobuf
    guard (is_value outer.message_type (as_i32 Ukey2MessageType.server_init))
        CryptoError.unexpected_ukey2_message
    content ← ok_or outer.message_data CryptoError.invalid_client_init
    init ← ok_or (codecs.server_init.decode content) CryptoError.protobuf
    guard
        (is_value init.version (pos 1)
          && (has_length init.random 32
              && is_value init.handshake_cipher (as_i32 Ukey2HandshakeCipher.p256_sha512)))
        CryptoError.invalid_client_init
    key_bytes ← ok_or init.public_key CryptoError.invalid_public_key
    generic_key ← ok_or (codecs.generic_public_key.decode key_bytes) CryptoError.protobuf
    peer ← decode_generic_public_key prim generic_key
    let derived_secret = prim.sha256 (prim.diffie_hellman self.secret_key peer)
    let transcript = self.client_init_raw ++ server_init_raw
    derived ← derive_session_keys prim derived_secret transcript false
    ok (self.client_finish_raw, new_channel derived.0, pin_code derived.1, derived.1)

  -- `Ukey2Responder::accept_client_init`
  unfoldable pub accept_client_init :
      SecretKey → Bytes → Bytes → Result CryptoError (Ukey2Responder SecretKey × Bytes)
  accept_client_init secret random raw = do
    outer ← ok_or (codecs.ukey2_message.decode raw) CryptoError.protobuf
    guard (is_value outer.message_type (as_i32 Ukey2MessageType.client_init))
        CryptoError.unexpected_ukey2_message
    content ← ok_or outer.message_data CryptoError.invalid_client_init
    init ← ok_or (codecs.client_init.decode content) CryptoError.protobuf
    guard
        (is_value init.version (pos 1)
          && (has_length init.random 32 && is_text init.next_protocol next_protocol))
        CryptoError.invalid_client_init
    commitment ←
        ok_or
          (keep_if (λ value. length value == 64)
            (and_then (find_commitment init.cipher_commitments) (λ item. item.commitment)))
          CryptoError.invalid_client_init
    let server_init_raw = codecs.ukey2_message.encode (
        ukey2_message Ukey2MessageType.server_init
          (codecs.server_init.encode (server_init secret random)))
    ok (
      record {
        commitment = commitment;
        client_init_raw = raw;
        server_init_raw = server_init_raw;
        secret_key = secret;
      },
      server_init_raw,
    )

  -- `Ukey2Responder::complete`
  unfoldable pub complete_responder :
      Ukey2Responder SecretKey → Bytes → Result CryptoError (SecureChannel × Text × Text)
  complete_responder self client_finish_raw = do
    guard (eq_bytes (prim.sha512 client_finish_raw) self.commitment) CryptoError.commitment_mismatch
    outer ← ok_or (codecs.ukey2_message.decode client_finish_raw) CryptoError.protobuf
    guard (is_value outer.message_type (as_i32 Ukey2MessageType.client_finish))
        CryptoError.unexpected_ukey2_message
    content ← ok_or outer.message_data CryptoError.invalid_public_key
    finish ← ok_or (codecs.client_finished.decode content) CryptoError.protobuf
    key_bytes ← ok_or finish.public_key CryptoError.invalid_public_key
    generic_key ← ok_or (codecs.generic_public_key.decode key_bytes) CryptoError.protobuf
    peer ← decode_generic_public_key prim generic_key
    let derived_secret = prim.sha256 (prim.diffie_hellman self.secret_key peer)
    let transcript = self.client_init_raw ++ self.server_init_raw
    derived ← derive_session_keys prim derived_secret transcript true
    let peer_fingerprint = hex (prim.sha256 (prim.to_sec1_bytes peer))
    ok (new_channel derived.0, pin_code derived.1, peer_fingerprint)
