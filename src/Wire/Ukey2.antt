-- ===== src/Wire/Ukey2.antt =====
-- The UKEY2 handshake messages and the public keys of src/quick_share_wire.rs.
use hi_rodrop.Prelude.{ℕ, List, [], ◌∷◌, Option, some, ◌≡◌, refl}
use hi_rodrop.Prelude.Int.{ℤ}
use hi_rodrop.Prelude.Bytes.{Bytes}
use hi_rodrop.Prelude.Utf8.{Text}
use hi_rodrop.Wire.Enumeration.{Enumeration, find_code}

pub record Ukey2Message : Type 0 where
  pub message_type : Option ℤ
  pub message_data : Option Bytes

pub data Ukey2MessageType : Type 0 where
  unknown alert client_init server_init client_finish : Ukey2MessageType

abbrev pub ukey2_message_type_code : Ukey2MessageType → ℕ
ukey2_message_type_code Ukey2MessageType.unknown = 0
ukey2_message_type_code Ukey2MessageType.alert = 1
ukey2_message_type_code Ukey2MessageType.client_init = 2
ukey2_message_type_code Ukey2MessageType.server_init = 3
ukey2_message_type_code Ukey2MessageType.client_finish = 4

abbrev pub ukey2_message_type_variants : List Ukey2MessageType
ukey2_message_type_variants =
    Ukey2MessageType.unknown ∷ Ukey2MessageType.alert ∷ Ukey2MessageType.client_init
    ∷ Ukey2MessageType.server_init ∷ Ukey2MessageType.client_finish ∷ []

pub ukey2_message_type_covers :
    (v : Ukey2MessageType)
    → find_code ukey2_message_type_code ukey2_message_type_variants (ukey2_message_type_code v)
      ≡ some v
ukey2_message_type_covers Ukey2MessageType.unknown = refl
ukey2_message_type_covers Ukey2MessageType.alert = refl
ukey2_message_type_covers Ukey2MessageType.client_init = refl
ukey2_message_type_covers Ukey2MessageType.server_init = refl
ukey2_message_type_covers Ukey2MessageType.client_finish = refl

instance abbrev pub ukey2_message_type_enumeration : Enumeration Ukey2MessageType
ukey2_message_type_enumeration = record {
  code = ukey2_message_type_code;
  variants = ukey2_message_type_variants;
  covers = ukey2_message_type_covers;
}

pub record CipherCommitment : Type 0 where
  pub handshake_cipher : Option ℤ
  pub commitment : Option Bytes

pub record Ukey2ClientInit : Type 0 where
  pub version : Option ℤ
  pub random : Option Bytes
  pub cipher_commitments : List CipherCommitment
  pub next_protocol : Option Text

pub data Ukey2HandshakeCipher : Type 0 where
  reserved p256_sha512 curve25519_sha512 : Ukey2HandshakeCipher

abbrev pub ukey2_handshake_cipher_code : Ukey2HandshakeCipher → ℕ
ukey2_handshake_cipher_code Ukey2HandshakeCipher.reserved = 0
ukey2_handshake_cipher_code Ukey2HandshakeCipher.p256_sha512 = 100
ukey2_handshake_cipher_code Ukey2HandshakeCipher.curve25519_sha512 = 200

abbrev pub ukey2_handshake_cipher_variants : List Ukey2HandshakeCipher
ukey2_handshake_cipher_variants =
    Ukey2HandshakeCipher.reserved ∷ Ukey2HandshakeCipher.p256_sha512
    ∷ Ukey2HandshakeCipher.curve25519_sha512 ∷ []

pub ukey2_handshake_cipher_covers :
    (v : Ukey2HandshakeCipher)
    → find_code ukey2_handshake_cipher_code ukey2_handshake_cipher_variants
        (ukey2_handshake_cipher_code v)
      ≡ some v
ukey2_handshake_cipher_covers Ukey2HandshakeCipher.reserved = refl
ukey2_handshake_cipher_covers Ukey2HandshakeCipher.p256_sha512 = refl
ukey2_handshake_cipher_covers Ukey2HandshakeCipher.curve25519_sha512 = refl

instance abbrev pub ukey2_handshake_cipher_enumeration : Enumeration Ukey2HandshakeCipher
ukey2_handshake_cipher_enumeration = record {
  code = ukey2_handshake_cipher_code;
  variants = ukey2_handshake_cipher_variants;
  covers = ukey2_handshake_cipher_covers;
}

pub record Ukey2ServerInit : Type 0 where
  pub version : Option ℤ
  pub random : Option Bytes
  pub handshake_cipher : Option ℤ
  pub public_key : Option Bytes

pub record Ukey2ClientFinished : Type 0 where
  pub public_key : Option Bytes

pub data PublicKeyType : Type 0 where
  ec_p256 rsa2048 dh2048_modp : PublicKeyType

abbrev pub public_key_type_code : PublicKeyType → ℕ
public_key_type_code PublicKeyType.ec_p256 = 1
public_key_type_code PublicKeyType.rsa2048 = 2
public_key_type_code PublicKeyType.dh2048_modp = 3

abbrev pub public_key_type_variants : List PublicKeyType
public_key_type_variants =
    PublicKeyType.ec_p256 ∷ PublicKeyType.rsa2048 ∷ PublicKeyType.dh2048_modp ∷ []

pub public_key_type_covers :
    (v : PublicKeyType)
    → find_code public_key_type_code public_key_type_variants (public_key_type_code v) ≡ some v
public_key_type_covers PublicKeyType.ec_p256 = refl
public_key_type_covers PublicKeyType.rsa2048 = refl
public_key_type_covers PublicKeyType.dh2048_modp = refl

instance abbrev pub public_key_type_enumeration : Enumeration PublicKeyType
public_key_type_enumeration = record {
  code = public_key_type_code;
  variants = public_key_type_variants;
  covers = public_key_type_covers;
}

pub record EcP256PublicKey : Type 0 where
  pub x : Bytes
  pub y : Bytes

pub record GenericPublicKey : Type 0 where
  pub key_type : Option ℤ
  pub ec_p256_public_key : Option EcP256PublicKey
