-- ===== src/Wire/Secure.antt =====
-- The SecureMessage envelope of src/quick_share_wire.rs.
use hi_rodrop.Prelude.{ℕ, List, [], ◌∷◌, Option, some, ◌≡◌, refl}
use hi_rodrop.Prelude.Int.{ℤ}
use hi_rodrop.Prelude.Bytes.{Bytes}
use hi_rodrop.Wire.Enumeration.{Enumeration, find_code}

pub record SecureMessage : Type 0 where
  pub header_and_body : Bytes
  pub signature : Bytes

pub record SecureHeader : Type 0 where
  pub signature_scheme : Option ℤ
  pub encryption_scheme : Option ℤ
  pub iv : Option Bytes
  pub public_metadata : Option Bytes

pub data SignatureScheme : Type 0 where
  hmac_sha256 ecdsa_p256_sha256 rsa2048_sha256 : SignatureScheme

abbrev pub signature_scheme_code : SignatureScheme → ℕ
signature_scheme_code SignatureScheme.hmac_sha256 = 1
signature_scheme_code SignatureScheme.ecdsa_p256_sha256 = 2
signature_scheme_code SignatureScheme.rsa2048_sha256 = 3

abbrev pub signature_scheme_variants : List SignatureScheme
signature_scheme_variants =
    SignatureScheme.hmac_sha256 ∷ SignatureScheme.ecdsa_p256_sha256 ∷ SignatureScheme.rsa2048_sha256
    ∷ []

pub signature_scheme_covers :
    (v : SignatureScheme)
    → find_code signature_scheme_code signature_scheme_variants (signature_scheme_code v) ≡ some v
signature_scheme_covers SignatureScheme.hmac_sha256 = refl
signature_scheme_covers SignatureScheme.ecdsa_p256_sha256 = refl
signature_scheme_covers SignatureScheme.rsa2048_sha256 = refl

instance abbrev pub signature_scheme_enumeration : Enumeration SignatureScheme
signature_scheme_enumeration = record {
  code = signature_scheme_code;
  variants = signature_scheme_variants;
  covers = signature_scheme_covers;
}

pub data EncryptionScheme : Type 0 where
  no_encryption aes256_cbc : EncryptionScheme

abbrev pub encryption_scheme_code : EncryptionScheme → ℕ
encryption_scheme_code EncryptionScheme.no_encryption = 1
encryption_scheme_code EncryptionScheme.aes256_cbc = 2

abbrev pub encryption_scheme_variants : List EncryptionScheme
encryption_scheme_variants = EncryptionScheme.no_encryption ∷ EncryptionScheme.aes256_cbc ∷ []

pub encryption_scheme_covers :
    (v : EncryptionScheme)
    → find_code encryption_scheme_code encryption_scheme_variants (encryption_scheme_code v)
      ≡ some v
encryption_scheme_covers EncryptionScheme.no_encryption = refl
encryption_scheme_covers EncryptionScheme.aes256_cbc = refl

instance abbrev pub encryption_scheme_enumeration : Enumeration EncryptionScheme
encryption_scheme_enumeration = record {
  code = encryption_scheme_code;
  variants = encryption_scheme_variants;
  covers = encryption_scheme_covers;
}

pub record HeaderAndBody : Type 0 where
  pub header : SecureHeader
  pub body : Bytes

pub record GcmMetadata : Type 0 where
  pub metadata_type : Option ℤ
  pub version : Option ℤ

pub data GcmMetadataType : Type 0 where
  device_to_device_responder_hello_payload device_to_device_message : GcmMetadataType

abbrev pub gcm_metadata_type_code : GcmMetadataType → ℕ
gcm_metadata_type_code GcmMetadataType.device_to_device_responder_hello_payload = 12
gcm_metadata_type_code GcmMetadataType.device_to_device_message = 13

abbrev pub gcm_metadata_type_variants : List GcmMetadataType
gcm_metadata_type_variants =
    GcmMetadataType.device_to_device_responder_hello_payload
    ∷ GcmMetadataType.device_to_device_message ∷ []

pub gcm_metadata_type_covers :
    (v : GcmMetadataType)
    → find_code gcm_metadata_type_code gcm_metadata_type_variants (gcm_metadata_type_code v)
      ≡ some v
gcm_metadata_type_covers GcmMetadataType.device_to_device_responder_hello_payload = refl
gcm_metadata_type_covers GcmMetadataType.device_to_device_message = refl

instance abbrev pub gcm_metadata_type_enumeration : Enumeration GcmMetadataType
gcm_metadata_type_enumeration = record {
  code = gcm_metadata_type_code;
  variants = gcm_metadata_type_variants;
  covers = gcm_metadata_type_covers;
}

pub record DeviceToDeviceMessage : Type 0 where
  pub message : Option Bytes
  pub sequence_number : Option ℤ
