-- ===== src/Crypto/Envelope.antt =====
-- The SecureMessage envelope of src/quick_share_crypto.rs: what `encrypt_offline_frame` and
-- `decrypt_offline_frame` do between the steps of the sequence numbers. The IV that the source draws
-- from the operating system is an argument.
pub mod RoundTrip
use hi_rodrop.Prelude.{
  some, ◌&&◌, not, ◌==◌, length, Result, ok, ok_or, guard, keep_if, ◌>>=◌, ◌>>◌,
}
use hi_rodrop.Prelude.Int.{ℤ, pos, is_value}
use hi_rodrop.Prelude.Bytes.{Bytes, eq_bytes}
use hi_rodrop.Wire.{
  OfflineFrame, SecureMessage, HeaderAndBody, DeviceToDeviceMessage, GcmMetadataType,
  gcm_metadata_type_enumeration, SignatureScheme, signature_scheme_enumeration, EncryptionScheme,
  encryption_scheme_enumeration,
}
use hi_rodrop.Wire.Enumeration.{as_i32}
use hi_rodrop.Crypto.Errors.{CryptoError}
use hi_rodrop.Crypto.Primitives.{Primitives, Codecs}
use hi_rodrop.Crypto.Keys.{SessionKeys}

module _ {SecretKey PublicKey : Type 0} (prim : Primitives SecretKey PublicKey)
    (codecs : Codecs) where
  abbrev pub device_message : ℤ → OfflineFrame → DeviceToDeviceMessage
  device_message sequence frame = record {
    message = some (codecs.offline_frame.encode frame);
    sequence_number = some sequence;
  }

  abbrev pub metadata : Bytes
  metadata = codecs.gcm_metadata.encode (record {
    metadata_type = some (as_i32 GcmMetadataType.device_to_device_message);
    version = some (pos 1);
  })

  abbrev pub envelope : Bytes → Bytes → HeaderAndBody
  envelope iv body = record {
    header = record {
      signature_scheme = some (as_i32 SignatureScheme.hmac_sha256);
      encryption_scheme = some (as_i32 EncryptionScheme.aes256_cbc);
      iv = some iv;
      public_metadata = some metadata;
    };
    body = body;
  }

  abbrev pub secure : Bytes → Bytes → SecureMessage
  secure header_and_body signature = record {
    header_and_body = header_and_body;
    signature = signature;
  }

  unfoldable pub seal : SessionKeys → ℤ → Bytes → OfflineFrame → Result CryptoError Bytes
  seal keys sequence iv frame = do
    let plaintext = codecs.device_message.encode (device_message sequence frame)
    body ← ok_or (prim.cbc_encrypt keys.encrypt_key iv plaintext) CryptoError.key_derivation
    let header_and_body = codecs.header_and_body.encode (envelope iv body)
    signature ←
        ok_or (prim.hmac_sha256 keys.send_hmac_key header_and_body) CryptoError.key_derivation
    ok (codecs.secure_message.encode (secure header_and_body signature))

  -- `verify_slice` compares the tag that it computes with the signature.
  unfoldable pub unseal : SessionKeys → Bytes → Result CryptoError DeviceToDeviceMessage
  unseal keys secure_message = do
    secure ← ok_or (codecs.secure_message.decode secure_message) CryptoError.protobuf
    tag ←
        ok_or (prim.hmac_sha256 keys.receive_hmac_key secure.header_and_body)
          CryptoError.key_derivation
    guard (eq_bytes tag secure.signature) CryptoError.authentication_failed
    envelope ← ok_or (codecs.header_and_body.decode secure.header_and_body) CryptoError.protobuf
    guard
        (is_value envelope.header.signature_scheme (as_i32 SignatureScheme.hmac_sha256)
          && is_value envelope.header.encryption_scheme (as_i32 EncryptionScheme.aes256_cbc))
        CryptoError.invalid_secure_message
    iv ←
        ok_or (keep_if (λ value. length value == 16) envelope.header.iv)
          CryptoError.invalid_secure_message
    opened ← ok_or (prim.cbc_decrypt keys.decrypt_key iv envelope.body) CryptoError.key_derivation
    plaintext ← ok_or opened CryptoError.decryption_failed
    ok_or (codecs.device_message.decode plaintext) CryptoError.protobuf
