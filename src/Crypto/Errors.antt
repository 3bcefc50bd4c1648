-- ===== src/Crypto/Errors.antt =====
-- `QuickShareCryptoError` of src/quick_share_crypto.rs. A protobuf error carries no detail here.
use hi_rodrop.Prelude.Int.{ℤ}

pub data CryptoError : Type 0 where
  protobuf unexpected_ukey2_message invalid_client_init commitment_mismatch : CryptoError
  invalid_public_key key_derivation invalid_secure_message : CryptoError
  authentication_failed decryption_failed : CryptoError
  sequence_mismatch : (expected actual : ℤ) → CryptoError
