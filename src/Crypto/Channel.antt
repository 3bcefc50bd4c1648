-- ===== src/Crypto/Channel.antt =====
-- `SecureChannel` of src/quick_share_crypto.rs: the envelope with sequence numbers. The IV that the
-- source draws from the operating system is an argument.
pub mod Delivery
pub mod Sequence
use hi_rodrop.Prelude.{none, some, not, ok_or}
use hi_rodrop.Prelude.Int.{ℤ, pos, ◌==ℤ◌, checked_add_i32}
use hi_rodrop.Prelude.Bytes.{Bytes}
use hi_rodrop.Prelude.Exec.{Exec, pure, raise, lift, gets, modify, ◌>>=◌, ◌>>◌}
use hi_rodrop.Prelude.{Bool, true, false}
use hi_rodrop.Wire.{OfflineFrame}
use hi_rodrop.Crypto.Errors.{CryptoError}
use hi_rodrop.Crypto.Primitives.{Primitives, Codecs}
use hi_rodrop.Crypto.Keys.{SessionKeys}
use hi_rodrop.Crypto.Envelope.{seal, unseal}

pub record SecureChannel : Type 0 where
  pub keys : SessionKeys
  pub receive_sequence : ℤ
  pub send_sequence : ℤ

-- `SecureChannel::new`
abbrev pub new_channel : SessionKeys → SecureChannel
new_channel keys = record { keys = keys; receive_sequence = pos 0; send_sequence = pos 0 }

abbrev pub require : Bool → CryptoError → Exec SecureChannel CryptoError (Unit {0})
require true e = pure tt
require false e = raise e

module _ {SecretKey PublicKey : Type 0} (prim : Primitives SecretKey PublicKey)
    (codecs : Codecs) where
  unfoldable pub encrypt_offline_frame : Bytes → OfflineFrame → Exec SecureChannel CryptoError Bytes
  encrypt_offline_frame iv frame = do
    next ← gets (λ c. checked_add_i32 c.send_sequence (pos 1))
    sequence ← lift (ok_or next CryptoError.invalid_secure_message)
    modify (λ c. record c { send_sequence = sequence })
    keys ← gets (λ c. c.keys)
    lift (seal prim codecs keys sequence iv frame)

  unfoldable pub decrypt_offline_frame : Bytes → Exec SecureChannel CryptoError OfflineFrame
  decrypt_offline_frame secure_message = do
    keys ← gets (λ c. c.keys)
    message ← lift (unseal prim codecs keys secure_message)
    actual ← lift (ok_or message.sequence_number CryptoError.invalid_secure_message)
    next ← gets (λ c. checked_add_i32 c.receive_sequence (pos 1))
    expected ← lift (ok_or next CryptoError.invalid_secure_message)
    require (actual ==ℤ expected) (CryptoError.sequence_mismatch expected actual)
    modify (λ c. record c { receive_sequence = actual })
    bytes ← lift (ok_or message.message CryptoError.invalid_secure_message)
    lift (ok_or (codecs.offline_frame.decode bytes) CryptoError.protobuf)
