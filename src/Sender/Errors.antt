-- ===== src/Sender/Errors.antt =====
-- `QuickShareSendError` of src/quick_share_sender.rs. The errors of protobuf and of the QR session carry no
-- detail here.
use Prim.Native.String.{String}
use hi_rodrop.Prelude.{Bool, true, false}
use hi_rodrop.Prelude.Utf8.{Text}
use hi_rodrop.Transport.{ErrorKind, FrameIoError}
use hi_rodrop.Crypto.Errors.{CryptoError}

pub data SendError : Type 0 where
  io : ErrorKind → SendError
  frame : FrameIoError → SendError
  crypto : CryptoError → SendError
  protobuf qr : SendError
  invalid_file : Text → SendError
  transfer_too_large : SendError
  protocol : String → SendError
  rejected : SendError

-- `is_retryable`
unfoldable pub is_retryable : SendError → Bool
is_retryable (SendError.io kind) = true
is_retryable (SendError.frame error) = true
is_retryable (SendError.crypto error) = true
is_retryable SendError.protobuf = true
is_retryable (SendError.protocol message) = true
is_retryable _ = false
