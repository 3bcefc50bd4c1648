-- ===== src/Receiver/Errors.antt =====
-- `QuickShareReceiveError` of src/quick_share_receiver.rs. A protobuf error carries no detail here.
use Prim.Native.String.{String}
use hi_rodrop.Prelude.{Bool, true, false}
use hi_rodrop.Transport.{ErrorKind, FrameIoError, kind_is_disconnect, is_peer_disconnect}
use hi_rodrop.Crypto.Errors.{CryptoError}

pub data ReceiveError : Type 0 where
  io : ErrorKind → ReceiveError
  frame : FrameIoError → ReceiveError
  crypto : CryptoError → ReceiveError
  protobuf : ReceiveError
  protocol : String → ReceiveError
  disconnected rejected unsafe_metadata transfer_too_large : ReceiveError

-- `is_benign_probe_disconnect`
unfoldable pub is_benign_probe_disconnect : ReceiveError → Bool
unfolding is_peer_disconnect
is_benign_probe_disconnect (ReceiveError.frame error) = is_peer_disconnect error
is_benign_probe_disconnect (ReceiveError.io kind) = kind_is_disconnect kind
is_benign_probe_disconnect ReceiveError.disconnected = true
is_benign_probe_disconnect _ = false
