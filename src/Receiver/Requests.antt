-- ===== src/Receiver/Requests.antt =====
-- `parse_connection_request` and `require_offline_type` of src/quick_share_receiver.rs. An address is of any
-- type.
pub mod Peer
use hi_rodrop.Prelude.{
  ℕ, Option, none, some, Result, ok, err, ok_or, guard, and_then, leb, length, ◌>>=◌, ◌>>◌,
}
use hi_rodrop.Prelude.Int.{is_value}
use hi_rodrop.Prelude.Bytes.{Bytes}
use hi_rodrop.Prelude.Utf8.{Text, from_utf8}
use hi_rodrop.Wire.{OfflineFrame, OfflineFrameType, offline_frame_type_enumeration}
use hi_rodrop.Wire.Enumeration.{as_i32}
use hi_rodrop.Wire.Codec.{Codec}
use hi_rodrop.Discovery.Visible.{device_bits, name_end, name_bytes}
use hi_rodrop.Receiver.Errors.{ReceiveError}

pub record IncomingPeer (Address : Type 0) : Type 0 where
  pub name : Text
  pub device_type : ℕ
  pub address : Address

unfoldable pub require_offline_type :
    OfflineFrame → OfflineFrameType → Result ReceiveError (Unit {0})
require_offline_type frame expected =
    guard (is_value (and_then frame.v1 (λ v1. v1.frame_type)) (as_i32 expected))
      (ReceiveError.protocol "unexpected offline frame type")

module _ {Address : Type 0} (codec : Codec OfflineFrame) where
  unfoldable pub parse_connection_request :
      Bytes → Address → Result ReceiveError (IncomingPeer Address)
  parse_connection_request raw address = do
    frame ← ok_or (codec.decode raw) ReceiveError.protobuf
    require_offline_type frame OfflineFrameType.connection_request
    request ←
        ok_or (and_then frame.v1 (λ v1. v1.connection_request))
          (ReceiveError.protocol "missing connection request")
    info ← ok_or request.endpoint_info (ReceiveError.protocol "missing endpoint info")
    guard (leb 18 (length info)) (ReceiveError.protocol "endpoint info is too short")
    end ← ok_or (name_end info) (ReceiveError.protocol "invalid endpoint name length")
    name ←
        ok_or (from_utf8 (name_bytes info end)) (ReceiveError.protocol "endpoint name is not UTF-8")
    ok (record { name = name; device_type = device_bits info; address = address })
