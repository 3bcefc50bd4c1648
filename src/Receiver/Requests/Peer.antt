-- ===== src/Receiver/Requests/Peer.antt =====
-- The peer that src/quick_share_receiver.rs sees in the request of src/quick_share_sender.rs.
use hi_rodrop.Prelude.{
  ℕ, ◌+◌, ◌≤◌, ◌<◌, ◌≡◌, refl, ok, false, [], ◌||◌, ◌==◌, ltb, length, arith, All, le→leb,
}
use mathlib.Core.List.{append-nil}
use hi_rodrop.Prelude.Bytes.{Bytes, IsByte}
use hi_rodrop.Prelude.Utf8.{Text, as_bytes}
use hi_rodrop.Prelude.Utf8.RoundTrip.{as_bytes-IsByte, from_utf8-as_bytes}
use hi_rodrop.Wire.{OfflineFrame}
use hi_rodrop.Wire.Codec.{Codec}
use hi_rodrop.Discovery.External.{Base64}
use hi_rodrop.Discovery.Advertisement.{QuickShareDeviceType, endpoint_info_bytes, from_parts}
use hi_rodrop.Discovery.Announced.{IsName, Read, endpoint_info-Read, info-IsByte}
use hi_rodrop.Sender.Connection.{connection_request_frame, connection_frame}
use hi_rodrop.Discovery.Visible.{device_bits}
use hi_rodrop.Receiver.Requests.{require_offline_type, parse_connection_request}

accepted : (k : ℕ) → 0 < k → k ≤ 255 → ((k == 0) || ltb 255 k) ≡ false
accepted k h h' = ground arith

module _ {Address : Type 0} (codec : Codec OfflineFrame) (base64 : Base64) where
  parse-Read :
      (endpoint_id metadata : Bytes) (name : Text) (info : Bytes) (address : Address)
      → IsName name
      → Read metadata QuickShareDeviceType.laptop (as_bytes name) [] info
      → parse_connection_request codec
          (codec.encode (connection_request_frame endpoint_id name info))
          address
        ≡ ok (record { name = name; device_type = device_bits info; address = address })
  unfolding parse_connection_request require_offline_type
  parse-Read endpoint_id metadata name info address n r =
      rw
        (
          codec.decode-encode (connection_request_frame endpoint_id name info),
          le→leb 18 (length info) (omega arith),
          r.length_byte,
          le→leb (18 + length (as_bytes name)) (length info) r.long,
          r.name_at,
          from_utf8-as_bytes name n.scalars,
        )
        refl

  -- For every name of 1 to 255 bytes of UTF-8 and 16 bytes of metadata, the sender builds a connection
  -- request, and the receiver reads from its encoding the name and the number of a laptop.
  pub parse_connection_request-connection_frame :
      (endpoint_id metadata : Bytes) (name : Text) (address : Address)
      → IsName name
      → length metadata ≡ 16
      → All IsByte metadata
      → (frame : OfflineFrame) × (connection_frame base64 endpoint_id metadata name ≡ ok frame)
        × (parse_connection_request codec (codec.encode frame) address
            ≡ ok (record { name = name; device_type = 3; address = address }))
  unfolding connection_frame from_parts
  parse_connection_request-connection_frame endpoint_id metadata name address n h b =
      let info = endpoint_info_bytes metadata QuickShareDeviceType.laptop (as_bytes name) in
      let whole = base64.decode-encode info (
        info-IsByte metadata QuickShareDeviceType.laptop (as_bytes name) n.fits b
          (as_bytes-IsByte name n.scalars)) in
      let read : Read metadata QuickShareDeviceType.laptop (as_bytes name) [] info =
        rw (append-nil info) at
          (endpoint_info-Read metadata QuickShareDeviceType.laptop (as_bytes name) [] h) in
      (
        connection_request_frame endpoint_id name info,
        rw (accepted (length (as_bytes name)) n.nonempty n.fits, whole) refl,
        parse-Read endpoint_id metadata name info address n read,
      )
