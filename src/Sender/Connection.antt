-- ===== src/Sender/Connection.antt =====
-- The connection request of src/quick_share_sender.rs (`send_connection_request`). The random endpoint id
-- and metadata are arguments.
use hi_rodrop.Prelude.{some, [], ◌∷◌, Result, ok, ok_or, map_err, ◌>>=◌}
use hi_rodrop.Prelude.Bytes.{Bytes}
use hi_rodrop.Prelude.Utf8.{Text, as_bytes}
use hi_rodrop.Wire.{
  OfflineFrame, OfflineFrameType, offline_frame_type_enumeration, ConnectionMedium,
  connection_medium_enumeration, offline_frame, offline_v1_frame, default_connection_request,
}
use hi_rodrop.Wire.Enumeration.{as_i32}
use hi_rodrop.Discovery.External.{Base64}
use hi_rodrop.Discovery.Advertisement.{QuickShareDeviceType, from_parts}
use hi_rodrop.Sender.Errors.{SendError}

-- An endpoint id is ASCII, so its bytes are its characters.
abbrev pub connection_request_frame : Bytes → Text → Bytes → OfflineFrame
connection_request_frame endpoint_id display_name endpoint_info =
    offline_frame (record (offline_v1_frame OfflineFrameType.connection_request) {
      connection_request = some (record default_connection_request {
        endpoint_id = some endpoint_id;
        endpoint_name = some (as_bytes display_name);
        mediums = as_i32 ConnectionMedium.wifi_lan ∷ [];
        endpoint_info = some endpoint_info;
      });
    })

module _ (base64 : Base64) where
  unfoldable pub connection_frame : Bytes → Bytes → Text → Result SendError OfflineFrame
  connection_frame endpoint_id metadata display_name = do
    data' ←
        map_err (λ e. SendError.protocol "invalid desktop device name")
          (from_parts base64 endpoint_id metadata QuickShareDeviceType.laptop display_name)
    endpoint_info ←
        ok_or (base64.decode data'.endpoint_info)
          (SendError.protocol "failed to build endpoint info")
    ok (connection_request_frame endpoint_id display_name endpoint_info)
