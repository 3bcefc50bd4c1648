-- ===== src/Samples/Frames.antt =====
-- The frames that travel encrypted, field by field.
use hi_rodrop.Prelude.{refl, Option, List}
use hi_rodrop.Prelude.Int.{ℤ}
use hi_rodrop.Prelude.Bytes.{Bytes}
use hi_rodrop.Prelude.Utf8.{Text}
use hi_rodrop.Wire.{
  PayloadTransferFrame, KeepAliveFrame, DisconnectionFrame, ConnectionRequestFrame, OsInfo,
  ConnectionResponseFrame, OfflineV1Frame, OfflineFrame,
}
use hi_rodrop.Samples.Serial.{Serial, serial_ℕ, serial_ℤ, serial_Option, serial_List, ◌&◌, fields}
use hi_rodrop.Samples.Payloads.{payload_transfer_frame, keep_alive_frame, disconnection_frame}

abbrev pub ConnectionRequestFrameFields : Type 0
ConnectionRequestFrameFields =
    Option Text
    × (Option Bytes
        × (Option Bytes × (Option ℤ × (List ℤ × (Option Bytes × (Option ℤ × Option ℤ))))))

abbrev pub connection_request_frame_of : ConnectionRequestFrameFields → ConnectionRequestFrame
connection_request_frame_of (x0, (x1, (x2, (x3, (x4, (x5, (x6, x7))))))) = record {
  endpoint_id = x0;
  endpoint_name = x1;
  handshake_data = x2;
  nonce = x3;
  mediums = x4;
  endpoint_info = x5;
  keep_alive_interval_millis = x6;
  keep_alive_timeout_millis = x7;
}

abbrev pub connection_request_frame : Serial ConnectionRequestFrame
connection_request_frame =
    fields
      ((serial_Option (serial_List serial_ℕ))
        & (serial_Option (serial_List serial_ℕ))
        & (serial_Option (serial_List serial_ℕ))
        & (serial_Option serial_ℤ)
        & (serial_List serial_ℤ)
        & (serial_Option (serial_List serial_ℕ))
        & (serial_Option serial_ℤ)
        & (serial_Option serial_ℤ))
      (λ m. (
        m.endpoint_id,
        (
          m.endpoint_name,
          (
            m.handshake_data,
            (
              m.nonce,
              (
                m.mediums,
                (m.endpoint_info, (m.keep_alive_interval_millis, m.keep_alive_timeout_millis)),
              ),
            ),
          ),
        ),
      ))
      connection_request_frame_of (λ m. refl)

abbrev pub OsInfoFields : Type 0
OsInfoFields = Option ℤ

abbrev pub os_info_of : OsInfoFields → OsInfo
os_info_of x0 = record { os_type = x0 }

abbrev pub os_info : Serial OsInfo
os_info = fields ((serial_Option serial_ℤ)) (λ m. m.os_type) os_info_of (λ m. refl)

abbrev pub ConnectionResponseFrameFields : Type 0
ConnectionResponseFrameFields =
    Option ℤ
    × (Option Bytes
        × (Option ℤ × (Option OsInfo × (Option ℤ × (Option ℤ × (Option ℤ × Option ℤ))))))

abbrev pub connection_response_frame_of : ConnectionResponseFrameFields → ConnectionResponseFrame
connection_response_frame_of (x0, (x1, (x2, (x3, (x4, (x5, (x6, x7))))))) = record {
  status = x0;
  handshake_data = x1;
  response = x2;
  os_info = x3;
  multiplex_socket_bitmask = x4;
  nearby_connections_version = x5;
  safe_to_disconnect_version = x6;
  keep_alive_timeout_millis = x7;
}

abbrev pub connection_response_frame : Serial ConnectionResponseFrame
connection_response_frame =
    fields
      ((serial_Option serial_ℤ)
        & (serial_Option (serial_List serial_ℕ))
        & (serial_Option serial_ℤ)
        & (serial_Option os_info)
        & (serial_Option serial_ℤ)
        & (serial_Option serial_ℤ)
        & (serial_Option serial_ℤ)
        & (serial_Option serial_ℤ))
      (λ m. (
        m.status,
        (
          m.handshake_data,
          (
            m.response,
            (
              m.os_info,
              (
                m.multiplex_socket_bitmask,
                (
                  m.nearby_connections_version,
                  (m.safe_to_disconnect_version, m.keep_alive_timeout_millis),
                ),
              ),
            ),
          ),
        ),
      ))
      connection_response_frame_of (λ m. refl)

abbrev pub OfflineV1FrameFields : Type 0
OfflineV1FrameFields =
    Option ℤ
    × (Option ConnectionRequestFrame
        × (Option ConnectionResponseFrame
            × (Option PayloadTransferFrame × (Option KeepAliveFrame × Option DisconnectionFrame))))

abbrev pub offline_v1_frame_of : OfflineV1FrameFields → OfflineV1Frame
offline_v1_frame_of (x0, (x1, (x2, (x3, (x4, x5))))) = record {
  frame_type = x0;
  connection_request = x1;
  connection_response = x2;
  payload_transfer = x3;
  keep_alive = x4;
  disconnection = x5;
}

abbrev pub offline_v1_frame : Serial OfflineV1Frame
offline_v1_frame =
    fields
      ((serial_Option serial_ℤ)
        & (serial_Option connection_request_frame)
        & (serial_Option connection_response_frame)
        & (serial_Option payload_transfer_frame)
        & (serial_Option keep_alive_frame)
        & (serial_Option disconnection_frame))
      (λ m. (
        m.frame_type,
        (
          m.connection_request,
          (m.connection_response, (m.payload_transfer, (m.keep_alive, m.disconnection))),
        ),
      ))
      offline_v1_frame_of (λ m. refl)

abbrev pub OfflineFrameFields : Type 0
OfflineFrameFields = Option ℤ × Option OfflineV1Frame

abbrev pub offline_frame_of : OfflineFrameFields → OfflineFrame
offline_frame_of (x0, x1) = record { version = x0; v1 = x1 }

abbrev pub offline_frame : Serial OfflineFrame
offline_frame =
    fields ((serial_Option serial_ℤ) & (serial_Option offline_v1_frame)) (λ m. (m.version, m.v1))
      offline_frame_of (λ m. refl)
