-- ===== src/Samples/Payloads.antt =====
-- The payload, keep-alive and disconnection frames, field by field.
use hi_rodrop.Prelude.{ℕ, refl, Bool, Option}
use hi_rodrop.Prelude.Int.{ℤ}
use hi_rodrop.Prelude.Bytes.{Bytes}
use hi_rodrop.Prelude.Utf8.{Text}
use hi_rodrop.Wire.{
  PayloadHeader, PayloadChunk, PayloadTransferFrame, KeepAliveFrame, DisconnectionFrame,
}
use hi_rodrop.Samples.Serial.{
  Serial, serial_ℕ, serial_ℤ, serial_Bool, serial_Option, serial_List, ◌&◌, fields,
}

abbrev pub PayloadHeaderFields : Type 0
PayloadHeaderFields =
    Option ℤ × (Option ℤ × (Option ℤ × (Option Bool × (Option Text × (Option Text × Option ℤ)))))

abbrev pub payload_header_of : PayloadHeaderFields → PayloadHeader
payload_header_of (x0, (x1, (x2, (x3, (x4, (x5, x6)))))) = record {
  id = x0;
  payload_type = x1;
  total_size = x2;
  is_sensitive = x3;
  file_name = x4;
  parent_folder = x5;
  last_modified_timestamp_millis = x6;
}

abbrev pub payload_header : Serial PayloadHeader
payload_header =
    fields
      ((serial_Option serial_ℤ)
        & (serial_Option serial_ℤ)
        & (serial_Option serial_ℤ)
        & (serial_Option serial_Bool)
        & (serial_Option (serial_List serial_ℕ))
        & (serial_Option (serial_List serial_ℕ))
        & (serial_Option serial_ℤ))
      (λ m. (
        m.id,
        (
          m.payload_type,
          (
            m.total_size,
            (m.is_sensitive, (m.file_name, (m.parent_folder, m.last_modified_timestamp_millis))),
          ),
        ),
      ))
      payload_header_of (λ m. refl)

abbrev pub PayloadChunkFields : Type 0
PayloadChunkFields = Option ℤ × (Option ℤ × (Option Bytes × Option ℤ))

abbrev pub payload_chunk_of : PayloadChunkFields → PayloadChunk
payload_chunk_of (x0, (x1, (x2, x3))) = record { flags = x0; offset = x1; body = x2; index = x3 }

abbrev pub payload_chunk : Serial PayloadChunk
payload_chunk =
    fields
      ((serial_Option serial_ℤ)
        & (serial_Option serial_ℤ)
        & (serial_Option (serial_List serial_ℕ))
        & (serial_Option serial_ℤ))
      (λ m. (m.flags, (m.offset, (m.body, m.index)))) payload_chunk_of (λ m. refl)

abbrev pub PayloadTransferFrameFields : Type 0
PayloadTransferFrameFields = Option ℤ × (Option PayloadHeader × Option PayloadChunk)

abbrev pub payload_transfer_frame_of : PayloadTransferFrameFields → PayloadTransferFrame
payload_transfer_frame_of (x0, (x1, x2)) = record {
  packet_type = x0;
  payload_header = x1;
  payload_chunk = x2;
}

abbrev pub payload_transfer_frame : Serial PayloadTransferFrame
payload_transfer_frame =
    fields
      ((serial_Option serial_ℤ) & (serial_Option payload_header) & (serial_Option payload_chunk))
      (λ m. (m.packet_type, (m.payload_header, m.payload_chunk))) payload_transfer_frame_of
      (λ m. refl)

abbrev pub KeepAliveFrameFields : Type 0
KeepAliveFrameFields = Option Bool × Option ℕ

abbrev pub keep_alive_frame_of : KeepAliveFrameFields → KeepAliveFrame
keep_alive_frame_of (x0, x1) = record { ack = x0; seq_num = x1 }

abbrev pub keep_alive_frame : Serial KeepAliveFrame
keep_alive_frame =
    fields ((serial_Option serial_Bool) & (serial_Option serial_ℕ)) (λ m. (m.ack, m.seq_num))
      keep_alive_frame_of (λ m. refl)

abbrev pub DisconnectionFrameFields : Type 0
DisconnectionFrameFields = Option Bool × Option Bool

abbrev pub disconnection_frame_of : DisconnectionFrameFields → DisconnectionFrame
disconnection_frame_of (x0, x1) = record {
  request_safe_to_disconnect = x0;
  ack_safe_to_disconnect = x1;
}

abbrev pub disconnection_frame : Serial DisconnectionFrame
disconnection_frame =
    fields ((serial_Option serial_Bool) & (serial_Option serial_Bool))
      (λ m. (m.request_safe_to_disconnect, m.ack_safe_to_disconnect)) disconnection_frame_of
      (λ m. refl)
