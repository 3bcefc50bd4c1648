-- ===== src/Wire/Payload.antt =====
-- The payload, keep-alive and disconnection frames of src/quick_share_wire.rs.
use hi_rodrop.Prelude.{ℕ, Bool, List, [], ◌∷◌, Option, some, ◌≡◌, refl}
use hi_rodrop.Prelude.Int.{ℤ}
use hi_rodrop.Prelude.Bytes.{Bytes}
use hi_rodrop.Prelude.Utf8.{Text}
use hi_rodrop.Wire.Enumeration.{Enumeration, find_code}

pub data PayloadPacketType : Type 0 where
  unknown data_packet control payload_ack : PayloadPacketType

abbrev pub payload_packet_type_code : PayloadPacketType → ℕ
payload_packet_type_code PayloadPacketType.unknown = 0
payload_packet_type_code PayloadPacketType.data_packet = 1
payload_packet_type_code PayloadPacketType.control = 2
payload_packet_type_code PayloadPacketType.payload_ack = 3

abbrev pub payload_packet_type_variants : List PayloadPacketType
payload_packet_type_variants =
    PayloadPacketType.unknown ∷ PayloadPacketType.data_packet ∷ PayloadPacketType.control
    ∷ PayloadPacketType.payload_ack ∷ []

pub payload_packet_type_covers :
    (v : PayloadPacketType)
    → find_code payload_packet_type_code payload_packet_type_variants (payload_packet_type_code v)
      ≡ some v
payload_packet_type_covers PayloadPacketType.unknown = refl
payload_packet_type_covers PayloadPacketType.data_packet = refl
payload_packet_type_covers PayloadPacketType.control = refl
payload_packet_type_covers PayloadPacketType.payload_ack = refl

instance abbrev pub payload_packet_type_enumeration : Enumeration PayloadPacketType
payload_packet_type_enumeration = record {
  code = payload_packet_type_code;
  variants = payload_packet_type_variants;
  covers = payload_packet_type_covers;
}

pub record PayloadHeader : Type 0 where
  pub id : Option ℤ
  pub payload_type : Option ℤ
  pub total_size : Option ℤ
  pub is_sensitive : Option Bool
  pub file_name : Option Text
  pub parent_folder : Option Text
  pub last_modified_timestamp_millis : Option ℤ

pub data PayloadType : Type 0 where
  unknown bytes file stream : PayloadType

abbrev pub payload_type_code : PayloadType → ℕ
payload_type_code PayloadType.unknown = 0
payload_type_code PayloadType.bytes = 1
payload_type_code PayloadType.file = 2
payload_type_code PayloadType.stream = 3

abbrev pub payload_type_variants : List PayloadType
payload_type_variants =
    PayloadType.unknown ∷ PayloadType.bytes ∷ PayloadType.file ∷ PayloadType.stream ∷ []

pub payload_type_covers :
    (v : PayloadType)
    → find_code payload_type_code payload_type_variants (payload_type_code v) ≡ some v
payload_type_covers PayloadType.unknown = refl
payload_type_covers PayloadType.bytes = refl
payload_type_covers PayloadType.file = refl
payload_type_covers PayloadType.stream = refl

instance abbrev pub payload_type_enumeration : Enumeration PayloadType
payload_type_enumeration = record {
  code = payload_type_code;
  variants = payload_type_variants;
  covers = payload_type_covers;
}

pub record PayloadChunk : Type 0 where
  pub flags : Option ℤ
  pub offset : Option ℤ
  pub body : Option Bytes
  pub index : Option ℤ

pub record PayloadTransferFrame : Type 0 where
  pub packet_type : Option ℤ
  pub payload_header : Option PayloadHeader
  pub payload_chunk : Option PayloadChunk

pub record KeepAliveFrame : Type 0 where
  pub ack : Option Bool
  pub seq_num : Option ℕ

pub record DisconnectionFrame : Type 0 where
  pub request_safe_to_disconnect : Option Bool
  pub ack_safe_to_disconnect : Option Bool
