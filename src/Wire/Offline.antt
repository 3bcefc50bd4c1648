-- ===== src/Wire/Offline.antt =====
-- The Nearby Connections frames of src/quick_share_wire.rs: what travels before and inside the
-- encrypted channel.
use hi_rodrop.Prelude.{ℕ, List, [], ◌∷◌, Option, some, ◌≡◌, refl}
use hi_rodrop.Prelude.Int.{ℤ}
use hi_rodrop.Wire.Enumeration.{Enumeration, find_code}
use hi_rodrop.Wire.Payload.{PayloadTransferFrame, KeepAliveFrame, DisconnectionFrame}
use hi_rodrop.Wire.Connection.{ConnectionRequestFrame, ConnectionResponseFrame}

pub data OfflineVersion : Type 0 where
  unknown v1 : OfflineVersion

abbrev pub offline_version_code : OfflineVersion → ℕ
offline_version_code OfflineVersion.unknown = 0
offline_version_code OfflineVersion.v1 = 1

abbrev pub offline_version_variants : List OfflineVersion
offline_version_variants = OfflineVersion.unknown ∷ OfflineVersion.v1 ∷ []

pub offline_version_covers :
    (v : OfflineVersion)
    → find_code offline_version_code offline_version_variants (offline_version_code v) ≡ some v
offline_version_covers OfflineVersion.unknown = refl
offline_version_covers OfflineVersion.v1 = refl

instance abbrev pub offline_version_enumeration : Enumeration OfflineVersion
offline_version_enumeration = record {
  code = offline_version_code;
  variants = offline_version_variants;
  covers = offline_version_covers;
}

pub data OfflineFrameType : Type 0 where
  unknown connection_request connection_response payload_transfer : OfflineFrameType
  bandwidth_upgrade_negotiation keep_alive disconnection paired_key_encryption : OfflineFrameType
  authentication_message authentication_result auto_resume auto_reconnect : OfflineFrameType
  bandwidth_upgrade_retry : OfflineFrameType

abbrev pub offline_frame_type_code : OfflineFrameType → ℕ
offline_frame_type_code OfflineFrameType.unknown = 0
offline_frame_type_code OfflineFrameType.connection_request = 1
offline_frame_type_code OfflineFrameType.connection_response = 2
offline_frame_type_code OfflineFrameType.payload_transfer = 3
offline_frame_type_code OfflineFrameType.bandwidth_upgrade_negotiation = 4
offline_frame_type_code OfflineFrameType.keep_alive = 5
offline_frame_type_code OfflineFrameType.disconnection = 6
offline_frame_type_code OfflineFrameType.paired_key_encryption = 7
offline_frame_type_code OfflineFrameType.authentication_message = 8
offline_frame_type_code OfflineFrameType.authentication_result = 9
offline_frame_type_code OfflineFrameType.auto_resume = 10
offline_frame_type_code OfflineFrameType.auto_reconnect = 11
offline_frame_type_code OfflineFrameType.bandwidth_upgrade_retry = 12

abbrev pub offline_frame_type_variants : List OfflineFrameType
offline_frame_type_variants =
    OfflineFrameType.unknown ∷ OfflineFrameType.connection_request
    ∷ OfflineFrameType.connection_response ∷ OfflineFrameType.payload_transfer
    ∷ OfflineFrameType.bandwidth_upgrade_negotiation ∷ OfflineFrameType.keep_alive
    ∷ OfflineFrameType.disconnection ∷ OfflineFrameType.paired_key_encryption
    ∷ OfflineFrameType.authentication_message ∷ OfflineFrameType.authentication_result
    ∷ OfflineFrameType.auto_resume ∷ OfflineFrameType.auto_reconnect
    ∷ OfflineFrameType.bandwidth_upgrade_retry ∷ []

pub offline_frame_type_covers :
    (v : OfflineFrameType)
    → find_code offline_frame_type_code offline_frame_type_variants (offline_frame_type_code v)
      ≡ some v
offline_frame_type_covers OfflineFrameType.unknown = refl
offline_frame_type_covers OfflineFrameType.connection_request = refl
offline_frame_type_covers OfflineFrameType.connection_response = refl
offline_frame_type_covers OfflineFrameType.payload_transfer = refl
offline_frame_type_covers OfflineFrameType.bandwidth_upgrade_negotiation = refl
offline_frame_type_covers OfflineFrameType.keep_alive = refl
offline_frame_type_covers OfflineFrameType.disconnection = refl
offline_frame_type_covers OfflineFrameType.paired_key_encryption = refl
offline_frame_type_covers OfflineFrameType.authentication_message = refl
offline_frame_type_covers OfflineFrameType.authentication_result = refl
offline_frame_type_covers OfflineFrameType.auto_resume = refl
offline_frame_type_covers OfflineFrameType.auto_reconnect = refl
offline_frame_type_covers OfflineFrameType.bandwidth_upgrade_retry = refl

instance abbrev pub offline_frame_type_enumeration : Enumeration OfflineFrameType
offline_frame_type_enumeration = record {
  code = offline_frame_type_code;
  variants = offline_frame_type_variants;
  covers = offline_frame_type_covers;
}

pub record OfflineV1Frame : Type 0 where
  pub frame_type : Option ℤ
  pub connection_request : Option ConnectionRequestFrame
  pub connection_response : Option ConnectionResponseFrame
  pub payload_transfer : Option PayloadTransferFrame
  pub keep_alive : Option KeepAliveFrame
  pub disconnection : Option DisconnectionFrame

pub record OfflineFrame : Type 0 where
  pub version : Option ℤ
  pub v1 : Option OfflineV1Frame
