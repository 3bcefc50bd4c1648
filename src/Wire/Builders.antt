-- ===== src/Wire/Builders.antt =====
-- `offline_v1` and `sharing_v1` of src/quick_share_wire.rs, and the defaults of the messages that the
-- program builds by `..Default::default()`.
use hi_rodrop.Prelude.{none, some, []}
use hi_rodrop.Wire.Enumeration.{as_i32}
use hi_rodrop.Wire.Connection.{ConnectionRequestFrame}
use hi_rodrop.Wire.Offline.{
  OfflineFrame, OfflineVersion, offline_version_enumeration, OfflineV1Frame, OfflineFrameType,
  offline_frame_type_enumeration,
}
use hi_rodrop.Wire.Attachment.{IntroductionFrame}
use hi_rodrop.Wire.Sharing.{
  SharingFrame, SharingVersion, sharing_version_enumeration, SharingV1Frame, SharingFrameType,
  sharing_frame_type_enumeration,
}

abbrev pub default_offline_v1_frame : OfflineV1Frame
default_offline_v1_frame = record {
  frame_type = none;
  connection_request = none;
  connection_response = none;
  payload_transfer = none;
  keep_alive = none;
  disconnection = none;
}

abbrev pub default_sharing_v1_frame : SharingV1Frame
default_sharing_v1_frame = record {
  frame_type = none;
  introduction = none;
  connection_response = none;
  paired_key_encryption = none;
  paired_key_result = none;
}

abbrev pub default_connection_request : ConnectionRequestFrame
default_connection_request = record {
  endpoint_id = none;
  endpoint_name = none;
  handshake_data = none;
  nonce = none;
  mediums = [];
  endpoint_info = none;
  keep_alive_interval_millis = none;
  keep_alive_timeout_millis = none;
}

abbrev pub default_introduction : IntroductionFrame
default_introduction = record {
  file_metadata = [];
  text_metadata = [];
  required_package = none;
  start_transfer = none;
  use_case = none;
  preview_payload_ids = [];
}

-- `frame.v1.as_mut().expect("v1")` of a frame that `offline_v1` built is the second argument here.
abbrev pub offline_frame : OfflineV1Frame → OfflineFrame
offline_frame v1 = record { version = some (as_i32 OfflineVersion.v1); v1 = some v1 }

abbrev pub offline_v1_frame : OfflineFrameType → OfflineV1Frame
offline_v1_frame t = record default_offline_v1_frame { frame_type = some (as_i32 t) }

abbrev pub offline_v1 : OfflineFrameType → OfflineFrame
offline_v1 t = offline_frame (offline_v1_frame t)

abbrev pub sharing_frame : SharingV1Frame → SharingFrame
sharing_frame v1 = record { version = some (as_i32 SharingVersion.v1); v1 = some v1 }

abbrev pub sharing_v1_frame : SharingFrameType → SharingV1Frame
sharing_v1_frame t = record default_sharing_v1_frame { frame_type = some (as_i32 t) }

abbrev pub sharing_v1 : SharingFrameType → SharingFrame
sharing_v1 t = sharing_frame (sharing_v1_frame t)
