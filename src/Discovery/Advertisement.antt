-- ===== src/Discovery/Advertisement.antt =====
-- `QuickShareAdvertisementData` of src/quick_share.rs: the bytes in the DNS-SD label and TXT record.
use hi_rodrop.Prelude.{
  ℕ, ◌*◌, [], ◌∷◌, ◌++◌, ◌||◌, ltb, ◌==◌, if◌then◌else◌, Result, ok, err, length,
}
use hi_rodrop.Prelude.Bytes.{Bytes}
use hi_rodrop.Prelude.Utf8.{Text, as_bytes}
use hi_rodrop.Discovery.External.{Base64}
use hi_rodrop.Discovery.EndpointId.{QuickShareError, generate}

pub data QuickShareDeviceType : Type 0 where
  unknown phone tablet laptop : QuickShareDeviceType

-- `device_type as u8`
abbrev pub device_type_code : QuickShareDeviceType → ℕ
device_type_code QuickShareDeviceType.unknown = 0
device_type_code QuickShareDeviceType.phone = 1
device_type_code QuickShareDeviceType.tablet = 2
device_type_code QuickShareDeviceType.laptop = 3

pub record QuickShareAdvertisementData : Type 0 where
  pub endpoint_id : Bytes
  pub instance_name : Text
  pub endpoint_info : Text

abbrev pub pcp_point_to_point : ℕ
pcp_point_to_point = 0x23

abbrev pub quick_share_service_id : Bytes
quick_share_service_id = 0xFC ∷ 0x9F ∷ 0x5E ∷ []

abbrev pub instance_bytes : Bytes → Bytes
instance_bytes endpoint_id =
    pcp_point_to_point ∷ (endpoint_id ++ (quick_share_service_id ++ (0 ∷ 0 ∷ [])))

-- `name.len() as u8` is the length itself, which the guard keeps at most 255.
abbrev pub endpoint_info_bytes : Bytes → QuickShareDeviceType → Bytes → Bytes
endpoint_info_bytes metadata device_type name =
    device_type_code device_type * 2 ∷ (metadata ++ (length name ∷ name))

module _ (base64 : Base64) where
  unfoldable pub from_parts :
      Bytes
      → Bytes
      → QuickShareDeviceType
      → Text
      → Result QuickShareError QuickShareAdvertisementData
  from_parts endpoint_id metadata device_type display_name =
      let name = as_bytes display_name in
      if length name == 0 || ltb 255 (length name)
      then err QuickShareError.invalid_device_name
      else ok (record {
        endpoint_id = endpoint_id;
        instance_name = base64.encode (instance_bytes endpoint_id);
        endpoint_info = base64.encode (endpoint_info_bytes metadata device_type name);
      })

  -- `QuickShareAdvertisementData::generate`, with the random bytes as arguments
  unfoldable pub generate_data :
      Bytes → Bytes → Text → Result QuickShareError QuickShareAdvertisementData
  generate_data entropy metadata display_name =
      from_parts (generate entropy) metadata QuickShareDeviceType.laptop display_name
