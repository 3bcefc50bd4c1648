-- ===== src/Wire/Connection.antt =====
-- The connection request and response of src/quick_share_wire.rs.
use hi_rodrop.Prelude.{ℕ, List, [], ◌∷◌, Option, some, ◌≡◌, refl}
use hi_rodrop.Prelude.Int.{ℤ}
use hi_rodrop.Prelude.Bytes.{Bytes}
use hi_rodrop.Prelude.Utf8.{Text}
use hi_rodrop.Wire.Enumeration.{Enumeration, find_code}

pub record ConnectionRequestFrame : Type 0 where
  pub endpoint_id : Option Text
  pub endpoint_name : Option Bytes
  pub handshake_data : Option Bytes
  pub nonce : Option ℤ
  pub mediums : List ℤ
  pub endpoint_info : Option Bytes
  pub keep_alive_interval_millis : Option ℤ
  pub keep_alive_timeout_millis : Option ℤ

pub data ConnectionMedium : Type 0 where
  unknown mdns bluetooth wifi_hotspot ble wifi_lan wifi_aware nfc wifi_direct web_rtc :
      ConnectionMedium
  ble_l2cap usb web_rtc_non_cellular awdl : ConnectionMedium

abbrev pub connection_medium_code : ConnectionMedium → ℕ
connection_medium_code ConnectionMedium.unknown = 0
connection_medium_code ConnectionMedium.mdns = 1
connection_medium_code ConnectionMedium.bluetooth = 2
connection_medium_code ConnectionMedium.wifi_hotspot = 3
connection_medium_code ConnectionMedium.ble = 4
connection_medium_code ConnectionMedium.wifi_lan = 5
connection_medium_code ConnectionMedium.wifi_aware = 6
connection_medium_code ConnectionMedium.nfc = 7
connection_medium_code ConnectionMedium.wifi_direct = 8
connection_medium_code ConnectionMedium.web_rtc = 9
connection_medium_code ConnectionMedium.ble_l2cap = 10
connection_medium_code ConnectionMedium.usb = 11
connection_medium_code ConnectionMedium.web_rtc_non_cellular = 12
connection_medium_code ConnectionMedium.awdl = 13

abbrev pub connection_medium_variants : List ConnectionMedium
connection_medium_variants =
    ConnectionMedium.unknown ∷ ConnectionMedium.mdns ∷ ConnectionMedium.bluetooth
    ∷ ConnectionMedium.wifi_hotspot ∷ ConnectionMedium.ble ∷ ConnectionMedium.wifi_lan
    ∷ ConnectionMedium.wifi_aware ∷ ConnectionMedium.nfc ∷ ConnectionMedium.wifi_direct
    ∷ ConnectionMedium.web_rtc ∷ ConnectionMedium.ble_l2cap ∷ ConnectionMedium.usb
    ∷ ConnectionMedium.web_rtc_non_cellular ∷ ConnectionMedium.awdl ∷ []

pub connection_medium_covers :
    (v : ConnectionMedium)
    → find_code connection_medium_code connection_medium_variants (connection_medium_code v)
      ≡ some v
connection_medium_covers ConnectionMedium.unknown = refl
connection_medium_covers ConnectionMedium.mdns = refl
connection_medium_covers ConnectionMedium.bluetooth = refl
connection_medium_covers ConnectionMedium.wifi_hotspot = refl
connection_medium_covers ConnectionMedium.ble = refl
connection_medium_covers ConnectionMedium.wifi_lan = refl
connection_medium_covers ConnectionMedium.wifi_aware = refl
connection_medium_covers ConnectionMedium.nfc = refl
connection_medium_covers ConnectionMedium.wifi_direct = refl
connection_medium_covers ConnectionMedium.web_rtc = refl
connection_medium_covers ConnectionMedium.ble_l2cap = refl
connection_medium_covers ConnectionMedium.usb = refl
connection_medium_covers ConnectionMedium.web_rtc_non_cellular = refl
connection_medium_covers ConnectionMedium.awdl = refl

instance abbrev pub connection_medium_enumeration : Enumeration ConnectionMedium
connection_medium_enumeration = record {
  code = connection_medium_code;
  variants = connection_medium_variants;
  covers = connection_medium_covers;
}

pub data ConnectionResponseStatus : Type 0 where
  unknown accept reject : ConnectionResponseStatus

abbrev pub connection_response_status_code : ConnectionResponseStatus → ℕ
connection_response_status_code ConnectionResponseStatus.unknown = 0
connection_response_status_code ConnectionResponseStatus.accept = 1
connection_response_status_code ConnectionResponseStatus.reject = 2

abbrev pub connection_response_status_variants : List ConnectionResponseStatus
connection_response_status_variants =
    ConnectionResponseStatus.unknown ∷ ConnectionResponseStatus.accept
    ∷ ConnectionResponseStatus.reject ∷ []

pub connection_response_status_covers :
    (v : ConnectionResponseStatus)
    → find_code connection_response_status_code connection_response_status_variants
        (connection_response_status_code v)
      ≡ some v
connection_response_status_covers ConnectionResponseStatus.unknown = refl
connection_response_status_covers ConnectionResponseStatus.accept = refl
connection_response_status_covers ConnectionResponseStatus.reject = refl

instance abbrev pub connection_response_status_enumeration : Enumeration ConnectionResponseStatus
connection_response_status_enumeration = record {
  code = connection_response_status_code;
  variants = connection_response_status_variants;
  covers = connection_response_status_covers;
}

pub record OsInfo : Type 0 where
  pub os_type : Option ℤ

pub record ConnectionResponseFrame : Type 0 where
  pub status : Option ℤ
  pub handshake_data : Option Bytes
  pub response : Option ℤ
  pub os_info : Option OsInfo
  pub multiplex_socket_bitmask : Option ℤ
  pub nearby_connections_version : Option ℤ
  pub safe_to_disconnect_version : Option ℤ
  pub keep_alive_timeout_millis : Option ℤ

pub data OsType : Type 0 where
  unknown android chrome_os windows apple linux : OsType

abbrev pub os_type_code : OsType → ℕ
os_type_code OsType.unknown = 0
os_type_code OsType.android = 1
os_type_code OsType.chrome_os = 2
os_type_code OsType.windows = 3
os_type_code OsType.apple = 4
os_type_code OsType.linux = 100

abbrev pub os_type_variants : List OsType
os_type_variants =
    OsType.unknown ∷ OsType.android ∷ OsType.chrome_os ∷ OsType.windows ∷ OsType.apple
    ∷ OsType.linux ∷ []

pub os_type_covers :
    (v : OsType) → find_code os_type_code os_type_variants (os_type_code v) ≡ some v
os_type_covers OsType.unknown = refl
os_type_covers OsType.android = refl
os_type_covers OsType.chrome_os = refl
os_type_covers OsType.windows = refl
os_type_covers OsType.apple = refl
os_type_covers OsType.linux = refl

instance abbrev pub os_type_enumeration : Enumeration OsType
os_type_enumeration = record {
  code = os_type_code;
  variants = os_type_variants;
  covers = os_type_covers;
}
