-- ===== src/Discovery/Browser.antt =====
-- `QuickShareBrowser` of src/quick_share_discovery.rs: the devices among the services that mdns-sd reports.
use hi_rodrop.Prelude.{Option, none, some, List, [], ◌∷◌, and_then}
use hi_rodrop.Prelude.Utf8.{Text}
use hi_rodrop.Discovery.External.{Base64}
use hi_rodrop.Discovery.Advertisement.{QuickShareDeviceType}
use hi_rodrop.Discovery.Visible.{decode_visible_endpoint_info}
use hi_rodrop.Discovery.Service.{ResolvedService, ServiceEvent, SocketAddr, socket_addresses}

pub record NearbyQuickShareDevice : Type 0 where
  pub id : Text
  pub name : Text
  pub device_type : QuickShareDeviceType
  pub addresses : List SocketAddr

pub data QuickShareDiscoveryEvent : Type 0 where
  found : NearbyQuickShareDevice → QuickShareDiscoveryEvent
  removed : Text → QuickShareDiscoveryEvent

abbrev pub device_at :
    Text → Text × QuickShareDeviceType → List SocketAddr → Option NearbyQuickShareDevice
device_at id decoded [] = none
device_at id decoded (a ∷ rest) =
    some (record { id = id; name = decoded.0; device_type = decoded.1; addresses = a ∷ rest })

abbrev cons_found :
    Option NearbyQuickShareDevice → List QuickShareDiscoveryEvent → List QuickShareDiscoveryEvent
cons_found none rest = rest
cons_found (some device) rest = QuickShareDiscoveryEvent.found device ∷ rest

module _ (base64 : Base64) where
  unfoldable pub device_from_service : ResolvedService → Option NearbyQuickShareDevice
  device_from_service service = and_then service.endpoint_info λ encoded.
      and_then (decode_visible_endpoint_info base64 encoded)
        λ decoded. device_at service.fullname decoded (socket_addresses service)

  -- The events that wait when `poll` is called.
  unfoldable pub poll : List ServiceEvent → List QuickShareDiscoveryEvent
  poll [] = []
  poll (ServiceEvent.resolved service ∷ events) =
      cons_found (device_from_service service) (poll events)
  poll (ServiceEvent.removed fullname ∷ events) =
      QuickShareDiscoveryEvent.removed fullname ∷ poll events
  poll (ServiceEvent.other ∷ events) = poll events
