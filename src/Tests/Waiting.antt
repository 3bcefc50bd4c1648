-- ===== src/Tests/Waiting.antt =====
-- The properties of the services that are found, at a concrete service.
use hi_rodrop.Prelude.{◌≡◌, some, [], ◌∷◌}
use hi_rodrop.Prelude.Utf8.{chars}
use hi_rodrop.Discovery.Service.{ScopedIp, SocketAddr, ResolvedService, socket_addresses}
use hi_rodrop.Discovery.Order.{ipv4_at, ipv6_at, socket_addresses_order}

abbrev service : ResolvedService
service = record {
  fullname = chars "phone";
  endpoint_info = some (chars "x");
  addresses =
      ScopedIp.v6 (9 ∷ []) 2 ∷ ScopedIp.v4 (1 ∷ []) ∷ ScopedIp.other ∷ ScopedIp.v4 (2 ∷ []) ∷ [];
  port = 80;
}

socket_addresses_order_example :
    socket_addresses service
    ≡ SocketAddr.v4 (1 ∷ []) 80 ∷ SocketAddr.v4 (2 ∷ []) 80 ∷ SocketAddr.v6 (9 ∷ []) 80 2 ∷ []
unfolding ipv4_at ipv6_at
socket_addresses_order_example = socket_addresses_order service
