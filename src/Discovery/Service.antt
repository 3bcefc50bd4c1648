-- ===== src/Discovery/Service.antt =====
-- What mdns-sd hands out for a service that it has resolved, and the addresses that src/quick_share_qr.rs
-- (`socket_addresses`) and src/quick_share_discovery.rs take from it.
use hi_rodrop.Prelude.{ℕ, Bool, true, false, Option, none, some, List, [], ◌∷◌, if◌then◌else◌}
use hi_rodrop.Prelude.Bytes.{Bytes}
use hi_rodrop.Prelude.Utf8.{Text}

pub data ScopedIp : Type 0 where
  v4 : Bytes → ScopedIp
  v6 : Bytes → ℕ → ScopedIp
  other : ScopedIp

pub data SocketAddr : Type 0 where
  v4 : Bytes → ℕ → SocketAddr
  v6 : Bytes → ℕ → ℕ → SocketAddr

pub record ResolvedService : Type 0 where
  pub fullname : Text
  pub endpoint_info : Option Text
  pub addresses : List ScopedIp
  pub port : ℕ

pub data ServiceEvent : Type 0 where
  resolved : ResolvedService → ServiceEvent
  removed : Text → ServiceEvent
  other : ServiceEvent

abbrev pub is_ipv6 : SocketAddr → Bool
is_ipv6 (SocketAddr.v4 ip port) = false
is_ipv6 (SocketAddr.v6 ip port scope) = true

abbrev pub socket_addr : ℕ → ScopedIp → Option SocketAddr
socket_addr port (ScopedIp.v4 ip) = some (SocketAddr.v4 ip port)
socket_addr port (ScopedIp.v6 ip scope) = some (SocketAddr.v6 ip port scope)
socket_addr port ScopedIp.other = none

abbrev cons_some : Option SocketAddr → List SocketAddr → List SocketAddr
cons_some none rest = rest
cons_some (some address) rest = address ∷ rest

unfoldable pub usable : ℕ → List ScopedIp → List SocketAddr
usable port [] = []
usable port (ip ∷ ips) = cons_some (socket_addr port ip) (usable port ips)

-- `sort_by_key(SocketAddr::is_ipv6)`, which keeps the order of equal keys: an address goes in front of the
-- first that does not have a smaller key.
unfoldable pub insert_by_version : SocketAddr → List SocketAddr → List SocketAddr
insert_by_version a [] = a ∷ []
insert_by_version a (b ∷ bs) =
    let rest = insert_by_version a bs in
    if is_ipv6 a then (if is_ipv6 b then a ∷ b ∷ bs else b ∷ rest) else a ∷ b ∷ bs

unfoldable pub sort_by_version : List SocketAddr → List SocketAddr
sort_by_version [] = []
sort_by_version (a ∷ rest) = insert_by_version a (sort_by_version rest)

unfoldable pub socket_addresses : ResolvedService → List SocketAddr
socket_addresses service = sort_by_version (usable service.port service.addresses)
