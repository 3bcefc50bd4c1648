-- ===== src/Discovery/Order.antt =====
-- The order of the addresses of a service (src/quick_share_qr.rs, src/quick_share_discovery.rs).
use hi_rodrop.Prelude.{
  ℕ, ◌≡◌, refl, ap, ◌∙◌, inl, inr, Bool, Bool-cases, true, false, not, List, [], ◌∷◌, ◌++◌,
  if◌then◌else◌,
}
use hi_rodrop.Discovery.Service.{
  ScopedIp, ResolvedService, SocketAddr, is_ipv6, usable, insert_by_version, sort_by_version,
  socket_addresses,
}

-- The addresses that pass a test, in order.
unfoldable pub those : (SocketAddr → Bool) → List SocketAddr → List SocketAddr
those test [] = []
those test (a ∷ rest) = let later = those test rest in if test a then a ∷ later else later

abbrev pub is_ipv4 : SocketAddr → Bool
is_ipv4 a = not (is_ipv6 a)

insert_old :
    (a : SocketAddr) (bs : List SocketAddr) → is_ipv6 a ≡ false → insert_by_version a bs ≡ a ∷ bs
unfolding insert_by_version
insert_old a [] h = refl
insert_old a (b ∷ bs) h = rw h refl

insert_new :
    (a : SocketAddr) (rest : List SocketAddr)
    → is_ipv6 a ≡ true
    → (xs : List SocketAddr)
    → insert_by_version a (those is_ipv4 xs ++ those is_ipv6 rest)
      ≡ those is_ipv4 xs ++ (a ∷ those is_ipv6 rest)
unfolding insert_by_version those
insert_new a rest h (x ∷ xs) = elim (Bool-cases (is_ipv6 x)) [
  | inl k ↦ rw k (insert_new a rest h xs)
  | inr k ↦ rw (k, h) (rw k (ap (λ (ys : List SocketAddr). x ∷ ys) (insert_new a rest h xs)))
]
insert_new a [] h [] = refl
insert_new a (b ∷ bs) h [] = elim (Bool-cases (is_ipv6 b)) [
  | inl k ↦ rw (k, h) (rw k refl)
  | inr k ↦ rw k (insert_new a bs h [])
]

sorted : (as' : List SocketAddr) → sort_by_version as' ≡ those is_ipv4 as' ++ those is_ipv6 as'
unfolding sort_by_version those
sorted [] = refl
sorted (a ∷ rest) = ap (insert_by_version a) (sorted rest) ∙ elim (Bool-cases (is_ipv6 a)) [
  | inl h ↦ rw h (insert_new a rest h rest)
  | inr h ↦ rw h (insert_old a (those is_ipv4 rest ++ those is_ipv6 rest) h)
]

-- The addresses of IPv4 in a list, at a port.
unfoldable pub ipv4_at : ℕ → List ScopedIp → List SocketAddr
ipv4_at port [] = []
ipv4_at port (ScopedIp.v4 ip ∷ ips) = SocketAddr.v4 ip port ∷ ipv4_at port ips
ipv4_at port (ScopedIp.v6 ip scope ∷ ips) = ipv4_at port ips
ipv4_at port (ScopedIp.other ∷ ips) = ipv4_at port ips

-- The addresses of IPv6 in a list, each with its scope, at a port.
unfoldable pub ipv6_at : ℕ → List ScopedIp → List SocketAddr
ipv6_at port [] = []
ipv6_at port (ScopedIp.v4 ip ∷ ips) = ipv6_at port ips
ipv6_at port (ScopedIp.v6 ip scope ∷ ips) = SocketAddr.v6 ip port scope ∷ ipv6_at port ips
ipv6_at port (ScopedIp.other ∷ ips) = ipv6_at port ips

those-ipv4 : (port : ℕ) (ips : List ScopedIp) → those is_ipv4 (usable port ips) ≡ ipv4_at port ips
unfolding those usable ipv4_at
those-ipv4 port [] = refl
those-ipv4 port (ScopedIp.v4 ip ∷ ips) =
    ap (λ (rest : List SocketAddr). SocketAddr.v4 ip port ∷ rest) (those-ipv4 port ips)
those-ipv4 port (ScopedIp.v6 ip scope ∷ ips) = those-ipv4 port ips
those-ipv4 port (ScopedIp.other ∷ ips) = those-ipv4 port ips

those-ipv6 : (port : ℕ) (ips : List ScopedIp) → those is_ipv6 (usable port ips) ≡ ipv6_at port ips
unfolding those usable ipv6_at
those-ipv6 port [] = refl
those-ipv6 port (ScopedIp.v4 ip ∷ ips) = those-ipv6 port ips
those-ipv6 port (ScopedIp.v6 ip scope ∷ ips) =
    ap (λ (rest : List SocketAddr). SocketAddr.v6 ip port scope ∷ rest) (those-ipv6 port ips)
those-ipv6 port (ScopedIp.other ∷ ips) = those-ipv6 port ips

-- The addresses to connect to are all IPv4 addresses of the service and behind them all its IPv6 addresses with
-- their scopes, each at the service's port, and of each kind in the order in which the service
-- lists them.
pub socket_addresses_order :
    (service : ResolvedService)
    → socket_addresses service
      ≡ ipv4_at service.port service.addresses ++ ipv6_at service.port service.addresses
unfolding socket_addresses
socket_addresses_order service =
    sorted (usable service.port service.addresses)
    ∙ ap (λ xs. xs ++ those is_ipv6 (usable service.port service.addresses))
        (those-ipv4 service.port service.addresses)
    ∙ ap (λ ys. ipv4_at service.port service.addresses ++ ys)
        (those-ipv6 service.port service.addresses)
