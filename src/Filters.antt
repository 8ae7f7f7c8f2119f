-- ===== src/Filters.antt =====
-- dht_filters.go: which addresses are public or private, and which peers the filters of the queries and of
-- the routing table accept. Addresses, IPs and ranges are go-libp2p's and the standard library's: their
-- tests are parameters, and so are the routes of the operating system.
pub mod Accepted
mod Tests
use go_libp2p_kad_dht.Prelude.{
  ℕ, ◌==◌, ◌+◌, ltb, if◌then◌else◌, Option, none, some, List, [], ◌∷◌, Bool, true, false, ◌&&◌,
  ◌||◌, not, length,
}
use go_libp2p_kad_dht.Network.{Addr, AddrInfo}

-- ToIP, To4, Contains for the ranges, isRelayAddr, isEUI and sameV6Net of two IPs; and Router.Route, which
-- yields whether there is a gateway, or an error.
pub record Addresses : Type 0 where
  pub to_ip : Addr → Option ℕ
  pub is_v4 : ℕ → Bool
  pub in_private4 : ℕ → Bool
  pub in_unroutable4 : ℕ → Bool
  pub in_public6 : ℕ → Bool
  pub in_unroutable6 : ℕ → Bool
  pub is_relay : Addr → Bool
  pub is_eui : ℕ → Bool
  pub same_v6_net : ℕ → ℕ → Bool
  pub route : ℕ → Option Bool

abbrev pub is_public_ip : Addresses → Option ℕ → Bool
is_public_ip e none = false
is_public_ip e (some ip) =
    if e.is_v4 ip then not (e.in_private4 ip) && not (e.in_unroutable4 ip) else e.in_public6 ip

unfoldable pub is_public_addr : Addresses → Addr → Bool
is_public_addr e a = is_public_ip e (e.to_ip a)

abbrev pub is_private_ip : Addresses → Option ℕ → Bool
is_private_ip e none = false
is_private_ip e (some ip) =
    if e.is_v4 ip then e.in_private4 ip else not (e.in_public6 ip) && not (e.in_unroutable6 ip)

unfoldable pub is_private_addr : Addresses → Addr → Bool
is_private_addr e a = is_private_ip e (e.to_ip a)

-- The loop of PublicQueryFilter, with hasPublicAddr.
unfoldable pub has_public_addr : Addresses → Bool → List Addr → Bool
has_public_addr e found [] = found
has_public_addr e found (a ∷ rest) =
    has_public_addr e (if not (e.is_relay a) && is_public_addr e a then true else found) rest

unfoldable pub public_query_filter : Addresses → AddrInfo → Bool
public_query_filter e x = if length x.addrs == 0 then false else has_public_addr e false x.addrs

unfoldable pub private_query_filter : AddrInfo → Bool
private_query_filter x = ltb 0 (length x.addrs)

-- PublicRoutingTableFilter, on the number of connections and the addresses of the peerstore.
unfoldable pub any_public : Addresses → List Addr → Bool
any_public e [] = false
any_public e (a ∷ rest) =
    let later = any_public e rest in
    if not (e.is_relay a) && is_public_addr e a then true else later

unfoldable pub public_routing_table_filter : Addresses → ℕ → List Addr → Bool
public_routing_table_filter e num_conns known = if num_conns == 0 then false else any_public e known

-- myAdvertisedIPs
abbrev pub with_ip : Option ℕ → List ℕ → List ℕ
with_ip none ips = ips
with_ip (some ip) ips = ip ∷ ips

unfoldable pub advertised_ips : Addresses → List Addr → List ℕ
advertised_ips e [] = []
advertised_ips e (a ∷ rest) =
    let ips = advertised_ips e rest in
    if is_public_addr e a && not (e.is_relay a) then with_ip (e.to_ip a) ips else ips

-- Whether an IP is one of the host's, or in the network of one.
unfoldable pub is_near_ip : Addresses → ℕ → List ℕ → Bool
is_near_ip e ip [] = false
is_near_ip e ip (i ∷ rest) =
    let later = is_near_ip e ip rest in
    if i == ip
    then true
    else if not (e.is_v4 ip) && (not (e.is_v4 i) && (e.is_eui ip && e.same_v6_net i ip))
    then true
    else later

-- No gateway, and no error; without a router nothing is direct.
abbrev pub is_direct : Bool → Option Bool → Bool
is_direct false r = false
is_direct true none = false
is_direct true (some has_gateway) = not has_gateway

-- Whether a connection decides for the peer.
abbrev pub is_local_ip : Addresses → Bool → List ℕ → Option ℕ → Bool
is_local_ip e has_router mine none = false
is_local_ip e has_router mine (some ip) = is_near_ip e ip mine || is_direct has_router (e.route ip)

unfoldable pub any_local : Addresses → Bool → List ℕ → List Addr → Bool
any_local e has_router mine [] = false
any_local e has_router mine (ra ∷ rest) =
    let later = any_local e has_router mine rest in
    if is_private_addr e ra && not (e.is_relay ra)
    then true
    else if is_public_addr e ra && is_local_ip e has_router mine (e.to_ip ra)
    then true
    else later

-- privRTFilter, on the addresses of the host and those of the connections to the peer.
unfoldable pub priv_rt_filter : Addresses → Bool → List Addr → List Addr → Bool
priv_rt_filter e has_router host_addrs conns =
    any_local e has_router (advertised_ips e host_addrs) conns

-- The cache of the router, a number for each that is made, with the time at which it expires.
pub record RouterCache : Type 0 where
  pub router : Option ℕ
  pub expires : ℕ

-- getCachedRouter: what it reads under the read lock; and, if that has expired, what it returns and leaves
-- under the write lock, where `made` is what netroute.New yields and `cache_time` the two minutes.
unfoldable pub read_router : ℕ → RouterCache → Option (Option ℕ)
read_router now cache = if ltb now cache.expires then some cache.router else none

unfoldable pub write_router : ℕ → ℕ → Option ℕ → Option ℕ → RouterCache → Option ℕ × RouterCache
write_router cache_time now made read cache =
    if ltb now cache.expires
    then (read, cache)
    else (made, record { router = made; expires = now + cache_time })
