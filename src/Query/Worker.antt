-- ===== src/Query/Worker.antt =====
-- queryPeer of query.go: the goroutine that asks one peer. Dialing, the query function, contexts, the
-- peerstore and the routing table are what it asks of other code; its calls on these are listed.
use go_libp2p_kad_dht.Prelude.{
  ℕ, ◌==◌, if◌then◌else◌, Option, none, some, List, [], ◌∷◌, ◌++◌, Bool, true, false, ◌||◌,
}
use go_libp2p_kad_dht.Qpeerset.{PeerId}
use go_libp2p_kad_dht.Network.{Addr, AddrInfo}
use go_libp2p_kad_dht.Diversity.Response.{IpGroups, filter_peers_by_ip_diversity}
use go_libp2p_kad_dht.Query.{Config, QueryUpdate}

-- What the calls of one run of the goroutine yield.
pub record Surroundings : Type 0 where
  pub connected : Bool
  pub connects : Bool
  pub dial_context_ended : Bool
  pub answer : Option (List AddrInfo)
  pub query_context_ended : Bool
  pub duration : ℕ
  pub known_addrs : PeerId → List Addr
  pub query_peer_filter : AddrInfo → Bool
  pub ip_groups : IpGroups
  pub max_peers_per_ip_group : ℕ

pub data Call : Type 0 where
  peer_stopped_dht : PeerId → Call
  valid_peer_found : PeerId → Call
  maybe_add_addrs : PeerId → List Addr → Call

-- dialPeer: short-circuit if connected, and connect otherwise.
unfoldable pub dial_peer : Surroundings → Bool
dial_peer s = if s.connected then true else s.connects

unfoldable pub unreachable_update : PeerId → QueryUpdate
unreachable_update p = record {
  cause = p;
  queried_peers = [];
  heard_peers = [];
  unreachable_peers = p ∷ [];
  query_duration = 0;
}

-- `peerStoppedDHT(p)`, but not because of a context that ended.
abbrev pub stopped_unless : Bool → PeerId → List Call
stopped_unless ended p = if ended then [] else peer_stopped_dht p ∷ []

-- `next.Addrs = append(next.Addrs, curInfo.Addrs...)`
abbrev pub with_known : Surroundings → AddrInfo → AddrInfo
with_known s x = record x { addrs = x.addrs ++ s.known_addrs x.id }

-- `next` is kept if it is not this node, and is the target or passes the filter.
abbrev pub is_kept : Config → ℕ → Surroundings → AddrInfo → Bool
is_kept c key s x =
    if x.id == c.self then false else (x.id == key) || s.query_peer_filter (with_known s x)

-- The loop over the new peers: the peers seen and the calls made.
unfoldable pub process_new_peers :
    Config → ℕ → Surroundings → List AddrInfo → List PeerId × List Call
process_new_peers c key s [] = ([], [])
process_new_peers c key s (x ∷ xs) =
    let (saw, calls) = process_new_peers c key s xs in
    if is_kept c key s x
    then (x.id ∷ saw, maybe_add_addrs x.id (x.addrs ++ s.known_addrs x.id) ∷ calls)
    else (saw, calls)

unfoldable pub queried_update : PeerId → List PeerId → ℕ → QueryUpdate
queried_update p saw duration = record {
  cause = p;
  queried_peers = p ∷ [];
  heard_peers = saw;
  unreachable_peers = [];
  query_duration = duration;
}

abbrev pub diverse : Surroundings → List AddrInfo → List AddrInfo
diverse s xs =
    if s.max_peers_per_ip_group == 0
    then xs
    else filter_peers_by_ip_diversity s.ip_groups s.max_peers_per_ip_group xs

-- After a successful dial.
unfoldable pub ask_peer :
    Config → ℕ → Surroundings → PeerId → Option (List AddrInfo) → QueryUpdate × List Call
ask_peer c key s p none = (unreachable_update p, stopped_unless s.query_context_ended p)
ask_peer c key s p (some new_peers) =
    let (saw, calls) = process_new_peers c key s (diverse s new_peers) in
    (queried_update p saw s.duration, valid_peer_found p ∷ calls)

unfoldable pub query_peer : Config → ℕ → Surroundings → PeerId → QueryUpdate × List Call
query_peer c key s p =
    if dial_peer s
    then ask_peer c key s p s.answer
    else (unreachable_update p, stopped_unless s.dial_context_ended p)
