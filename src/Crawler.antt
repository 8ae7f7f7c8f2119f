-- ===== src/Crawler.antt =====
-- crawler/crawler.go: the main loop of Run with its two channels and its workers, queryPeer, and the
-- addresses that the crawl collects. What the network answers is a parameter, and so are the keys that
-- the routing table of go-libp2p-kbucket generates.
pub mod Asking
pub mod System
pub mod Once
pub mod Progress
pub mod Ending
pub mod Bounded
mod Tests
use go_libp2p_kad_dht.Prelude.{
  ℕ, zero, suc, ◌==◌, ◌+◌, ◌-◌, ◌<◌, if◌then◌else◌, Option, none, some, ◌>>=◌, List, [], ◌∷◌, ◌++◌,
  Bool, true, false, ◌||◌, not, length, contains,
}
use go_libp2p_kad_dht.Prelude.Maps.{lookup, insert, delete}
use go_libp2p_kad_dht.Qpeerset.{PeerId}
use go_libp2p_kad_dht.Network.{Addr, AddrInfo}

-- peerAddrs: for each peer its addresses, none twice.
abbrev pub PeerAddrs : Type 0
PeerAddrs = List (PeerId × List Addr)

abbrev pub or_no_addrs : Option (List Addr) → List Addr
or_no_addrs none = []
or_no_addrs (some as') = as'

unfoldable pub put_all_addrs : List Addr → List Addr → List Addr
put_all_addrs old [] = old
put_all_addrs old (a ∷ as') = put_all_addrs (if contains old a then old else old ++ a ∷ []) as'

unfoldable pub add_peer_addrs : PeerAddrs → PeerId → List Addr → PeerAddrs
add_peer_addrs m p as' = insert p (put_all_addrs (or_no_addrs (lookup p m)) as') m

unfoldable pub add_addrs : PeerAddrs → List AddrInfo → PeerAddrs
add_addrs m [] = m
add_addrs m (x ∷ xs) = add_addrs (add_peer_addrs m x.id x.addrs) xs

unfoldable pub remove_source_and_add_peers : PeerAddrs → PeerId → List AddrInfo → PeerAddrs
remove_source_and_add_peers m source peers = add_addrs (delete source m) peers

unfoldable pub peer_info : PeerAddrs → PeerId → AddrInfo
peer_info m p = record { id = p; addrs = or_no_addrs (lookup p m) }

-- queryResult, with its map as the list of its values; errors are numbers.
pub record QueryResult : Type 0 where
  pub peer : PeerId
  pub data' : List AddrInfo
  pub err : Option ℕ

-- What queryPeer calls: the new routing table and the connection with their errors, GenRandPeerID (`none`
-- is its error), and the request, answered with peers or an error.
pub data Reply : Type 0 where
  answered : List AddrInfo → Reply
  refused : ℕ → Reply

pub record Net : Type 0 where
  pub new_routing_table : PeerId → Option ℕ
  pub connect : AddrInfo → Option ℕ
  pub gen_rand_peer_id : PeerId → ℕ → Option ℕ
  pub get_closest_peers : PeerId → ℕ → Reply

abbrev pub has_id : List AddrInfo → PeerId → Bool
has_id [] p = false
has_id (x ∷ xs) p = (x.id == p) || has_id xs p

unfoldable pub add_local : List AddrInfo → List AddrInfo → List AddrInfo
add_local local [] = local
add_local local (x ∷ xs) = add_local (if has_id local x.id then local else local ++ x ∷ []) xs

abbrev pub after_reply : (List AddrInfo → Option Reply) → List AddrInfo → Reply → Option Reply
after_reply next local (refused e) = some (refused e)
after_reply next local (answered peers) = next (add_local local peers)

-- The loop from `cpl` on, with `rounds` rounds to go; `none`: the panic on an error of GenRandPeerID.
unfoldable pub ask_from : Net → PeerId → ℕ → ℕ → List AddrInfo → Option Reply
ask_from net p zero cpl local = some (answered local)
ask_from net p (suc rounds) cpl local = do
  key ← net.gen_rand_peer_id p cpl
  after_reply (λ grown. ask_from net p rounds (cpl + 1) grown) local (net.get_closest_peers p key)

abbrev pub result_of : PeerId → Reply → QueryResult
result_of p (answered peers) = record { peer = p; data' = peers; err = none }
result_of p (refused e) = record { peer = p; data' = []; err = some e }

-- One of the two calls before the loop.
abbrev pub checked : Option ℕ → PeerId → Option QueryResult → Option QueryResult
checked none p next = next
checked (some e) p next = some (result_of p (refused e))

unfoldable pub query_peer : Net → AddrInfo → Option QueryResult
query_peer net x = checked (net.new_routing_table x.id) x.id (
    checked (net.connect x) x.id
      (do reply ← ask_from net x.id 16 0 []; some (result_of x.id reply)))

-- The calls of handleSuccess and handleFail, which are both given.
pub data Callback : Type 0 where
  success : PeerId → List AddrInfo → Callback
  failure : PeerId → Option ℕ → Callback

-- The variables of Run's main loop, and its calls so far.
pub record Crawl : Type 0 where
  pub to_dial : List PeerId
  pub peers_seen : List PeerId
  pub peers_queried : List PeerId
  pub outstanding : ℕ
  pub peer_addrs : PeerAddrs
  pub calls : List Callback

abbrev pub no_crawl : Crawl
no_crawl = record {
  to_dial = [];
  peers_seen = [];
  peers_queried = [];
  outstanding = 0;
  peer_addrs = [];
  calls = [];
}

-- The loop over the starting peers; `peerstore` has the addresses that the host knows.
abbrev pub start_one : (PeerId → List Addr) → Crawl → AddrInfo → Crawl
start_one peerstore c x =
    let extended = peerstore x.id ++ x.addrs in
    if length extended == 0 then c else record c {
      peer_addrs = add_peer_addrs c.peer_addrs x.id extended;
      to_dial = c.to_dial ++ x.id ∷ [];
      peers_seen = c.peers_seen ++ x.id ∷ [];
    }

unfoldable pub start_with : (PeerId → List Addr) → Crawl → List AddrInfo → Crawl
start_with peerstore c [] = c
start_with peerstore c (x ∷ xs) = start_with peerstore (start_one peerstore c x) xs

-- What the loop over a result's peers changes; `updates` is addrsToUpdate.
pub record Learned : Type 0 where
  pub seen : List PeerId
  pub to_visit : List PeerId
  pub updates : List AddrInfo

abbrev pub learn_one : List PeerId → Learned → AddrInfo → Learned
learn_one queried l x =
    let updates = if contains queried x.id then l.updates else l.updates ++ x ∷ [] in
    if contains l.seen x.id then record l { updates = updates } else record {
      seen = l.seen ++ x.id ∷ [];
      to_visit = l.to_visit ++ x.id ∷ [];
      updates = updates;
    }

unfoldable pub learn : List PeerId → Learned → List AddrInfo → Learned
learn queried l [] = l
learn queried l (x ∷ xs) = learn queried (learn_one queried l x) xs

-- `case res := <-results`
unfoldable pub receive : Crawl → QueryResult → Crawl
receive c r =
    let start : Learned = record { seen = c.peers_seen; to_visit = c.to_dial; updates = [] } in
    let l = learn c.peers_queried start r.data' in
    if length r.data' == 0
    then record c { calls = c.calls ++ failure r.peer r.err ∷ []; outstanding = c.outstanding - 1 }
    else record {
      to_dial = l.to_visit;
      peers_seen = l.seen;
      peers_queried = c.peers_queried ++ r.peer ∷ [];
      outstanding = c.outstanding - 1;
      peer_addrs = remove_source_and_add_peers c.peer_addrs r.peer l.updates;
      calls = c.calls ++ success r.peer r.data' ∷ [];
    }

-- `case jobCh <- nextPeerID`, for the peers `rest` behind the first.
unfoldable pub dispatch : Crawl → List PeerId → Crawl
dispatch c rest = record c { outstanding = c.outstanding + 1; to_dial = rest }

-- The test of the loop.
abbrev pub IsCrawling : Crawl → Type 0
IsCrawling c = 0 < length c.to_dial + c.outstanding
