-- ===== src/Fullrt.antt =====
-- fullrt/dht.go: the client that keeps the whole routing table, as far as it decides by itself: the
-- closest peers under the diversity limit, the wait for many operations, the division of a bulk send and
-- the plan of its messages, and the table that a crawl leaves. `ClosestN` of the trie, the map from keys to
-- peers, the addresses and the limits are parameters; an `int` that the code derives from a float
-- (`waitFrac`) is a parameter too.
pub mod Division
pub mod Waiting
pub mod Batches
pub mod Bulk
pub mod Sending
pub mod Sound
pub mod Kept
pub mod Remaining
pub mod Delivered
pub mod Diverse
mod Tests
use go_libp2p_kad_dht.Prelude.{
  ℕ, zero, suc, ◌==◌, ◌+◌, ◌-◌, ◌*◌, ◌/◌, ltb, leb, if◌then◌else◌, Option, none, some, ◌>>=◌, List,
  [], ◌∷◌, ◌++◌, Bool, true, false, ◌&&◌, ◌||◌, not, length, take, drop, map, contains,
}
use go_libp2p_kad_dht.Prelude.Maps.{lookup, insert}
use go_libp2p_kad_dht.Qpeerset.{PeerId}
use go_libp2p_kad_dht.Network.{Addr, AddrInfo}
use go_libp2p_kad_dht.Diversity.Response.{IpGroups, PeerSets, set_of, put_peer, group_of_addr}

-- The variables of the loop of divideByChunkSize.
pub record Chunks : Type 0 where
  pub key_chunks : List (List ℕ)
  pub next_chunk : List ℕ
  pub chunk_progress : ℕ

unfoldable pub divide_step : ℕ → Chunks → ℕ → Chunks
divide_step size s k =
    let next = s.next_chunk ++ k ∷ [] in
    if (s.chunk_progress + 1) == size
    then record { key_chunks = s.key_chunks ++ next ∷ []; next_chunk = []; chunk_progress = 0 }
    else record s { next_chunk = next; chunk_progress = s.chunk_progress + 1 }

unfoldable pub divide_loop : ℕ → Chunks → List ℕ → Chunks
divide_loop size s [] = s
divide_loop size s (k ∷ keys) = divide_loop size (divide_step size s k) keys

unfoldable pub last_chunk : Chunks → List (List ℕ)
last_chunk s = if s.chunk_progress == 0 then s.key_chunks else s.key_chunks ++ s.next_chunk ∷ []

-- `none`: the panic on an invalid chunk size.
unfoldable pub divide_by_chunk_size : List ℕ → ℕ → Option (List (List ℕ))
divide_by_chunk_size keys size =
    if length keys == 0
    then some []
    else if ltb size 1
    then none
    else some (
        last_chunk
          (divide_loop size (record { key_chunks = []; next_chunk = []; chunk_progress = 0 }) keys))

-- The variables of the loop of execOnMany.
pub record Exec : Type 0 where
  pub num_done : ℕ
  pub num_success : ℕ
  pub success_since_last_tick : ℕ
  pub has_ticker : Bool
  pub cancelled : Bool

-- What its `select` yields: the end of one operation, successful or not, or a tick.
pub data ExecEvent : Type 0 where
  op_ended : Bool → ExecEvent
  tick : ExecEvent

-- Enough successes start the ticker.
unfoldable pub start_ticker : ℕ → Exec → Exec
start_ticker wait_for s =
    if leb wait_for s.num_success && not s.has_ticker
    then record s { has_ticker = true; success_since_last_tick = s.num_success }
    else s

-- A round of the loop for `n` peers: whether it returns, and the variables.
unfoldable pub exec_step : ℕ → ℕ → Bool → Exec → ExecEvent → Bool × Exec
exec_step wait_for n sloppy s (op_ended false) = (false, record s { num_done = s.num_done + 1 })
exec_step wait_for n sloppy s (op_ended true) =
    let counted = record s { num_done = s.num_done + 1; num_success = s.num_success + 1 } in
    let s' = start_ticker wait_for counted in
    if leb n (s'.num_success + s'.num_done)
    then (sloppy, record s' { cancelled = true })
    else (false, s')
exec_step wait_for n sloppy s tick =
    if s.has_ticker
    then if ltb s.success_since_last_tick s.num_success
      then (false, record s { success_since_last_tick = s.num_success })
      else (sloppy, record s { cancelled = true })
    else (false, s)

-- `none`: the loop still waits when the events are used up.
unfoldable pub exec_loop : ℕ → ℕ → Bool → Exec → List ExecEvent → Option ℕ
exec_loop wait_for n sloppy s [] = if leb n s.num_done then some s.num_success else none
exec_loop wait_for n sloppy s (ev ∷ evs) =
    let (returns, s') = exec_step wait_for n sloppy s ev in
    let next = exec_loop wait_for n sloppy s' evs in
    if leb n s.num_done then some s.num_success else if returns then some s'.num_success else next

abbrev pub new_exec : Exec
new_exec = record {
  num_done = 0;
  num_success = 0;
  success_since_last_tick = 0;
  has_ticker = false;
  cancelled = false;
}

unfoldable pub exec_on_many : ℕ → ℕ → Bool → List ExecEvent → Option ℕ
exec_on_many wait_for n sloppy evs =
    if n == 0 then some 0 else exec_loop wait_for n sloppy new_exec evs

-- What GetClosestPeers reads. `sorted` are the trie's keys from the closest on, of which ClosestN yields
-- the first ones.
pub record Table : Type 0 where
  pub sorted : List ℕ
  pub key_to_peer : ℕ → Option PeerId
  pub peer_addrs : PeerId → List Addr
  pub ip_groups : IpGroups
  pub bucket_size : ℕ
  pub diversity_limit : ℕ

-- ipGroupCounts, and the peers found so far.
pub record Found : Type 0 where
  pub counts : PeerSets
  pub peers : List PeerId

abbrev pub is_full_group : ℕ → PeerSets → ℕ → Bool
is_full_group limit m g = leb limit (length (set_of (lookup g m)))

-- One address: without a group, in a full group, or counted.
abbrev pub count_group :
    ℕ → PeerId → PeerSets → Option ℕ → (PeerSets → Bool × PeerSets) → Bool × PeerSets
count_group limit p m none next = next m
count_group limit p m (some g) next =
    if is_full_group limit m g then (false, m) else next (put_peer m g p)

-- The loop over a peer's addresses: whether the peer is kept, and the counts, which stay raised when the
-- peer is skipped.
unfoldable pub count_addrs : IpGroups → ℕ → PeerId → PeerSets → List Addr → Bool × PeerSets
count_addrs e limit p m [] = (true, m)
count_addrs e limit p m (a ∷ rest) =
    count_group limit p m (group_of_addr e a) (λ m'. count_addrs e limit p m' rest)

abbrev pub counted : Table → PeerId → PeerSets → Bool × PeerSets
counted t p m =
    if ltb 0 t.diversity_limit
    then count_addrs t.ip_groups t.diversity_limit p m (t.peer_addrs p)
    else (true, m)

abbrev pub keep_peer : Found → PeerId → Bool × PeerSets → Found
keep_peer f p (true, m) = record { counts = m; peers = f.peers ++ p ∷ [] }
keep_peer f p (false, m) = record f { counts = m }

-- One round of PeersLoop.
abbrev pub visit_key : Table → Found → Option PeerId → Found
visit_key t f none = f
visit_key t f (some p) = keep_peer f p (counted t p f.counts)

-- The test after a peer is added: `return peers`.
abbrev pub is_full : Table → Found → Bool
is_full t f = length f.peers == t.bucket_size

-- PeersLoop over one batch of keys: whether it returned.
unfoldable pub peers_loop : Table → Found → List ℕ → Bool × Found
peers_loop t f [] = (false, f)
peers_loop t f (k ∷ ks) =
    let f' = visit_key t f (t.key_to_peer k) in
    let next = peers_loop t f' ks in
    if is_full t f' && ltb (length f.peers) (length f'.peers) then (true, f') else next

-- The outer loop, with as many rounds at most as there are keys.
unfoldable pub batches : Table → ℕ → ℕ → ℕ → Found → Found
batches t step zero n f = f
batches t step (suc fuel) n f =
    let (returned, f') = peers_loop t f (drop n (take (n + step) t.sorted)) in
    let next = batches t step fuel (n + step) f' in
    if ltb n (length t.sorted) then if returned then f' else next else f

abbrev pub step_of : Table → ℕ
step_of t = t.bucket_size + 2 * t.diversity_limit

abbrev pub nothing_found : Found
nothing_found = record { counts = []; peers = [] }

unfoldable pub get_closest_peers : Table → List PeerId
get_closest_peers t = (batches t (step_of t) (length t.sorted) 0 nothing_found).peers

-- `(len(sortedKeys) * dht.bucketSize * 2) / numPeers`, at least 1; `none`: the panic of a division by 0.
unfoldable pub chunk_size_for : ℕ → ℕ → ℕ → Option ℕ
chunk_size_for num_keys bucket_size num_peers =
    let size = (num_keys * bucket_size * 2) / num_peers in
    if num_peers == 0 then none else some (if size == 0 then 1 else size)

abbrev pub or_empty_keys : Option (List ℕ) → List ℕ
or_empty_keys none = []
or_empty_keys (some ks) = ks

-- `keysPerPeer[p] = append(keysPerPeer[p], k)`
unfoldable pub add_key : ℕ → List (PeerId × List ℕ) → List PeerId → List (PeerId × List ℕ)
add_key k m [] = m
add_key k m (p ∷ ps) = add_key k (insert p (or_empty_keys (lookup p m) ++ k ∷ []) m) ps

-- `closest` is GetClosestPeers, empty after an error.
unfoldable pub keys_per_peer :
    (ℕ → List PeerId) → List (PeerId × List ℕ) → List ℕ → List (PeerId × List ℕ)
keys_per_peer closest m [] = m
keys_per_peer closest m (k ∷ ks) = keys_per_peer closest (add_key k m (closest k)) ks

-- The work messages that bulkMessageSend offers for its sorted keys, group by group, unless the context ends.
unfoldable pub planned_messages :
    (ℕ → List PeerId) → ℕ → ℕ → List ℕ → Option (List (List (PeerId × List ℕ)))
planned_messages closest bucket_size num_peers keys = if length keys == 0 then some [] else (do
  size ← chunk_size_for (length keys) bucket_size num_peers
  groups ← divide_by_chunk_size keys size
  some (map (keys_per_peer closest []) groups))

-- Ready: `since` is the time since the last crawl.
unfoldable pub is_ready : ℕ → ℕ → ℕ → ℕ → Bool
is_ready since crawler_interval table_size num_bootstrap =
    if ltb crawler_interval since then false else ltb (num_bootstrap + 1) table_size

-- The starting peers of a crawl, and what its callback for a success adds to foundPeers.
unfoldable pub crawl_starts : List PeerId → List AddrInfo → List AddrInfo
crawl_starts found bootstrap =
    map (λ (p : PeerId). record { id = p; addrs = [] }) found ++ bootstrap

unfoldable pub crawl_found :
    (PeerId → Bool)
    → (PeerId → List Addr)
    → List (PeerId × List Addr)
    → List PeerId
    → List (PeerId × List Addr)
crawl_found public_filter addrs found [] = found
crawl_found public_filter addrs found (p ∷ successes) =
    crawl_found public_filter addrs (if public_filter p then insert p (addrs p) found else found)
      successes
