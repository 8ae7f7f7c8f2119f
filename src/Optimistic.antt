-- ===== src/Optimistic.antt =====
-- lookup_optim.go: which peers an optimistic provide sends its records to, and in Optimistic/Waiting how it
-- waits for them. A distance is a number of some small unit, with which the comparison of an average is
-- written as one of a sum; the thresholds, which come from the size of the network, are parameters.
pub mod Waiting
pub mod Issued
pub mod Released
mod Tests
use go_libp2p_kad_dht.Prelude.{
  ℕ, zero, suc, ◌==◌, ◌+◌, ◌-◌, ◌*◌, ltb, leb, if◌then◌else◌, Option, none, some, ◌>>=◌, List, [],
  ◌∷◌, ◌++◌, map, Bool, true, false, ◌||◌, length, tally, pos,
}
use go_libp2p_kad_dht.Prelude.Maps.{lookup, insert}
use go_libp2p_kad_dht.Qpeerset.{
  PeerId, QueryPeerset, heard, waiting, queried, get_closest_n_in_states,
}

-- addProviderRPCState
pub data RpcState : Type 0 where
  scheduled : RpcState
  succeeded : RpcState
  failed : RpcState

-- The variables of optimisticState that change, and the peers for which putProviderRecord was started.
pub record OptimisticState : Type 0 where
  pub peer_states : List (PeerId × RpcState)
  pub issued : List PeerId

-- What stays fixed.
pub record Thresholds : Type 0 where
  pub bucket_size : ℕ
  pub normed_distance : PeerId → ℕ
  pub individual_threshold : ℕ
  pub set_threshold : ℕ

abbrev pub new_optimistic_state : OptimisticState
new_optimistic_state = record { peer_states = []; issued = [] }

-- `go os.putProviderRecord(p)`, and the entry for the peer.
unfoldable pub issue : OptimisticState → PeerId → OptimisticState
issue o p = record { peer_states = insert p scheduled o.peer_states; issued = o.issued ++ p ∷ [] }

abbrev pub unless_found :
    OptimisticState → PeerId → Option RpcState → OptimisticState → OptimisticState
unless_found o p (some s) next = o
unless_found o p none next = next

-- One round of the loop of stopFn.
unfoldable pub visit_close : Thresholds → OptimisticState → PeerId → OptimisticState
visit_close c o p =
    unless_found o p (lookup p o.peer_states)
      (if ltb c.individual_threshold (c.normed_distance p) then o else issue o p)

unfoldable pub visit_all_close : Thresholds → OptimisticState → List PeerId → OptimisticState
visit_all_close c o [] = o
visit_all_close c o (p ∷ ps) = visit_all_close c (visit_close c o p) ps

-- The distances that stay 0 when fewer than the bucket size of peers are known.
unfoldable pub distances : Thresholds → ℕ → List PeerId → List ℕ
distances c zero ps = []
distances c (suc n) [] = 0 ∷ distances c n []
distances c (suc n) (p ∷ ps) = c.normed_distance p ∷ distances c n ps

unfoldable pub sum : List ℕ → ℕ
sum [] = 0
sum (d ∷ ds) = d + sum ds

abbrev pub is_hopeful : PeerId × RpcState → Bool
is_hopeful (p, scheduled) = true
is_hopeful (p, succeeded) = true
is_hopeful (p, failed) = false

abbrev pub should_stop : Thresholds → OptimisticState → List PeerId → Bool
should_stop c o closest =
    let ds = distances c c.bucket_size closest in
    leb c.bucket_size (tally is_hopeful o.peer_states) || ltb (sum ds) (c.set_threshold * length ds)

-- stopFn; `none` is a panic of the peer set.
unfoldable pub stop_fn :
    Thresholds → OptimisticState → QueryPeerset → Option (Bool × OptimisticState × QueryPeerset)
stop_fn c o qps = do
  (closest, qps') ← get_closest_n_in_states qps (pos c.bucket_size) (heard ∷ waiting ∷ queried ∷ [])
  let o' = visit_all_close c o closest
  some (should_stop c o' closest, o', qps')

-- The loop of optimisticProvide over the peers that the lookup found.
unfoldable pub issue_rest : OptimisticState → List PeerId → OptimisticState
issue_rest o [] = o
issue_rest o (p ∷ ps) = issue_rest (unless_found o p (lookup p o.peer_states) (issue o p)) ps

-- What putProviderRecord writes when its RPC has ended.
abbrev pub record_state : Bool → RpcState
record_state true = succeeded
record_state false = failed

abbrev pub if_issued : OptimisticState → PeerId → Bool → Option RpcState → OptimisticState
if_issued o p ok none = o
if_issued o p ok (some s) = record o { peer_states = insert p (record_state ok) o.peer_states }

-- The accesses to the peer states, in the order of the lock; an RPC that was not issued does not end.
pub data Access : Type 0 where
  stop_checked : List PeerId → Access
  rpc_ended : PeerId → Bool → Access
  lookup_ended : List PeerId → Access

unfoldable pub access : Thresholds → OptimisticState → Access → OptimisticState
access c o (stop_checked closest) = visit_all_close c o closest
access c o (rpc_ended p ok) = if_issued o p ok (lookup p o.peer_states)
access c o (lookup_ended ps) = issue_rest o ps

unfoldable pub accesses : Thresholds → OptimisticState → List Access → OptimisticState
accesses c o [] = o
accesses c o (x ∷ xs) = accesses c (access c o x) xs
