-- ===== src/Query/Result.antt =====
-- query.go after the loop: the result of a lookup, the peers that count as valuable, and the follow-up
-- queries.
use go_libp2p_kad_dht.Prelude.{
  ℕ, zero, suc, ◌==◌, ◌+◌, ◌-◌, ◌*◌, ◌%◌, ◌^◌, if◌then◌else◌, Option, none, some, ◌>>=◌, List, [],
  ◌∷◌, Bool, true, false, ◌&&◌, ◌||◌, pos, ltb, length,
}
use go_libp2p_kad_dht.Qpeerset.{
  PeerId, PeerState, heard, waiting, queried, unreachable, state_eq, QueryPeerset, get_state,
  get_closest_n_in_states,
}
use go_libp2p_kad_dht.Query.{
  Config, Query, reachable_states, is_lookup_termination, is_starvation_termination,
}

-- lookupWithFollowupResult.
pub record LookupResult : Type 0 where
  pub peers : List PeerId
  pub state : List PeerState
  pub closest : List PeerId
  pub completed : Bool

abbrev pub any_state : List PeerState
any_state = heard ∷ waiting ∷ queried ∷ unreachable ∷ []

-- `res.state[i] = q.queryPeers.GetState(p)`
unfoldable pub read_states : QueryPeerset → List PeerId → Option (List PeerState)
read_states qp [] = some []
read_states qp (p ∷ ps) = do s ← get_state qp p; ss ← read_states qp ps; some (s ∷ ss)

-- `q.isLookupTermination() || q.isStarvationTermination()`
unfoldable pub is_completed : Config → QueryPeerset → Option (Bool × QueryPeerset)
is_completed c qp = do
  (done, qp1) ← is_lookup_termination c qp
  if done then some (true, qp1) else is_starvation_termination qp1

unfoldable pub construct_lookup_result :
    Config → QueryPeerset → Option (LookupResult × QueryPeerset)
construct_lookup_result c qp = do
  (completed, qp1) ← is_completed c qp
  (peers, qp2) ← get_closest_n_in_states qp1 (pos c.bucket_size) reachable_states
  (closest, qp3) ← get_closest_n_in_states qp2 (pos c.bucket_size) any_state
  states ← read_states qp3 peers
  some (record { peers = peers; state = states; closest = closest; completed = completed }, qp3)

-- `queryTime, ok := q.peerTimes[p]`
unfoldable pub time_of : List (PeerId × ℕ) → PeerId → Option ℕ
time_of [] p = none
time_of ((r, t) ∷ rest) p = if r == p then some t else time_of rest p

-- math.MaxInt64.
abbrev pub max_duration : ℕ
max_duration = 2 ^ 63 - 1

abbrev pub faster : Option ℕ → ℕ → ℕ
faster none best = best
faster (some t) best = if ltb t best then t else best

-- The first loop of recordValuablePeers.
unfoldable pub mvp_duration : List (PeerId × ℕ) → ℕ → List PeerId → ℕ
mvp_duration times best [] = best
mvp_duration times best (p ∷ ps) = mvp_duration times (faster (time_of times p) best) ps

-- `t < m*2` on int64, for durations that are not negative: the product wraps.
abbrev pub lt_doubled : ℕ → ℕ → Bool
lt_doubled t m = ltb ((m * 2) % 2 ^ 64) (2 ^ 63) && ltb t ((m * 2) % 2 ^ 64)

abbrev pub near : Option ℕ → ℕ → Bool
near none m = false
near (some t) m = lt_doubled t m

-- The second loop: the peers handed to recordPeerIsValuable.
unfoldable pub valuable_among : List (PeerId × ℕ) → ℕ → List PeerId → List PeerId
valuable_among times m [] = []
valuable_among times m (p ∷ ps) =
    let rest = valuable_among times m ps in if near (time_of times p) m then p ∷ rest else rest

unfoldable pub record_valuable_peers : Query → List PeerId
record_valuable_peers q =
    valuable_among q.peer_times (mvp_duration q.peer_times max_duration q.seed_peers) q.seed_peers

-- The peers of a result that were not asked to the end.
unfoldable pub unqueried : List PeerId → List PeerState → List PeerId
unqueried (p ∷ ps) (s ∷ ss) =
    let rest = unqueried ps ss in if state_eq s heard || state_eq s waiting then p ∷ rest else rest
unqueried _ _ = []

-- What the `select` of the follow-up yields: a query is done, with the stop function's answer then; or
-- the context is.
pub data FollowEvent : Type 0 where
  query_done : Bool → FollowEvent
  context_ended : FollowEvent

-- The loop `for i := range queryPeers`: the rounds left, the queries done, and `completed`. `none`: the
-- loop still waits when the events are used up.
unfoldable pub follow_loop : ℕ → ℕ → Bool → List FollowEvent → Option (ℕ × Bool)
follow_loop zero done completed es = some (done, completed)
follow_loop (suc left) done completed [] = none
follow_loop (suc left) done completed (context_ended ∷ es) = some (done, false)
follow_loop (suc left) done completed (query_done stop ∷ es) =
    let next = follow_loop left (suc done) completed es in
    if stop then some (suc done, if left == 0 then completed else false) else next

-- The follow-up of runLookupWithFollowup: the result, and how many queries have been waited for.
-- `stopped` is `ctx.Err() != nil || stopFn(qps)`.
unfoldable pub follow_up : LookupResult → Bool → List FollowEvent → Option (LookupResult × ℕ)
follow_up res stopped es =
    let todo = unqueried res.peers res.state in
    if length todo == 0
    then some (res, 0)
    else if stopped
    then some (record res { completed = false }, 0)
    else (do
      (done, completed) ← follow_loop (length todo) 0 res.completed es
      let drained = if completed then 0 else length todo - done
      some (record res { completed = completed }, done + drained))
