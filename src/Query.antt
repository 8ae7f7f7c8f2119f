-- ===== src/Query.antt =====
-- query.go: the loop of one lookup. Its state is a record; a method that mutates the query returns
-- the new one, and `none` is a panic. The goroutines that ask a peer stand in `in_flight` from their
-- start until their update is received. Tracing spans, and the lookup events other than the one that
-- `terminate` publishes, are left out.
pub mod Peers
pub mod Rounds
pub mod Decisions
pub mod Progress
pub mod Loop
pub mod Safety
pub mod Result
pub mod Answers
pub mod Valuable
pub mod Worker
pub mod Reports
mod Tests
use go_libp2p_kad_dht.Prelude.{
  ℕ, ◌==◌, if◌then◌else◌, Option, none, some, ◌>>=◌, List, [], ◌∷◌, ◌++◌, Bool, true, false, ◌&&◌,
  not, ℤ, pos, sub_ℕ, select,
}
use go_libp2p_kad_dht.Qpeerset.{
  PeerId, KeySpace, PeerState, heard, waiting, queried, unreachable, state_eq, QueryPeerset,
  try_add, set_state, get_state, get_referrer, get_closest_n_in_states, num_heard, num_waiting,
  new_query_peerset,
}

-- LookupTerminationReason of events.go.
pub data Reason : Type 0 where
  lookup_stopped lookup_cancelled lookup_starvation lookup_completed : Reason

-- The fields of IpfsDHT that the loop reads.
pub record Config : Type 0 where
  pub self : PeerId
  pub alpha : ℕ
  pub beta : ℕ
  pub bucket_size : ℕ
  pub keys : KeySpace

pub record Query : Type 0 where
  pub key : ℕ
  pub seed_peers : List PeerId
  pub query_peers : QueryPeerset
  pub peer_times : List (PeerId × ℕ)
  pub terminated : Bool
  pub in_flight : List PeerId
  pub published : List Reason

pub record QueryUpdate : Type 0 where
  pub cause : PeerId
  pub queried_peers : List PeerId
  pub heard_peers : List PeerId
  pub unreachable_peers : List PeerId
  pub query_duration : ℕ

unfoldable pub new_query : Config → ℕ → List PeerId → Query
new_query c key seeds = record {
  key = key;
  seed_peers = seeds;
  query_peers = new_query_peerset c.keys key;
  peer_times = [];
  terminated = false;
  in_flight = [];
  published = [];
}

-- One round of `for _, p := range up.heard`.
unfoldable pub add_heard_one : Config → QueryPeerset → PeerId → PeerId → QueryPeerset
add_heard_one c qp cause p = if p == c.self then qp else (try_add c.keys qp p cause).0

unfoldable pub add_heard : Config → QueryPeerset → PeerId → List PeerId → QueryPeerset
add_heard c qp cause [] = qp
add_heard c qp cause (p ∷ ps) = add_heard c (add_heard_one c qp cause p) cause ps

-- `if st := GetState(p); st == PeerWaiting { SetState(p, s) } else { panic }`
unfoldable pub leave_waiting : QueryPeerset → PeerId → PeerState → Option QueryPeerset
leave_waiting qp p s = do
  st ← get_state qp p
  if state_eq st waiting then set_state qp p s else none

unfoldable pub mark_queried_one : Config → ℕ → Query → PeerId → Option Query
mark_queried_one c duration q p = if p == c.self then some q else (do
  qp ← leave_waiting q.query_peers p queried
  some (record q { query_peers = qp; peer_times = (p, duration) ∷ q.peer_times }))

unfoldable pub mark_queried : Config → ℕ → Query → List PeerId → Option Query
mark_queried c duration q [] = some q
mark_queried c duration q (p ∷ ps) = do
  q' ← mark_queried_one c duration q p
  mark_queried c duration q' ps

unfoldable pub mark_unreachable_one : Config → Query → PeerId → Option Query
mark_unreachable_one c q p =
    if p == c.self
    then some q
    else (do qp ← leave_waiting q.query_peers p unreachable; some (record q { query_peers = qp }))

unfoldable pub mark_unreachable : Config → Query → List PeerId → Option Query
mark_unreachable c q [] = some q
mark_unreachable c q (p ∷ ps) = do q' ← mark_unreachable_one c q p; mark_unreachable c q' ps

unfoldable pub update_state : Config → Query → QueryUpdate → Option Query
update_state c q up = if q.terminated then none else (do
  let q0 = record q { query_peers = add_heard c q.query_peers up.cause up.heard_peers }
  q1 ← mark_queried c up.query_duration q0 up.queried_peers
  mark_unreachable c q1 up.unreachable_peers)

-- `if state != PeerQueried { return false }`
unfoldable pub all_queried : QueryPeerset → List PeerId → Option Bool
all_queried qp [] = some true
all_queried qp (p ∷ ps) = do
  st ← get_state qp p
  let rest = all_queried qp ps
  if state_eq st queried then rest else some false

-- The states of a peer that is not unreachable.
abbrev pub reachable_states : List PeerState
reachable_states = heard ∷ waiting ∷ queried ∷ []

unfoldable pub is_lookup_termination : Config → QueryPeerset → Option (Bool × QueryPeerset)
is_lookup_termination c qp = do
  (peers, qp') ← get_closest_n_in_states qp (pos c.beta) reachable_states
  done ← all_queried qp' peers
  some (done, qp')

unfoldable pub is_starvation_termination : QueryPeerset → Option (Bool × QueryPeerset)
is_starvation_termination qp = do
  (n, qp') ← num_heard qp
  (m, qp'') ← num_waiting qp'
  some ((n == 0) && (m == 0), qp'')

-- The stop function of the lookup, as it answers in one round.
abbrev pub StopFn : Type 0
StopFn = QueryPeerset → Bool

-- Ready with a reason, or the peers to query next.
pub data Readiness : Type 0 where
  ready : Reason → Readiness
  ask : List PeerId → Readiness

unfoldable pub is_ready_to_terminate :
    Config → StopFn → QueryPeerset → ℤ → Option (Readiness × QueryPeerset)
is_ready_to_terminate c stop qp n = if stop qp then some (ready lookup_stopped, qp) else (do
  (starving, qp1) ← is_starvation_termination qp
  if starving then some (ready lookup_starvation, qp1) else (do
    (done, qp2) ← is_lookup_termination c qp1
    if done
        then some (ready lookup_completed, qp2)
        else (do (peers, qp3) ← get_closest_n_in_states qp2 n (heard ∷ []); some (ask peers, qp3))))

unfoldable pub terminate : Query → Reason → Query
terminate q r =
    if q.terminated then q else record q { terminated = true; published = q.published ++ r ∷ [] }

unfoldable pub spawn_query : Query → PeerId → Option Query
spawn_query q p = do
  referrer ← get_referrer q.query_peers p
  qp ← set_state q.query_peers p waiting
  some (record q { query_peers = qp; in_flight = p ∷ q.in_flight })

unfoldable pub spawn_queries : Query → List PeerId → Option Query
spawn_queries q [] = some q
spawn_queries q (p ∷ ps) = do q' ← spawn_query q p; spawn_queries q' ps

-- What the `select` of `run` yields.
pub data Event : Type 0 where
  update : QueryUpdate → Event
  context_done : Event

-- The goroutine that sent an update is done.
abbrev pub received : Query → PeerId → Query
received q p = record q { in_flight = select (λ r. not (r == p)) q.in_flight }

unfoldable pub handle_event : Config → Query → Event → Option Query
handle_event c q (update up) = update_state c (received q up.cause) up
handle_event c q context_done = some (terminate q lookup_cancelled)

-- After the event: what one round decides, and the queries that it starts.
unfoldable pub decide : Query → Readiness → Option Query
decide q (ready r) = some (terminate q r)
decide q (ask ps) = if q.terminated then some q else spawn_queries q ps

-- The rest of a round, once its event is handled.
unfoldable pub after_event : Config → StopFn → Query → Option Query
after_event c stop q = do
  (n, qp) ← num_waiting q.query_peers
  (r, qp') ← is_ready_to_terminate c stop qp (sub_ℕ c.alpha n)
  decide (record q { query_peers = qp' }) r

-- The body of the loop of `run`.
unfoldable pub loop_body : Config → StopFn → Query → Event → Option Query
loop_body c stop q e = do q1 ← handle_event c q e; after_event c stop q1

-- `run`, over the events that its channels yield.
unfoldable pub run : Config → Query → List (Event × StopFn) → Option Query
run c q [] = some q
run c q ((e, stop) ∷ rest) = do
  q' ← loop_body c stop q e
  let next = run c q' rest
  if q'.terminated then some q' else next

-- The update that starts the loop.
unfoldable pub first_update : Config → Query → QueryUpdate
first_update c q = record {
  cause = c.self;
  queried_peers = [];
  heard_peers = q.seed_peers;
  unreachable_peers = [];
  query_duration = 0;
}
