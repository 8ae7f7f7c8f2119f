-- ===== src/Query/Tests.antt =====
-- Runs of the loop of query.go on a small network, and the theorems at concrete inputs.
use go_libp2p_kad_dht.Prelude.{
  ℕ, ◌+◌, ◌-◌, ◌*◌, ◌≤◌, ◌<◌, none, some, [], ◌∷◌, true, false, ◌≡◌, refl, ◌↔◌, arith, contains,
  length, min, ltb,
}
use go_libp2p_kad_dht.Qpeerset.{
  PeerId, KeySpace, PeerState, heard, waiting, queried, unreachable, QueryPeerState, QueryPeerset,
  find, set_state_at, set_state, get_state, get_referrer, distance_to_key, try_add,
  new_query_peerset, insert_by_distance, sort_by_distance, sort, get_closest_n_in_states,
  get_closest_in_states, num_heard, num_waiting,
}
use go_libp2p_kad_dht.Qpeerset.Lookup.{entry}
use go_libp2p_kad_dht.Qpeerset.Closest.{tally_in}
use go_libp2p_kad_dht.Query.{
  Config, Query, update, StopFn, Reason, new_query, first_update, add_heard_one, add_heard,
  leave_waiting, mark_queried_one, mark_queried, mark_unreachable_one, mark_unreachable,
  update_state, all_queried, is_lookup_termination, is_starvation_termination,
  is_ready_to_terminate, terminate, spawn_query, spawn_queries, handle_event, decide, after_event,
  loop_body, run, reachable_states,
}
use go_libp2p_kad_dht.Query.Rounds.{Inv, answered, failed, report, finished}
use go_libp2p_kad_dht.Query.Safety.{
  GoesOn, Reported, loop_body-report, first_round, idle, reports, run_total, here, next,
  Rounds-bounded,
}
use go_libp2p_kad_dht.Query.Result.{
  LookupResult, any_state, construct_lookup_result, record_valuable_peers, time_of,
}
use go_libp2p_kad_dht.Query.Answers.{StatesMatch, construct_lookup_result_lem}
use go_libp2p_kad_dht.Query.Valuable.{IsShort, valuable_iff}
use go_libp2p_kad_dht.Query.Worker.{
  Surroundings, dial_peer, process_new_peers, queried_update, ask_peer, query_peer,
}

-- Everything that a run of the loop computes with.
program : Unit {0}
unfolding find set_state_at set_state get_state get_referrer distance_to_key try_add
    new_query_peerset insert_by_distance sort_by_distance sort get_closest_n_in_states
    get_closest_in_states num_heard num_waiting new_query first_update add_heard_one add_heard
    leave_waiting mark_queried_one mark_queried mark_unreachable_one mark_unreachable update_state
    all_queried is_lookup_termination is_starvation_termination is_ready_to_terminate terminate
    spawn_query spawn_queries handle_event decide after_event loop_body run report
program = tt

abbrev number_line : KeySpace
number_line = record { hash = λ x. x; distance = λ a b. (a - b) + (b - a) }

abbrev node : Config
node = record { self = 0; alpha = 2; beta = 1; bucket_size = 3; keys = number_line }

abbrev never : StopFn
never qp = false

abbrev peer_at : PeerId → ℕ → PeerState → QueryPeerState
peer_at p d s = record { id = p; distance = d; state = s; referred_by = 0 }

-- The query for the key 10 after its first round, on the seeds 13, 0 (this node) and 4.
abbrev started : Query
started = record {
  key = 10;
  seed_peers = 13 ∷ 0 ∷ 4 ∷ [];
  query_peers = record {
    key = 10;
    all = peer_at 13 3 waiting ∷ peer_at 4 6 waiting ∷ [];
    sorted = true;
  };
  peer_times = [];
  terminated = false;
  in_flight = 4 ∷ 13 ∷ [];
  published = [];
}

first_round_runs :
    let q = new_query node 10 (13 ∷ 0 ∷ 4 ∷ []) in
    loop_body node never q (update (first_update node q)) ≡ some started
unfolding program
first_round_runs = refl

-- The peer 13 answers with 9; then 4 fails, and 9 answers: the closest peer is queried, and the loop ends.
whole_lookup :
    (run node started (
      (update (report 13 (answered (9 ∷ []) 70)), never)
      ∷ (update (report 4 failed), never)
      ∷ (update (report 9 (answered (13 ∷ []) 50)), never)
      ∷ []))
    ≡ some (record started {
      query_peers = record {
        key = 10;
        all =
            record { id = 9; distance = 1; state = queried; referred_by = 13 }
            ∷ peer_at 13 3 queried
            ∷ peer_at 4 6 unreachable
            ∷ [];
        sorted = true;
      };
      peer_times = (9, 50) ∷ (13, 70) ∷ [];
      terminated = true;
      in_flight = [];
      published = Reason.lookup_starvation ∷ [];
    })
unfolding program
whole_lookup = refl

started-Inv : Inv node started
unfolding entry
started-Inv = record {
  sound = record {
    valid = record {
      unique = (refl, (refl, tt));
      measured = (refl, (refl, tt));
      ordered = λ h. omega arith;
    };
    no_self = refl;
  };
  flying = λ p. ground arith;
  bounded = omega arith;
}

first_round_example :
    let q = new_query node 10 (13 ∷ 0 ∷ 4 ∷ []) in
    (q' : Query) × (loop_body node never q (update (first_update node q)) ≡ some q')
    × Inv node q'
    × (finished q' ≡ 0)
    × GoesOn node q'
first_round_example = first_round node never 10 (13 ∷ 0 ∷ 4 ∷ [])

loop_body-report_example :
    (q' : Query) × (loop_body node never started (update (report 13 (answered (9 ∷ []) 70)))
      ≡ some q')
    × Reported node started q'
loop_body-report_example =
    loop_body-report node never started 13 (answered (9 ∷ []) 70) started-Inv refl refl

run_total_example :
    (q' : Query) × (run node started ((update (report 4 failed), never) ∷ []) ≡ some q')
    × Inv node q'
run_total_example =
    run_total node started ((update (report 4 failed), never) ∷ []) started-Inv refl
      (reports 4 failed never [] refl (λ q' e t. idle))

-- The query after the report of 4.
abbrev later : Query
later = record started {
  query_peers = record {
    key = 10;
    all = peer_at 13 3 waiting ∷ peer_at 4 6 unreachable ∷ [];
    sorted = true;
  };
  in_flight = 13 ∷ [];
}

later_runs : loop_body node never started (update (report 4 failed)) ≡ some later
unfolding program
later_runs = refl

Rounds-bounded_example : 1 ≤ length later.query_peers.all
Rounds-bounded_example =
    Rounds-bounded node started later 1 started-Inv refl
      (next never 4 failed here refl refl later_runs)

construct_lookup_result_lem_example :
    (res : LookupResult) × (qp' : QueryPeerset) × (construct_lookup_result node later.query_peers
      ≡ some (res, qp'))
    × (length res.peers ≡ min 3 (tally_in later.query_peers reachable_states))
    × (length res.closest ≡ min 3 (tally_in later.query_peers any_state))
    × StatesMatch later.query_peers res.peers res.state
unfolding entry
construct_lookup_result_lem_example = construct_lookup_result_lem node later.query_peers (record {
  valid = record {
    unique = (refl, (refl, tt));
    measured = (refl, (refl, tt));
    ordered = λ h. omega arith;
  };
  no_self = refl;
})

abbrev half_asked : LookupResult
half_asked = record {
  peers = 9 ∷ 13 ∷ [];
  state = heard ∷ queried ∷ [];
  closest = 9 ∷ 13 ∷ [];
  completed = true;
}

abbrev timed : Query
timed = record started { peer_times = (13, 70) ∷ (4, 30) ∷ [] }

timed-IsShort : IsShort timed
unfolding time_of
timed-IsShort p t h = ground arith

valuable_iff_example : (contains (record_valuable_peers timed) 4 ≡ true) ↔ (
    (contains timed.seed_peers 4 ≡ true)
    × (t : ℕ) × (time_of timed.peer_times 4 ≡ some t)
    × ((r : PeerId) (u : ℕ)
        → contains timed.seed_peers r ≡ true
        → time_of timed.peer_times r ≡ some u
        → t < 2 * u))
valuable_iff_example = valuable_iff timed 4 timed-IsShort

-- A connected peer that names 9, this node and 4, of which the filter lets peers from 5 on pass.
abbrev talkative : Surroundings
talkative = record {
  connected = true;
  connects = false;
  dial_context_ended = false;
  answer = some (
      record { id = 9; addrs = 1 ∷ [] }
      ∷ record { id = 0; addrs = 1 ∷ [] }
      ∷ record { id = 4; addrs = 1 ∷ [] }
      ∷ []);
  query_context_ended = false;
  duration = 30;
  known_addrs = λ p. [];
  query_peer_filter = λ x. ltb 4 x.id;
  ip_groups = record { to_ip = λ a. some a; ip_group_key = λ ip. ip };
  max_peers_per_ip_group = 0;
}

talkative_hears : (query_peer node 10 talkative 13).0.heard_peers ≡ 9 ∷ []
unfolding query_peer ask_peer dial_peer process_new_peers queried_update
talkative_hears = refl

abbrev unreached : Surroundings
unreached = record talkative { connected = false; answer = none }
