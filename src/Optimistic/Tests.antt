-- ===== src/Optimistic/Tests.antt =====
-- Runs of the optimistic provide, and the theorems at concrete inputs.
use go_libp2p_kad_dht.Prelude.{◌+◌, List, [], ◌∷◌, true, false, ◌⊎◌, ◌≡◌, refl, arith}
use go_libp2p_kad_dht.Prelude.Maps.{lookup, insert}
use go_libp2p_kad_dht.Optimistic.{
  scheduled, succeeded, failed, Thresholds, new_optimistic_state, issue, visit_close,
  visit_all_close, distances, sum, should_stop, issue_rest, Access, stop_checked, rpc_ended,
  lookup_ended, access, accesses,
}
use go_libp2p_kad_dht.Optimistic.Waiting.{
  first_loop, second_loop, Waiting, count_done, wait_start, lowered, next_phase, Move, rpc_sends,
  first_receives, lease_had, consumer_receives, Moves, no_move, first_move,
}
use go_libp2p_kad_dht.Optimistic.Issued.{IsIssued, accesses-IsIssued}
use go_libp2p_kad_dht.Optimistic.Released.{left_over, wait_progress, wait_closes_once, wait_blocks}

abbrev limits : Thresholds
limits = record {
  bucket_size = 3;
  normed_distance = λ p. p;
  individual_threshold = 4;
  set_threshold = 2;
}

-- Peers 2 and 4 are close enough, 9 is sent the record after the lookup.
abbrev some_accesses : List Access
some_accesses =
    stop_checked (2 ∷ 9 ∷ [])
    ∷ rpc_ended 2 true
    ∷ stop_checked (2 ∷ 4 ∷ 9 ∷ [])
    ∷ rpc_ended 4 false
    ∷ lookup_ended (2 ∷ 4 ∷ 9 ∷ [])
    ∷ []

accesses_run : accesses limits new_optimistic_state some_accesses ≡ record {
  peer_states = (2, succeeded) ∷ (4, failed) ∷ (9, scheduled) ∷ [];
  issued = 2 ∷ 4 ∷ 9 ∷ [];
}
unfolding accesses access visit_all_close visit_close issue issue_rest lookup insert
accesses_run = refl

-- With one peer known, the two distances that stay 0 make the average small.
stop_run : should_stop limits new_optimistic_state (5 ∷ []) ≡ true
unfolding distances sum
stop_run = refl

accesses-IsIssued_example : IsIssued (accesses limits new_optimistic_state some_accesses)
accesses-IsIssued_example = accesses-IsIssued limits some_accesses

-- Two RPCs, of which waitForRPCs waits for one and leaves the other to a consumer.
abbrev all_done : Waiting
all_done = record {
  phase = second_loop 0;
  running = 0;
  buffered = 0;
  put_prov_done = 2;
  consumers = 0;
  leases = 0;
  closes = 1;
}

waiting-Moves : Moves (lowered 1 2) 2 1 (wait_start 2) all_done
unfolding wait_start lowered next_phase count_done
waiting-Moves = first_move _ _ _ (rpc_sends _ 1 refl (omega arith)) (
    first_move _ _ _ (first_receives _ 0 refl refl) (
      first_move _ _ _ (lease_had _ 0 refl) (
        first_move _ _ _ (rpc_sends _ 0 refl (omega arith))
          (first_move _ _ _ (consumer_receives _ 0 0 refl refl) (no_move _)))))

wait_closes_once_example :
    (2 + 0 + 0 ≡ 2)
    × (all_done.leases ≡ all_done.consumers)
    × ((all_done.closes ≡ 0) ⊎ ((all_done.closes ≡ 1) × (left_over all_done ≡ 0)))
wait_closes_once_example = wait_closes_once 1 2 1 all_done (omega arith) (omega arith) waiting-Moves

wait_progress_example : (v : Waiting) × Move (lowered 1 2) 2 1 (wait_start 2) v
unfolding wait_start
wait_progress_example =
    wait_progress 1 2 1 (wait_start 2) (omega arith) (omega arith) (omega arith)
      (no_move (wait_start 2)) (omega arith)

wait_blocks_example : (wait_start 0).phase ≡ first_loop
wait_blocks_example = wait_blocks 15 15 (wait_start 0) (no_move (wait_start 0))
