-- ===== src/Fullrt/Tests.antt =====
-- Runs of the client with the whole routing table, and the theorems at concrete inputs.
use go_libp2p_kad_dht.Prelude.{
  ℕ, ◌==◌, if◌then◌else◌, ◌≤◌, some, List, [], ◌∷◌, true, false, ◌&&◌, ◌⊎◌, ◌≡◌, refl, arith,
  length, tally, contains,
}
use go_libp2p_kad_dht.Prelude.Maps.{lookup, insert}
use go_libp2p_kad_dht.Qpeerset.{PeerId}
use go_libp2p_kad_dht.Diversity.Response.{any_in, put_peer}
use go_libp2p_kad_dht.Fullrt.{
  Table, ExecEvent, op_ended, tick, divide_step, divide_loop, last_chunk, divide_by_chunk_size,
  start_ticker, exec_step, exec_loop, exec_on_many, count_addrs, peers_loop, batches,
  get_closest_peers, planned_messages, chunk_size_for, add_key, keys_per_peer, is_ready,
  crawl_starts, crawl_found,
}
use go_libp2p_kad_dht.Fullrt.Waiting.{is_success, exec_on_many_returns}
use go_libp2p_kad_dht.Fullrt.Diverse.{get_closest_peers_diverse}
use go_libp2p_kad_dht.Fullrt.Sending.{
  BulkMove, receives, tests, returns, bulk_start, bulk_move, bulk_moves, receive_message,
  test_report, report_call, idle,
}
use go_libp2p_kad_dht.Fullrt.Remaining.{IsFinished, CanMove}
use go_libp2p_kad_dht.Fullrt.Sound.{called, succeeded, Covered}
use go_libp2p_kad_dht.Fullrt.Delivered.{bulk_moves_covers}

divide_run : divide_by_chunk_size (1 ∷ 2 ∷ 3 ∷ []) 2 ≡ some ((1 ∷ 2 ∷ []) ∷ (3 ∷ []) ∷ [])
unfolding divide_by_chunk_size divide_loop divide_step last_chunk
divide_run = refl

abbrev three_ends : List ExecEvent
three_ends = op_ended true ∷ tick ∷ op_ended false ∷ op_ended true ∷ []

exec_run : exec_on_many 1 3 true three_ends ≡ some 1
unfolding exec_on_many exec_loop exec_step start_ticker
exec_run = refl

exec_on_many_returns_example :
    (r : ℕ) × (exec_on_many 1 3 true three_ends ≡ some r)
    × (r ≤ tally is_success three_ends)
    × ((true ≡ true) ⊎ (r ≡ tally is_success three_ends))
exec_on_many_returns_example = exec_on_many_returns 1 3 true three_ends refl

abbrev addrs_of : ℕ → List ℕ
addrs_of p = if p == 1 then 4 ∷ 5 ∷ [] else 6 ∷ []

-- Peer 1 has two addresses, and all addresses are in the group 7.
abbrev table : Table
table = record {
  sorted = 10 ∷ 20 ∷ 30 ∷ [];
  key_to_peer = λ k. lookup k ((10, 1) ∷ (20, 2) ∷ (30, 3) ∷ []);
  peer_addrs = addrs_of;
  ip_groups = record { to_ip = λ a. some a; ip_group_key = λ ip. 7 };
  bucket_size = 2;
  diversity_limit = 1;
}

-- Peer 1 fills the group and is skipped, and so are the others.
closest_run : get_closest_peers table ≡ []
unfolding get_closest_peers batches peers_loop count_addrs lookup insert put_peer
closest_run = refl

get_closest_peers_diverse_example :
    (ms : List PeerId) × (length ms ≤ 1)
    × ((q : PeerId)
        → contains (get_closest_peers table) q ≡ true
        → any_in table.ip_groups 7 (table.peer_addrs q) ≡ true
        → contains ms q ≡ true)
get_closest_peers_diverse_example = get_closest_peers_diverse table 7 (omega arith)

abbrev closest_of : ℕ → List PeerId
closest_of k = if k == 5 then 1 ∷ 2 ∷ [] else 2 ∷ []

bulk_run :
    planned_messages closest_of 1 2 (5 ∷ 6 ∷ []) ≡ some (((1, 5 ∷ []) ∷ (2, 5 ∷ 6 ∷ []) ∷ []) ∷ [])
unfolding planned_messages chunk_size_for divide_by_chunk_size divide_loop divide_step last_chunk
    keys_per_peer add_key lookup insert
bulk_run = refl

-- Two workers: the first sends 6 and 5 to the peer 2, where 5 fails; the second does not reach the peer 1.
abbrev two_workers : List BulkMove
two_workers =
    receives 0 true
    ∷ tests 0 true
    ∷ receives 1 false
    ∷ returns 0 true
    ∷ tests 0 true
    ∷ returns 0 false
    ∷ tests 0 true
    ∷ []

abbrev reordered : List (PeerId × List ℕ)
reordered = (2, 6 ∷ 5 ∷ []) ∷ (1, 5 ∷ []) ∷ []

moves_run :
    let s = bulk_moves 2 1 (bulk_start reordered) two_workers in
    (s.queue ≡ [])
    × (s.workers 0 ≡ idle)
    × (s.successes 6 ≡ 1)
    × (s.failures 5 ≡ 1)
    × (s.skipped ≡ 1 ∷ [])
unfolding bulk_moves bulk_move receive_message test_report report_call
moves_run = (refl, refl, refl, refl, refl)

bulk_moves_covers_example :
    let s = bulk_moves 2 1 (bulk_start reordered) two_workers in
    ((called s.calls 2 6 ≡ false) ⊎ ((contains (5 ∷ 6 ∷ []) 6 && contains (closest_of 6) 2) ≡ true))
    × (s.successes 6 ≡ tally (succeeded 6) s.calls)
    × ((s.ended ≡ true)
        ⊎ ((contains (5 ∷ 6 ∷ []) 6 && contains (closest_of 6) 2) ≡ false)
        ⊎ Covered 1 s 2 6)
    × ((◌≡◌ {A = ℕ} 2 0) ⊎ IsFinished 2 s ⊎ CanMove 2 1 s)
bulk_moves_covers_example =
    bulk_moves_covers closest_of 1 2 2 1 (5 ∷ 6 ∷ []) (((1, 5 ∷ []) ∷ (2, 5 ∷ 6 ∷ []) ∷ []) ∷ [])
      reordered two_workers 2 6 bulk_run (λ q k. ground arith)

ready_run : is_ready 5 10 3 1 ≡ true
unfolding is_ready
ready_run = refl

starts_run :
    crawl_starts (1 ∷ []) (record { id = 2; addrs = 9 ∷ [] } ∷ [])
    ≡ record { id = 1; addrs = [] } ∷ record { id = 2; addrs = 9 ∷ [] } ∷ []
unfolding crawl_starts
starts_run = refl

found_run : crawl_found (λ p. p == 1) (λ p. p ∷ []) [] (1 ∷ 2 ∷ []) ≡ (1, 1 ∷ []) ∷ []
unfolding crawl_found insert
found_run = refl
