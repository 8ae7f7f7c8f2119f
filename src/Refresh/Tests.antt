-- ===== src/Refresh/Tests.antt =====
-- Refreshes of a small routing table, and the theorems at concrete inputs.
use go_libp2p_kad_dht.Prelude.{
  ℕ, ◌==◌, if◌then◌else◌, some, List, [], ◌∷◌, true, false, ◌≡◌, refl, ◌&&◌, length,
}
use go_libp2p_kad_dht.Refresh.{
  Env, no_error, deadline_exceeded, run_refresh_dht_query, query_for_self, refresh_cpl,
  refresh_cpl_if_eligible, refresh_one, refresh_range, refresh_from, do_refresh,
}
use go_libp2p_kad_dht.Refresh.Reach.{range_from, first_gap, reach, is_none, do_refresh-reach}

-- No peers at the cpl 1, and every query of a cpl runs into its own deadline.
abbrev with_gap : Env
with_gap = record {
  dht_peer_id = 99;
  refresh_key_gen = λ c. some c;
  refresh_query = λ k. if k == 99 then no_error else deadline_exceeded;
  query_timed_out = λ k. true;
  refresh_interval = 10;
  n_peers_for_cpl = λ c. if c == 1 then 0 else 5;
}

abbrev ages : List ℕ
ages = 0 ∷ 20 ∷ 0 ∷ 20 ∷ []

program : Unit {0}
unfolding run_refresh_dht_query query_for_self refresh_cpl refresh_cpl_if_eligible refresh_one
    refresh_range refresh_from do_refresh
program = tt

-- The gap is at 1, so that the refresh goes on up to 4, and reports nothing.
gap_run :
    do_refresh with_gap true true (0 ∷ 0 ∷ 0 ∷ 0 ∷ 0 ∷ 0 ∷ 0 ∷ [])
    ≡ record { attempted = 0 ∷ 1 ∷ 2 ∷ 3 ∷ 4 ∷ []; errors = []; done = false }
unfolding program
gap_run = refl

do_refresh-reach_example :
    let gap = first_gap with_gap false 0 ages in
    ((do_refresh with_gap false true ages).attempted ≡ range_from 0 (reach (length ages) gap))
    × ((do_refresh with_gap false true ages).done ≡ (true && is_none gap))
do_refresh-reach_example = do_refresh-reach with_gap false true ages
