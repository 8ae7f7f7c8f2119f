-- ===== src/Values/Tests.antt =====
-- A search over five responses, and the theorems on the search of routing.go at it.
use go_libp2p_kad_dht.Prelude.{
  ℕ, ltb, if◌then◌else◌, Option, some, List, [], ◌∷◌, true, ◌≡◌, refl, arith,
}
use go_libp2p_kad_dht.Values.{
  new_search, check_quorum, new_val, take_best, selected, against_best, handle_value, Arrival,
  value, closed, process_values, update_peers,
}
use go_libp2p_kad_dht.Values.Best.{Ranks, IsBest, handled, process_values-IsBest}
use go_libp2p_kad_dht.Values.Quorum.{Counting, process_values-Counting}

abbrev higher : ℕ → ℕ → Option ℕ
higher a b = some (if ltb a b then 1 else 0)

higher-Ranks : Ranks (λ v. v) higher
higher-Ranks a b = refl

abbrev arrivals : List Arrival
arrivals =
    value (record { val = 5; from = 1 }) true
    ∷ value (record { val = 8; from = 2 }) true
    ∷ value (record { val = 5; from = 3 }) true
    ∷ value (record { val = 8; from = 4 }) true
    ∷ closed
    ∷ []

program : Unit {0}
unfolding check_quorum new_val take_best selected against_best handle_value process_values
    update_peers
program = tt

-- Without a quorum every value is read; 2 and 4 have the best one, and 9 is to be corrected.
all_read :
    let s = process_values higher 0 new_search arrivals in
    (s.best ≡ some 8)
    × (s.peers_with_best ≡ 4 ∷ 2 ∷ [])
    × (s.out ≡ 5 ∷ 8 ∷ [])
    × (update_peers s (2 ∷ 9 ∷ []) ≡ 9 ∷ [])
unfolding program
all_read = (refl, refl, refl, refl)

-- With a quorum of 2 the search stops at the third response.
quorum_of_two :
    let s = process_values higher 2 new_search arrivals in
    (s.num_responses ≡ 3) × (s.aborted ≡ true) × (s.stop_closed ≡ true)
unfolding program
quorum_of_two = (refl, refl, refl)

process_values-IsBest_example :
    let t = process_values higher 0 new_search arrivals in
    IsBest (λ v. v) (handled higher 0 new_search arrivals []) t.best t.peers_with_best
process_values-IsBest_example =
    process_values-IsBest (λ v. v) higher higher-Ranks 0 new_search arrivals [] refl

process_values-Counting_example : Counting 2 (process_values higher 2 new_search arrivals)
process_values-Counting_example =
    process_values-Counting higher 2 new_search arrivals (omega arith)
      (refl, (refl, (refl, (refl, tt)))) (refl, λ h. absurd (ground arith), λ h. omega arith) refl
