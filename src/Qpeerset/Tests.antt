-- ===== src/Qpeerset/Tests.antt =====
-- A set of three peers, and the theorems on qpeerset/qpeerset.go at it.
use go_libp2p_kad_dht.Prelude.{
  ◌+◌, ◌-◌, ◌≤◌, some, List, [], ◌∷◌, true, false, ◌≡◌, refl, arith, contains, length, min, pos,
  ◌==◌, ◌++◌, map, select, tally,
}
use go_libp2p_kad_dht.Qpeerset.{
  PeerId, KeySpace, heard, waiting, QueryPeerState, QueryPeerset, in_states, id_of,
  get_closest_n_in_states, insert_by_distance, sort_by_distance, sort, try_add, distance_to_key,
  find, new_query_peerset,
}
use go_libp2p_kad_dht.Qpeerset.Lookup.{entry}
use go_libp2p_kad_dht.Qpeerset.Order.{Ascending}
use go_libp2p_kad_dht.Qpeerset.Invariant.{IsValid}
use go_libp2p_kad_dht.Qpeerset.Closest.{get_closest_n_correct}

abbrev number_line : KeySpace
number_line = record { hash = λ x. x; distance = λ a b. (a - b) + (b - a) }

abbrev far : QueryPeerState
far = record { id = 30; distance = 20; state = heard; referred_by = 1 }

abbrev close : QueryPeerState
close = record { id = 11; distance = 1; state = waiting; referred_by = 1 }

abbrev middle : QueryPeerState
middle = record { id = 5; distance = 5; state = heard; referred_by = 2 }

abbrev three : QueryPeerset
three = record { key = 10; all = far ∷ close ∷ middle ∷ []; sorted = false }

adding_three :
    (try_add number_line
      (try_add number_line (try_add number_line (new_query_peerset number_line 10) 30 1).0 5 2).0
      30
      7)
    ≡ (record { key = 10; all = far ∷ middle ∷ []; sorted = false }, false)
unfolding try_add distance_to_key find new_query_peerset
adding_three = refl

closest_two :
    get_closest_n_in_states three (pos 2) (heard ∷ waiting ∷ [])
    ≡ some (11 ∷ 5 ∷ [], record { key = 10; all = close ∷ middle ∷ far ∷ []; sorted = true })
unfolding get_closest_n_in_states sort sort_by_distance insert_by_distance
closest_two = refl

three-IsValid : IsValid number_line three
unfolding entry
three-IsValid = record {
  unique = (refl, (refl, (refl, tt)));
  measured = (refl, (refl, (refl, tt)));
  ordered = λ h. absurd (ground arith);
}

get_closest_n_correct_example :
    (result : List PeerId) × (qp' : QueryPeerset) × (get_closest_n_in_states three
        (pos 1)
        (heard ∷ [])
      ≡ some (result, qp'))
    × (length result ≡ min 1 (tally (in_states (heard ∷ [])) three.all))
    × ((p : PeerId)
        → contains result p ≡ true
        → (x : QueryPeerState) × (entry three.all p ≡ some x) × (in_states (heard ∷ []) x ≡ true))
    × ((p : PeerId) → tally (λ r. r == p) result ≤ 1)
    × ((taken rest : List QueryPeerState) × (result ≡ map id_of taken)
        × (taken ++ rest ≡ select (in_states (heard ∷ [])) qp'.all))
    × ((p q : PeerId) (x y : QueryPeerState)
        → entry three.all p ≡ some x
        → entry three.all q ≡ some y
        → in_states (heard ∷ []) y ≡ true
        → contains result p ≡ true
        → contains result q ≡ false
        → (in_states (heard ∷ []) x ≡ true) × (x.distance ≤ y.distance))
    × IsValid number_line qp'
    × Ascending qp'.all
    × ((p : PeerId) → entry qp'.all p ≡ entry three.all p)
get_closest_n_correct_example = get_closest_n_correct number_line three 1 (heard ∷ []) three-IsValid
