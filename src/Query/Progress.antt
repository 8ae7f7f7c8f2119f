-- ===== src/Query/Progress.antt =====
-- What a round of the loop of query.go does after its event: spawnQuery and the queries it starts.
use go_libp2p_kad_dht.Prelude.{
  suc, ◌==◌, ◌+◌, ◌≤◌, some, List, [], ◌∷◌, ◌≡◌, refl, ◌∙◌, inl, inr, arith, true, Bool-cases,
  Option-cases, contains, length,
}
use go_libp2p_kad_dht.Qpeerset.{
  PeerId, PeerState, heard, waiting, in_states, QueryPeerState, set_state, get_referrer,
}
use go_libp2p_kad_dht.Qpeerset.Lookup.{entry}
use go_libp2p_kad_dht.Qpeerset.Invariant.{get_referrer-entry}
use go_libp2p_kad_dht.Qpeerset.Closest.{tally_in}
use go_libp2p_kad_dht.Qpeerset.Counts.{found_in}
use go_libp2p_kad_dht.Query.Peers.{set_state-Moved}
use go_libp2p_kad_dht.Query.Rounds.{Inv, finished, finished_states}
use go_libp2p_kad_dht.Query.{Config, Query, spawn_query, spawn_queries}

-- What a start of queries keeps.
pub record Started (c : Config) (before after : Query) : Type 0 where
  pub inv : Inv c after
  pub going : after.terminated ≡ before.terminated
  pub same : finished after ≡ finished before

-- A peer that has neither answered nor failed.
abbrev pub open_states : List PeerState
open_states = heard ∷ waiting ∷ []

spawn_query-Started :
    (c : Config) (q : Query) (p : PeerId) (x : QueryPeerState)
    → Inv c q
    → entry q.query_peers.all p ≡ some x
    → in_states open_states x ≡ true
    → suc (tally_in q.query_peers (waiting ∷ [])) ≤ c.alpha
    → (q' : Query) × (spawn_query q p ≡ some q')
      × Started c q q'
      × (tally_in q'.query_peers (waiting ∷ []) ≤ suc (tally_in q.query_peers (waiting ∷ [])))
      × ((r : PeerId)
          → found_in open_states (entry q.query_peers.all r) ≡ true
          → found_in open_states (entry q'.query_peers.all r) ≡ true)
      × (contains q'.in_flight p ≡ true)
unfolding spawn_query
spawn_query-Started c q p x v e h room =
    let (qp, ok, m) = set_state-Moved c q.query_peers p x waiting v.sound e in
    (
      record q { query_peers = qp; in_flight = p ∷ q.in_flight },
      rw (get_referrer-entry q.query_peers p, e) (rw ok),
      record {
        inv = record {
          sound = m.sound;
          flying = λ r. ground (arith, m.entries r, v.flying r);
          bounded = ground (arith, m.counted (waiting ∷ []));
        };
        going = refl;
        same = ground (arith, m.counted finished_states);
      },
      ground (arith, m.counted (waiting ∷ [])),
      λ r k. ground (arith, m.entries r),
      ground arith,
    )

in_flight_grows :
    (q q' : Query) (p r : PeerId)
    → contains q.in_flight r ≡ true
    → spawn_query q p ≡ some q'
    → contains q'.in_flight r ≡ true
unfolding spawn_query
in_flight_grows q q' p r h e = elim (Option-cases (get_referrer q.query_peers p)) [
  | inl f ↦ absurd (let e' = (rw f at e) in cc)
  | inr (s, f) ↦ elim (Option-cases (set_state q.query_peers p waiting)) [
    | inl g ↦ absurd (let e' = (rw (f, g) at e) in cc)
    | inr (qp, g) ↦ let e' = (rw (f, g) at e) in ground arith
  ]
]

pub spawn_queries-Started :
    (c : Config) (q : Query) (ps : List PeerId)
    → Inv c q
    → ((p : PeerId)
        → contains ps p ≡ true
        → found_in open_states (entry q.query_peers.all p) ≡ true)
    → length ps + tally_in q.query_peers (waiting ∷ []) ≤ c.alpha
    → (q' : Query) × (spawn_queries q ps ≡ some q')
      × Started c q q'
      × ((p : PeerId) → contains q.in_flight p ≡ true → contains q'.in_flight p ≡ true)
      × ((p : PeerId) → contains ps p ≡ true → contains q'.in_flight p ≡ true)
unfolding spawn_queries
spawn_queries-Started c q [] v h room =
    (q, refl, record { inv = v; going = refl; same = refl }, λ p k. k, λ p k. absurd (cc))
spawn_queries-Started c q (p ∷ ps) v h room = elim (Option-cases (entry q.query_peers.all p)) [
  | inl e ↦ absurd (ground (arith, h p (ground arith)))
  | inr (x, e) ↦
      let (q1, ok, s, few, opens, started) =
        spawn_query-Started c q p x v e (ground (arith, h p (ground arith))) (omega arith) in
      let (q2, ok2, s2, kept, all) =
        spawn_queries-Started c q1 ps s.inv (λ r k. opens r (h r (ground arith))) (omega arith) in
      (
        q2,
        rw (ok) ok2,
        record { inv = s2.inv; going = s2.going ∙ s.going; same = s2.same ∙ s.same },
        λ r k. kept r (in_flight_grows q q1 p r k ok),
        λ r k. elim (Bool-cases (p == r)) [
          | inl same ↦ kept r (ground arith)
          | inr other ↦ all r (ground arith)
        ],
      )
]
