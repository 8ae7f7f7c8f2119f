-- ===== src/Query/Rounds.antt =====
-- One round of the loop of query.go, seen from the updates that the goroutines can send.
use go_libp2p_kad_dht.Prelude.{
  ℕ, suc, ◌==◌, ◌≤◌, some, List, [], ◌∷◌, ◌≡◌, refl, inl, inr, arith, true, false, not, ◌&&◌,
  Bool-cases, Option-cases, contains, select,
}
use go_libp2p_kad_dht.Qpeerset.{
  PeerId, PeerState, waiting, queried, unreachable, one_of, QueryPeerState, QueryPeerset,
}
use go_libp2p_kad_dht.Qpeerset.Lookup.{entry}
use go_libp2p_kad_dht.Qpeerset.Closest.{tally_in}
use go_libp2p_kad_dht.Qpeerset.Counts.{found_in}
use go_libp2p_kad_dht.Query.Peers.{IsSound, Grown, Moved, add_heard-Grown, leave_waiting-Moved}
use go_libp2p_kad_dht.Query.{
  Config, Query, QueryUpdate, update, add_heard, mark_queried, mark_queried_one, mark_unreachable,
  mark_unreachable_one, update_state, received, handle_event,
}

-- What a goroutine reports of its peer: an answer with the peers heard of, or a failure.
pub data Outcome : Type 0 where
  answered : List PeerId → ℕ → Outcome
  failed : Outcome

unfoldable pub report : PeerId → Outcome → QueryUpdate
report p (answered heard_peers duration) = record {
  cause = p;
  queried_peers = p ∷ [];
  heard_peers = heard_peers;
  unreachable_peers = [];
  query_duration = duration;
}
report p failed = record {
  cause = p;
  queried_peers = [];
  heard_peers = [];
  unreachable_peers = p ∷ [];
  query_duration = 0;
}

-- The peers that wait are exactly those whose goroutine runs.
pub record Inv (c : Config) (q : Query) : Type 0 where
  pub sound : IsSound c q.query_peers
  pub flying :
      (p : PeerId) → contains q.in_flight p ≡ found_in (waiting ∷ []) (entry q.query_peers.all p)
  pub bounded : tally_in q.query_peers (waiting ∷ []) ≤ c.alpha

pub contains-select_ne :
    (ps : List PeerId) (p r : PeerId)
    → contains (select (λ s. not (s == p)) ps) r ≡ (contains ps r && not (p == r))
contains-select_ne [] p r = refl
contains-select_ne (s ∷ ps) p r = ground (arith, contains-select_ne ps p r)

pub in_flight_waits :
    (c : Config) (q : Query) (p : PeerId)
    → Inv c q
    → contains q.in_flight p ≡ true
    → (x : QueryPeerState) × (entry q.query_peers.all p ≡ some x) × (x.state ≡ waiting)
in_flight_waits c q p v h = elim (Option-cases (entry q.query_peers.all p)) [
  | inl e ↦ absurd (ground (arith, v.flying p))
  | inr (x, e) ↦ (x, e, ground (arith, v.flying p))
]

-- The count of peers that have answered or failed.
abbrev pub finished_states : List PeerState
finished_states = queried ∷ unreachable ∷ []

abbrev pub finished : Query → ℕ
finished q = tally_in q.query_peers finished_states

-- The query after the report of a running goroutine.
pub record Settled (c : Config) (before after : Query) : Type 0 where
  pub inv : Inv c after
  pub going : after.terminated ≡ false
  pub one_more : finished after ≡ suc (finished before)

module _ (c : Config) (q : Query) (p : PeerId) (going : q.terminated ≡ false) (v : Inv c q)
    (running : contains q.in_flight p ≡ true) where
  -- The peer of a running goroutine is not this node.
  not_self : (p == c.self) ≡ false
  not_self =
      let (x, e, w) = in_flight_waits c q p v running in
      elim (Bool-cases (p == c.self)) [
        | inl h ↦ absurd (ground (arith, v.sound.no_self))
        | inr h ↦ h
      ]

  settle :
      (grown moved : QueryPeerset) (times : List (PeerId × ℕ)) (x : QueryPeerState) (s : PeerState)
      → entry q.query_peers.all p ≡ some x
      → x.state ≡ waiting
      → one_of finished_states s ≡ true
      → Grown c q.query_peers grown
      → Moved c grown moved p x s
      → Settled c q (record (received q p) { query_peers = moved; peer_times = times })
  settle grown moved times x s e w done g m = record {
    inv = record {
      sound = m.sound;
      flying = λ r. elim (Option-cases (entry q.query_peers.all r)) [
        | inl f ↦ elim (Option-cases (entry grown.all r)) [
          | inl k ↦ ground (arith, contains-select_ne q.in_flight p r, v.flying r, m.entries r)
          | inr (y, k) ↦
              ground (
                arith,
                contains-select_ne q.in_flight p r,
                v.flying r,
                m.entries r,
                g.added r y f k,
              )
        ]
        | inr (y, f) ↦
            ground
              (arith, contains-select_ne q.in_flight p r, v.flying r, m.entries r, g.kept r y f)
      ];
      bounded = ground (arith, v.bounded, g.counted (waiting ∷ []), m.counted (waiting ∷ []));
    };
    going = going;
    one_more = ground (arith, g.counted finished_states, m.counted finished_states);
  }

  -- The report of a running goroutine never panics, and settles its peer.
  pub report_settles :
      (o : Outcome)
      → (q' : Query) × (handle_event c q (update (report p o)) ≡ some q') × Settled c q q'
  unfolding handle_event update_state report mark_queried mark_queried_one mark_unreachable
      mark_unreachable_one add_heard
  report_settles (answered hs d) =
      let (x, e, w) = in_flight_waits c q p v running in
      let g = add_heard-Grown c q.query_peers p hs v.sound in
      let grown = add_heard c q.query_peers p hs in
      let (moved, ok, m) = leave_waiting-Moved c grown p x queried g.sound (g.kept p x e) w in
      (
        record (received q p) { query_peers = moved; peer_times = (p, d) ∷ q.peer_times },
        rw (going, not_self, ok),
        settle grown moved ((p, d) ∷ q.peer_times) x queried e w refl g m,
      )
  report_settles failed =
      let (x, e, w) = in_flight_waits c q p v running in
      let g = add_heard-Grown c q.query_peers p [] v.sound in
      let (moved, ok, m) = leave_waiting-Moved c q.query_peers p x unreachable v.sound e w in
      (
        record (received q p) { query_peers = moved },
        rw (going, not_self, ok),
        settle q.query_peers moved q.peer_times x unreachable e w refl g m,
      )
