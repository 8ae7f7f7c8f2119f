-- ===== src/Query/Decisions.antt =====
-- The end of one round of the loop of query.go: whether to stop, and the queries that start.
use go_libp2p_kad_dht.Prelude.{
  ℕ, ◌==◌, ◌+◌, ◌<◌, some, List, [], ◌∷◌, ◌≡◌, refl, ◌∙◌, inl, inr, arith, Bool, true, false, ◌&&◌,
  Bool-cases, contains, length, min, pos, ap, sym,
}
use go_libp2p_kad_dht.Qpeerset.{
  PeerId, PeerState, heard, waiting, queried, in_states, state_eq, QueryPeerState, QueryPeerset,
  sort,
}
use go_libp2p_kad_dht.Qpeerset.Lookup.{entry}
use go_libp2p_kad_dht.Qpeerset.Firsts.{firsts_found}
use go_libp2p_kad_dht.Qpeerset.Invariant.{sort-IsValid, entry-sort_set, get_state-entry}
use go_libp2p_kad_dht.Qpeerset.Closest.{
  tally_in, tally-sort_set, closest_in, get_closest_n_lem, length-closest_in, num_heard_lem,
  num_waiting_lem,
}
use go_libp2p_kad_dht.Qpeerset.Counts.{found_in}
use go_libp2p_kad_dht.Query.Peers.{IsSound}
use go_libp2p_kad_dht.Query.{
  Config, StopFn, Reason, Readiness, ready, ask, all_queried, is_lookup_termination,
  reachable_states, is_starvation_termination, is_ready_to_terminate,
}

-- The same peers in the same states, perhaps in another order.
pub record Resorted (c : Config) (before after : QueryPeerset) : Type 0 where
  pub sound : IsSound c after
  pub entries : (p : PeerId) → entry after.all p ≡ entry before.all p
  pub counted : (states : List PeerState) → tally_in after states ≡ tally_in before states

pub sort-Resorted : (c : Config) (qp : QueryPeerset) → IsSound c qp → Resorted c qp (sort qp)
sort-Resorted c qp s = record {
  sound = record {
    valid = (sort-IsValid c.keys qp s.valid).0;
    no_self = entry-sort_set c.keys qp c.self s.valid ∙ s.no_self;
  };
  entries = λ p. entry-sort_set c.keys qp p s.valid;
  counted = λ states. tally-sort_set (in_states states) qp;
}

Resorted-refl : (c : Config) (qp : QueryPeerset) → IsSound c qp → Resorted c qp qp
Resorted-refl c qp s = record { sound = s; entries = λ p. refl; counted = λ states. refl }

pub Resorted-trans :
    (c : Config) (a b d : QueryPeerset) → Resorted c a b → Resorted c b d → Resorted c a d
Resorted-trans c a b d r s = record {
  sound = s.sound;
  entries = λ p. s.entries p ∙ r.entries p;
  counted = λ states. s.counted states ∙ r.counted states;
}

pub closest_found :
    (c : Config) (qp : QueryPeerset) (n : ℕ) (states : List PeerState) (p : PeerId)
    → IsSound c qp
    → contains (closest_in qp n states) p ≡ true
    → (x : QueryPeerState) × (entry qp.all p ≡ some x) × (in_states states x ≡ true)
closest_found c qp n states p s h =
    let (x, e, k) =
      firsts_found (in_states states) n (sort qp).all p (sort-IsValid c.keys qp s.valid).0.unique
        h in
    (x, sym (entry-sort_set c.keys qp p s.valid) ∙ e, k)

-- The states of known peers can be read.
all_queried_total :
    (qp : QueryPeerset) (ps : List PeerId)
    → ((p : PeerId) → contains ps p ≡ true → (x : QueryPeerState) × (entry qp.all p ≡ some x))
    → (b : Bool) × (all_queried qp ps ≡ some b)
unfolding all_queried
all_queried_total qp [] h = (true, refl)
all_queried_total qp (p ∷ ps) h =
    let (x, e) = h p (ground arith) in
    let (b, f) = all_queried_total qp ps (λ r k. h r (ground arith)) in
    elim (Bool-cases (state_eq x.state queried)) [
      | inl k ↦ (b, rw (get_state-entry qp p, e) (rw k f))
      | inr k ↦ (false, rw (get_state-entry qp p, e) (rw k))
    ]

pub is_lookup_total :
    (c : Config) (qp : QueryPeerset)
    → IsSound c qp
    → (b : Bool) × (is_lookup_termination c qp ≡ some (b, sort qp))
unfolding is_lookup_termination
is_lookup_total c qp s =
    let (b, e) = all_queried_total (sort qp) (closest_in qp c.beta reachable_states) (λ p h.
      let (x, f, k) = closest_found c qp c.beta reachable_states p s h in
      (x, entry-sort_set c.keys qp p s.valid ∙ f)) in
    (b, rw (get_closest_n_lem qp c.beta reachable_states) (rw e))

pub is_starvation_lem :
    (qp : QueryPeerset)
    → is_starvation_termination qp
      ≡ some ((tally_in qp (heard ∷ []) == 0) && (tally_in qp (waiting ∷ []) == 0), sort (sort qp))
unfolding is_starvation_termination
is_starvation_lem qp =
    rw (num_heard_lem qp)
      (rw (num_waiting_lem (sort qp)) (rw (tally-sort_set (in_states (waiting ∷ [])) qp)))

-- What the answer of `isReadyToTerminate` says of the set that it was asked about.
abbrev pub Decision : QueryPeerset → ℕ → Readiness → Type 0
Decision qp n (ready r) = Unit
Decision qp n (ask ps) =
    (length ps ≡ min n (tally_in qp (heard ∷ [])))
    × ((p : PeerId) → contains ps p ≡ true → found_in (heard ∷ []) (entry qp.all p) ≡ true)
    × (0 < tally_in qp (heard ∷ []) + tally_in qp (waiting ∷ []))

-- For a count of at least 0 the answer comes, and the set keeps its entries.
pub is_ready_total :
    (c : Config) (stop : StopFn) (qp : QueryPeerset) (n : ℕ)
    → IsSound c qp
    → (r : Readiness) × (qp' : QueryPeerset) × (is_ready_to_terminate c stop qp (pos n)
        ≡ some (r, qp'))
      × Resorted c qp qp'
      × Decision qp n r
unfolding is_ready_to_terminate
is_ready_total c stop qp n s = elim (Bool-cases (stop qp)) [
  | inl e ↦ (ready Reason.lookup_stopped, qp, rw e, Resorted-refl c qp s, tt)
  | inr e ↦
      let r1 = sort-Resorted c qp s in
      let qp1 = sort (sort qp) in
      let r2 = Resorted-trans c qp (sort qp) qp1 r1 (sort-Resorted c (sort qp) r1.sound) in
      let (b, f) = is_lookup_total c qp1 r2.sound in
      let r3 = Resorted-trans c qp qp1 (sort qp1) r2 (sort-Resorted c qp1 r2.sound) in
      let qp4 = sort (sort qp1) in
      let r4 = Resorted-trans c qp (sort qp1) qp4 r3 (sort-Resorted c (sort qp1) r3.sound) in
      let ps = closest_in (sort qp1) n (heard ∷ []) in
      elim (Bool-cases ((tally_in qp (heard ∷ []) == 0) && (tally_in qp (waiting ∷ []) == 0))) [
        | inl k ↦ (ready Reason.lookup_starvation, qp1, rw (e, is_starvation_lem qp) (rw k), r2, tt)
        | inr k ↦ elim (Bool-cases b) [
          | inl d ↦ (
            ready Reason.lookup_completed,
            sort qp1,
            rw (e, is_starvation_lem qp) (rw k (rw f (rw d))),
            r3,
            tt,
          )
          | inr d ↦ (
            ask ps,
            qp4,
            rw (e, is_starvation_lem qp)
                (rw k (rw f (rw d (rw (get_closest_n_lem (sort qp1) n (heard ∷ [])))))),
            r4,
            (
              length-closest_in (sort qp1) n (heard ∷ []) ∙ ap (min n) (r3.counted (heard ∷ [])),
              λ p h.
                  let (x, m, t) = closest_found c (sort qp1) n (heard ∷ []) p r3.sound h in
                  ground (arith, r3.entries p),
              ground arith,
            ),
          )
        ]
      ]
]
