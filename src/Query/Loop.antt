-- ===== src/Query/Loop.antt =====
-- The second half of a round of the loop of query.go: what it decides, and the query afterwards.
use go_libp2p_kad_dht.Prelude.{
  ℕ, ◌-◌, ◌≤◌, ◌<◌, some, List, [], ◌∷◌, ◌≡◌, refl, ◌∙◌, inl, inr, arith, true, false, Bool-cases,
  contains, pos, sub_ℕ, if_true, if_false,
}
use go_libp2p_kad_dht.Qpeerset.{PeerId, heard, waiting, QueryPeerset, sort}
use go_libp2p_kad_dht.Qpeerset.Closest.{tally_in, num_waiting_lem}
use go_libp2p_kad_dht.Qpeerset.Counts.{tally_none}
use go_libp2p_kad_dht.Query.Rounds.{Inv, finished, finished_states}
use go_libp2p_kad_dht.Query.Decisions.{
  Resorted, Resorted-trans, sort-Resorted, Decision, is_ready_total,
}
use go_libp2p_kad_dht.Query.Progress.{spawn_queries-Started}
use go_libp2p_kad_dht.Query.{
  Config, Query, StopFn, Reason, Readiness, ready, ask, terminate, decide, after_event,
}

-- What the rest of a round does: the invariant stays, the loop ends once it is terminated, and a loop
-- that goes on has a query in flight.
pub record Rest (c : Config) (before after : Query) : Type 0 where
  pub inv : Inv c after
  pub same : finished after ≡ finished before
  pub sticky : before.terminated ≡ true → after.terminated ≡ true
  pub live :
      after.terminated ≡ false → 0 < c.alpha → (p : PeerId) × (contains after.in_flight p ≡ true)

resort-Inv :
    (c : Config) (q : Query) (qp : QueryPeerset)
    → Inv c q
    → Resorted c q.query_peers qp
    → Inv c (record q { query_peers = qp })
resort-Inv c q qp v r = record {
  sound = r.sound;
  flying = λ p. ground (arith, v.flying p, r.entries p);
  bounded = ground (arith, v.bounded, r.counted (waiting ∷ []));
}

-- A waiting peer is in flight.
some_in_flight :
    (c : Config) (q : Query) (ps : List PeerId)
    → Inv c q
    → q.in_flight ≡ ps
    → 0 < tally_in q.query_peers (waiting ∷ [])
    → (p : PeerId) × (contains q.in_flight p ≡ true)
some_in_flight c q [] v e h = absurd (
    omega (
      arith,
      tally_none q.query_peers.all (waiting ∷ []) v.sound.valid.unique
          (λ p. ground (arith, v.flying p)),
    ))
some_in_flight c q (p ∷ ps) v e h = (p, rw e (ground arith))

pub terminate_sets : (q : Query) (r : Reason) → (terminate q r).terminated ≡ true
unfolding terminate
terminate_sets q r = elim (Bool-cases q.terminated) [ inl e ↦ simp e refl | inr e ↦ simp e refl ]

pub terminate-Inv : (c : Config) (q : Query) (r : Reason) → Inv c q → Inv c (terminate q r)
unfolding terminate
terminate-Inv c q r v = elim (Bool-cases q.terminated) [
  | inl e ↦ simp e v
  | inr e ↦ simp e (record { sound = v.sound; flying = v.flying; bounded = v.bounded })
]

pub finished-terminate : (q : Query) (r : Reason) → finished (terminate q r) ≡ finished q
unfolding terminate
finished-terminate q r = elim (Bool-cases q.terminated) [ inl e ↦ simp e | inr e ↦ simp e ]

-- What was asked for, or what waited already, is in flight.
decide_live :
    (c : Config) (q : Query) (qp : QueryPeerset) (ps : List PeerId) (q' : Query) (w : ℕ)
    → Inv c (record q { query_peers = qp })
    → tally_in qp (waiting ∷ []) ≡ w
    → Decision qp (c.alpha - w) (ask ps)
    → 0 < c.alpha
    → ((p : PeerId) → contains q.in_flight p ≡ true → contains q'.in_flight p ≡ true)
    → ((p : PeerId) → contains ps p ≡ true → contains q'.in_flight p ≡ true)
    → (p : PeerId) × (contains q'.in_flight p ≡ true)
decide_live c q qp (p ∷ ps) q' w v e d k kept all = (p, all p (ground arith))
decide_live c q qp [] q' w v e d k kept all =
    let (p, h) =
      some_in_flight c (record q { query_peers = qp }) q.in_flight v refl
        (omega (arith, d.0, d.2)) in
    (p, kept p h)

decide-Rest :
    (c : Config) (q : Query) (qp : QueryPeerset) (r : Readiness) (w : ℕ)
    → Inv c q
    → Resorted c q.query_peers qp
    → tally_in qp (waiting ∷ []) ≡ w
    → Decision qp (c.alpha - w) r
    → (q' : Query) × (decide (record q { query_peers = qp }) r ≡ some q') × Rest c q q'
unfolding decide
decide-Rest c q qp (ready reason) w v s e d =
    let q' = record q { query_peers = qp } in
    (
      terminate q' reason,
      refl,
      record {
        inv = terminate-Inv c q' reason (resort-Inv c q qp v s);
        same = finished-terminate q' reason ∙ s.counted finished_states;
        sticky = λ h. terminate_sets q' reason;
        live = λ h k. absurd (let t = terminate_sets q' reason in cc);
      },
    )
decide-Rest c q qp (ask ps) w v s e d = elim (Bool-cases q.terminated) [
  | inl t ↦ (
    record q { query_peers = qp },
    if_true _ _ _ t,
    record {
      inv = resort-Inv c q qp v s;
      same = s.counted finished_states;
      sticky = λ h. h;
      live = λ h k. absurd (cc);
    },
  )
  | inr t ↦
      let v' = resort-Inv c q qp v s in
      let (q', ok, st, kept, all) =
        spawn_queries-Started c (record q { query_peers = qp }) ps v'
          (λ p h. ground (arith, d.1 p h)) (omega (arith, v'.bounded, d.0)) in
      (
        q',
        if_false _ _ _ t ∙ ok,
        record {
          inv = st.inv;
          same = st.same ∙ s.counted finished_states;
          sticky = λ h. absurd (cc);
          live = λ h k. decide_live c q qp ps q' w v' e d k kept all;
        },
      )
]

Decision-resort :
    (c : Config) (a b : QueryPeerset) (n : ℕ) (r : Readiness)
    → Resorted c a b
    → Decision a n r
    → Decision b n r
Decision-resort c a b n (ready reason) s d = tt
Decision-resort c a b n (ask ps) s d = (
  omega (arith, d.0, s.counted (heard ∷ [])),
  λ p h. ground (arith, s.entries p, d.1 p h),
  omega (arith, d.2, s.counted (heard ∷ []), s.counted (waiting ∷ [])),
)

le_sub_ℕ : (a w : ℕ) → w ≤ a → sub_ℕ a w ≡ pos (a - w)
le_sub_ℕ a w h = ground arith

-- The rest of a round never panics.
pub after_event_total :
    (c : Config) (stop : StopFn) (q : Query)
    → Inv c q
    → (q' : Query) × (after_event c stop q ≡ some q') × Rest c q q'
unfolding after_event
after_event_total c stop q v =
    let w = tally_in q.query_peers (waiting ∷ []) in
    let s1 = sort-Resorted c q.query_peers v.sound in
    let (r, qp, e, s2, d) = is_ready_total c stop (sort q.query_peers) (c.alpha - w) s1.sound in
    let s3 = Resorted-trans c q.query_peers (sort q.query_peers) qp s1 s2 in
    let (q', f, rest) =
      decide-Rest c q qp r w v s3 (s3.counted (waiting ∷ []))
        (Decision-resort c (sort q.query_peers) qp (c.alpha - w) r s2 d) in
    (q', rw (num_waiting_lem q.query_peers) (rw (le_sub_ℕ c.alpha w v.bounded, e) f), rest)
