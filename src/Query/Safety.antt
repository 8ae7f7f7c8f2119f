-- ===== src/Query/Safety.antt =====
-- The loop of query.go from its start, over every order in which its goroutines report.
use go_libp2p_kad_dht.Prelude.{
  ℕ, suc, ◌==◌, ◌+◌, ◌≤◌, none, some, List, [], ◌∷◌, ◌≡◌, refl, ◌∙◌, sym, inl, inr, arith, true,
  false, Bool-cases, Option-cases, contains, length, tally-le-length, if_true, if_false, some_inj,
  ◌↔◌, ◌⊎◌,
}
use go_libp2p_kad_dht.Qpeerset.{
  PeerId, waiting, queried, unreachable, in_states, QueryPeerset, new_query_peerset,
}
use go_libp2p_kad_dht.Qpeerset.Lookup.{entry}
use go_libp2p_kad_dht.Qpeerset.Invariant.{new_query_peerset-IsValid}
use go_libp2p_kad_dht.Qpeerset.Counts.{found_in}
use go_libp2p_kad_dht.Query.Peers.{Grown, add_heard-Grown, leave_waiting_panics}
use go_libp2p_kad_dht.Query.Rounds.{
  Inv, Outcome, answered, failed, report, report_settles, finished, finished_states,
}
use go_libp2p_kad_dht.Query.Loop.{
  Rest, after_event_total, terminate-Inv, finished-terminate, terminate_sets,
}
use go_libp2p_kad_dht.Query.{
  Config, Query, Event, update, context_done, StopFn, lookup_cancelled, new_query, first_update,
  loop_body, handle_event, update_state, add_heard, mark_queried, mark_queried_one,
  mark_unreachable, mark_unreachable_one, received, run, terminate,
}

-- The loop has ended, or some goroutine runs, unless alpha is 0.
abbrev pub GoesOn : Config → Query → Type 0
GoesOn c q =
    (q.terminated ≡ true) ⊎ ((c.alpha ≡ 0) ⊎ ((p : PeerId) × (contains q.in_flight p ≡ true)))

Rest-GoesOn : (c : Config) (before q : Query) → Rest c before q → GoesOn c q
Rest-GoesOn c before q r = elim (Bool-cases q.terminated) [
  | inl t ↦ inl t
  | inr t ↦ elim (Bool-cases (c.alpha == 0)) [
    | inl z ↦ inr (inl (ground arith))
    | inr z ↦ inr (inr (r.live t (ground arith)))
  ]
]

-- What a round of the loop that started with a report does.
pub record Reported (c : Config) (before after : Query) : Type 0 where
  pub inv : Inv c after
  pub one_more : finished after ≡ suc (finished before)
  pub live : GoesOn c after

-- A round that starts with the report of a running goroutine does not panic, whatever the report says
-- and whatever the stop function answers. Afterwards the peers that wait are exactly those whose
-- goroutine runs and at most alpha wait, one more peer has answered or failed, and the loop has ended
-- or (unless alpha is 0) some goroutine runs that will report.
pub loop_body-report :
    (c : Config) (stop : StopFn) (q : Query) (p : PeerId) (o : Outcome)
    → Inv c q
    → q.terminated ≡ false
    → contains q.in_flight p ≡ true
    → (q' : Query) × (loop_body c stop q (update (report p o)) ≡ some q') × Reported c q q'
unfolding loop_body
loop_body-report c stop q p o v going running =
    let (q1, e, s) = report_settles c q p going v running o in
    let (q2, f, r) = after_event_total c stop q1 s.inv in
    (
      q2,
      rw e f,
      record { inv = r.inv; one_more = r.same ∙ s.one_more; live = Rest-GoesOn c q1 q2 r },
    )

-- A cancelled context ends the loop in the same round, without a panic.
pub loop_body_cancelled :
    (c : Config) (stop : StopFn) (q : Query)
    → Inv c q
    → (q' : Query) × (loop_body c stop q context_done ≡ some q')
      × Inv c q'
      × (q'.terminated ≡ true)
      × (finished q' ≡ finished q)
unfolding loop_body handle_event
loop_body_cancelled c stop q v =
    let (q2, f, r) =
      after_event_total c stop (terminate q lookup_cancelled)
        (terminate-Inv c q lookup_cancelled v) in
    (
      q2,
      f,
      r.inv,
      r.sticky (terminate_sets q lookup_cancelled),
      r.same ∙ finished-terminate q lookup_cancelled,
    )

new_query-Inv : (c : Config) (key : ℕ) (seeds : List PeerId) → Inv c (new_query c key seeds)
unfolding new_query new_query_peerset entry
new_query-Inv c key seeds = record {
  sound = record {
    valid = unfold new_query_peerset in new_query_peerset-IsValid c.keys key;
    no_self = refl;
  };
  flying = λ p. refl;
  bounded = omega arith;
}

first_handled :
    (c : Config) (key : ℕ) (seeds : List PeerId)
    → let q = new_query c key seeds in
      (q1 : Query) × (handle_event c q (update (first_update c q)) ≡ some q1)
      × Inv c q1
      × (finished q1 ≡ 0)
unfolding handle_event update_state mark_queried mark_unreachable first_update new_query entry
    new_query_peerset
first_handled c key seeds =
    let q = new_query c key seeds in
    let v = new_query-Inv c key seeds in
    let g = add_heard-Grown c q.query_peers c.self seeds v.sound in
    let qp = add_heard c q.query_peers c.self seeds in
    (
      record (received q c.self) { query_peers = qp },
      refl,
      record {
        sound = g.sound;
        flying = λ p. elim (Option-cases (entry qp.all p)) [
          | inl e ↦ rw e refl
          | inr (x, e) ↦ ground (arith, g.added p x refl e)
        ];
        bounded = omega (arith, g.counted (waiting ∷ []) refl);
      },
      g.counted finished_states refl,
    )

-- The first round, on the seed peers, does not panic; the invariant holds after it, no peer counts as
-- answered or failed, and the loop has ended or (unless alpha is 0) some goroutine runs.
pub first_round :
    (c : Config) (stop : StopFn) (key : ℕ) (seeds : List PeerId)
    → let q = new_query c key seeds in
      (q' : Query) × (loop_body c stop q (update (first_update c q)) ≡ some q')
      × Inv c q'
      × (finished q' ≡ 0)
      × GoesOn c q'
unfolding loop_body
first_round c stop key seeds =
    let (q1, e, v, z) = first_handled c key seeds in
    let (q2, f, r) = after_event_total c stop q1 v in
    (q2, rw e f, r.inv, r.same ∙ z, Rest-GoesOn c q1 q2 r)

-- The events that `run` can receive from a state on: the reports of running goroutines, in any order,
-- and the end of the context. `answers` are the stop function's.
pub data Schedule (c : Config) : Query → List (Event × StopFn) → Type 0 where
  idle : {q : Query} → Schedule c q []
  cancels :
      {q : Query} (stop : StopFn) (rest : List (Event × StopFn))
      → Schedule c q ((context_done, stop) ∷ rest)
  reports :
      {q : Query} (p : PeerId) (o : Outcome) (stop : StopFn) (rest : List (Event × StopFn))
      → contains q.in_flight p ≡ true
      → ((q' : Query)
          → loop_body c stop q (update (report p o)) ≡ some q'
          → q'.terminated ≡ false
          → Schedule c q' rest)
      → Schedule c q ((update (report p o), stop) ∷ rest)

-- Whatever the order in which the goroutines report, what they report, when the context ends and what
-- the stop function answers, the loop does not panic; and it keeps the invariant, so that never more
-- than alpha peers wait.
pub run_total :
    (c : Config) (q : Query) (es : List (Event × StopFn))
    → Inv c q
    → q.terminated ≡ false
    → Schedule c q es
    → (q' : Query) × (run c q es ≡ some q') × Inv c q'
unfolding run
run_total c q [] v going s = (q, refl, v)
run_total c q ((context_done, stop) ∷ rest) v going (cancels _ _) =
    let (q', e, v', t, same) = loop_body_cancelled c stop q v in (q', rw e (if_true _ _ _ t), v')
run_total c q ((_, stop) ∷ rest) v going (reports p o _ _ running later) =
    let (q1, e, r) = loop_body-report c stop q p o v going running in
    elim (Bool-cases q1.terminated) [
      | inl t ↦ (q1, rw e (if_true _ _ _ t), r.inv)
      | inr t ↦
          let (q2, f, v2) = run_total c q1 rest r.inv t (later q1 e t) in
          (q2, rw e (if_false _ _ _ t ∙ f), v2)
    ]

-- So many rounds, each started by a report, lead from one state to another.
pub data Rounds (c : Config) (q : Query) : Query → ℕ → Type 0 where
  here : Rounds c q q 0
  next :
      {r s : Query} {n : ℕ} (stop : StopFn) (p : PeerId) (o : Outcome)
      → Rounds c q r n
      → r.terminated ≡ false
      → contains r.in_flight p ≡ true
      → loop_body c stop r (update (report p o)) ≡ some s
      → Rounds c q s (suc n)

Rounds-counted :
    (c : Config) (q : Query) {r : Query} {n : ℕ}
    → Inv c q
    → Rounds c q r n
    → Inv c r × (finished r ≡ finished q + n)
Rounds-counted c q v here = (v, omega arith)
Rounds-counted c q v (next {r} {s} {n} stop p o rounds going running e) =
    let (v', k) = Rounds-counted c q v rounds in
    let (s', f, d) = loop_body-report c stop r p o v' going running in
    let same : s' ≡ s = some_inj s' s (sym f ∙ e) in
    rw (← same) (d.inv, omega (arith, d.one_more, k))

-- The loop makes no more rounds that start with a report after the first round than there are peers that
-- it has come to know.
pub Rounds-bounded :
    (c : Config) (q r : Query) (n : ℕ)
    → Inv c q
    → finished q ≡ 0
    → Rounds c q r n
    → n ≤ length r.query_peers.all
Rounds-bounded c q r n v z rounds =
    let (v', k) = Rounds-counted c q v rounds in
    omega (arith, k, tally-le-length (in_states finished_states) r.query_peers.all)

-- What is heard of does not make a peer wait.
heard_waits_not :
    (c : Config) (a b : QueryPeerset) (p : PeerId)
    → Grown c a b
    → found_in (waiting ∷ []) (entry a.all p) ≡ false
    → found_in (waiting ∷ []) (entry b.all p) ≡ false
heard_waits_not c a b p g h = elim (Option-cases (entry a.all p)) [
  | inr (x, e) ↦ rw (g.kept p x e) (rw e at h)
  | inl e ↦ elim (Option-cases (entry b.all p)) [
    | inl f ↦ rw f
    | inr (y, f) ↦ ground (arith, g.added p y e f)
  ]
]

stray_report_panics :
    (c : Config) (q : Query) (p : PeerId) (o : Outcome)
    → Inv c q
    → q.terminated ≡ false
    → (p == c.self) ≡ false
    → found_in (waiting ∷ []) (entry q.query_peers.all p) ≡ false
    → handle_event c q (update (report p o)) ≡ none
unfolding handle_event update_state mark_queried mark_queried_one mark_unreachable
    mark_unreachable_one report add_heard
stray_report_panics c q p (answered hs d) v going other h = rw (
  going,
  other,
  leave_waiting_panics (add_heard c q.query_peers p hs) p queried (
      heard_waits_not c q.query_peers (add_heard c q.query_peers p hs) p
        (add_heard-Grown c q.query_peers p hs v.sound) h),
)
stray_report_panics c q p failed v going other h =
    rw (going, other, leave_waiting_panics q.query_peers p unreachable h)

-- In a state of a loop that goes on, the report of a peer other than this node makes `updateState`
-- panic (the protocol error) exactly when no goroutine for that peer runs.
pub report_panics :
    (c : Config) (q : Query) (p : PeerId) (o : Outcome)
    → Inv c q
    → q.terminated ≡ false
    → (p == c.self) ≡ false
    → (handle_event c q (update (report p o)) ≡ none) ↔ (contains q.in_flight p ≡ false)
report_panics c q p o v going other = (
  λ h. elim (Bool-cases (contains q.in_flight p)) [
    | inl k ↦ absurd (let (q', e, s) = report_settles c q p going v k o in cc)
    | inr k ↦ k
  ],
  λ h. stray_report_panics c q p o v going other (sym (v.flying p) ∙ h),
)
