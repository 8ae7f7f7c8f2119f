-- ===== src/Query/Answers.antt =====
-- What the results of query.go say: construct_lookup_result, record_valuable_peers, follow_up.
use go_libp2p_kad_dht.Prelude.{
  ℕ, zero, suc, ◌==◌, ◌+◌, ◌-◌, ◌≤◌, if◌then◌else◌, some, List, [], ◌∷◌, ◌≡◌, ◌≢◌, refl, sym, ◌∙◌,
  ap, inl, inr, arith, Bool, true, false, ◌&&◌, length, min, contains, Bool-cases, if_true,
  if_false,
}
use go_libp2p_kad_dht.Qpeerset.{
  PeerId, PeerState, heard, waiting, unreachable, one_of, in_states, QueryPeerState, QueryPeerset,
  sort,
}
use go_libp2p_kad_dht.Qpeerset.Lookup.{entry}
use go_libp2p_kad_dht.Qpeerset.Invariant.{get_state-entry}
use go_libp2p_kad_dht.Qpeerset.Closest.{tally_in, closest_in, get_closest_n_lem, length-closest_in}
use go_libp2p_kad_dht.Query.Peers.{IsSound}
use go_libp2p_kad_dht.Query.Decisions.{
  Resorted, Resorted-trans, sort-Resorted, closest_found, is_lookup_total, is_starvation_lem,
}
use go_libp2p_kad_dht.Query.Result.{
  LookupResult, any_state, read_states, is_completed, construct_lookup_result, unqueried,
  FollowEvent, query_done, context_ended, follow_loop, follow_up,
}
use go_libp2p_kad_dht.Query.{Config, reachable_states}

-- The states listed are those of the peers listed, in order.
abbrev pub StatesMatch : QueryPeerset → List PeerId → List PeerState → Type 0
StatesMatch qp [] [] = Unit
StatesMatch qp (p ∷ ps) (s ∷ ss) =
    ((x : QueryPeerState) × (entry qp.all p ≡ some x) × (x.state ≡ s) × (s ≢ unreachable))
    × StatesMatch qp ps ss
StatesMatch qp _ _ = ⊥

read_states_total :
    (qp qp' : QueryPeerset) (ps : List PeerId)
    → ((p : PeerId) → entry qp'.all p ≡ entry qp.all p)
    → ((p : PeerId)
        → contains ps p ≡ true
        → (x : QueryPeerState) × (entry qp.all p ≡ some x) × (in_states reachable_states x ≡ true))
    → (ss : List PeerState) × (read_states qp' ps ≡ some ss) × StatesMatch qp ps ss
unfolding read_states
read_states_total qp qp' [] same h = ([], refl, tt)
read_states_total qp qp' (p ∷ ps) same h =
    let (x, e, k) = h p (ground arith) in
    let (ss, f, m) = read_states_total qp qp' ps same (λ r t. h r (ground arith)) in
    (
      x.state ∷ ss,
      rw (get_state-entry qp' p, same p, e) (rw f),
      ((x, e, refl, reachable_ne x.state k), m),
    )
  where
    reachable_ne : (s : PeerState) → one_of reachable_states s ≡ true → s ≢ unreachable
    reachable_ne s k e = absurd (ground arith)

is_completed_total :
    (c : Config) (qp : QueryPeerset)
    → IsSound c qp
    → (b : Bool) × (qp' : QueryPeerset) × (is_completed c qp ≡ some (b, qp')) × Resorted c qp qp'
unfolding is_completed
is_completed_total c qp s =
    let (b, e) = is_lookup_total c qp s in
    let r1 = sort-Resorted c qp s in
    let r2 = Resorted-trans c qp (sort qp) _ r1 (sort-Resorted c (sort qp) r1.sound) in
    let r3 =
      Resorted-trans c qp (sort (sort qp)) _ r2 (sort-Resorted c (sort (sort qp)) r2.sound) in
    elim (Bool-cases b) [
      | inl t ↦ (true, sort qp, rw e (rw t), r1)
      | inr t ↦ (
        (tally_in (sort qp) (heard ∷ []) == 0) && (tally_in (sort qp) (waiting ∷ []) == 0),
        sort (sort (sort qp)),
        rw e (rw t (is_starvation_lem (sort qp))),
        r3,
      )
    ]

-- On a sound set the result is built without a panic. Its peers are as many as the bucket size, or as
-- there are peers not unreachable; each has its own state beside it, and that state is never
-- unreachable.
pub construct_lookup_result_lem :
    (c : Config) (qp : QueryPeerset)
    → IsSound c qp
    → (res : LookupResult) × (qp' : QueryPeerset) × (construct_lookup_result c qp ≡ some (res, qp'))
      × (length res.peers ≡ min c.bucket_size (tally_in qp reachable_states))
      × (length res.closest ≡ min c.bucket_size (tally_in qp any_state))
      × StatesMatch qp res.peers res.state
unfolding construct_lookup_result
construct_lookup_result_lem c qp s =
    let (b, qp1, e, r) = is_completed_total c qp s in
    let k = c.bucket_size in
    let r1 = sort-Resorted c qp1 r.sound in
    let r2 = Resorted-trans c qp1 (sort qp1) _ r1 (sort-Resorted c (sort qp1) r1.sound) in
    let ps = closest_in qp1 k reachable_states in
    let cs = closest_in (sort qp1) k any_state in
    let (ss, f, m) =
      read_states_total qp (sort (sort qp1)) ps (λ p. r2.entries p ∙ r.entries p)
        (λ p h.
          let (x, g, t) = closest_found c qp1 k reachable_states p r.sound h in
          (x, sym (r.entries p) ∙ g, t)) in
    (
      record { peers = ps; state = ss; closest = cs; completed = b },
      sort (sort qp1),
      rw e (
          rw (get_closest_n_lem qp1 k reachable_states)
            (rw (get_closest_n_lem (sort qp1) k any_state) (rw f))),
      length-closest_in qp1 k reachable_states ∙ ap (min k) (r.counted reachable_states),
      length-closest_in (sort qp1) k any_state
          ∙ ap (min k) (r1.counted any_state ∙ r.counted any_state),
      m,
    )

-- The loop takes one event for each query, and stops early only with the result incomplete.
follow_loop_total :
    (left done : ℕ) (completed : Bool) (es : List FollowEvent)
    → left ≤ length es
    → (d : ℕ) × (b : Bool) × (follow_loop left done completed es ≡ some (d, b))
      × (d ≤ done + left)
      × ((b ≡ true) → (d ≡ done + left) × (completed ≡ true))
unfolding follow_loop
follow_loop_total zero done completed es h =
    (done, completed, refl, omega arith, λ e. (omega arith, e))
follow_loop_total (suc left) done completed [] h = absurd (omega arith)
follow_loop_total (suc left) done completed (context_ended ∷ es) h =
    (done, false, refl, omega arith, λ e. absurd (cc))
follow_loop_total (suc left) done completed (query_done stop ∷ es) h =
    let (d, b, e, le, all) = follow_loop_total left (suc done) completed es (omega arith) in
    elim (Bool-cases stop) [
      | inl t ↦
          (suc done, if left == 0 then completed else false, rw t, omega arith, λ k. ground arith)
      | inr t ↦ (d, b, rw t e, omega arith, λ k. (omega (arith, (all k).0), (all k).1))
    ]

-- When every query that the follow-up starts reports in the end, the follow-up returns; unless it was
-- stopped from outside before it started any, it has then waited for every query that it started; and
-- it never turns an incomplete result into a complete one, nor changes the peers.
pub follow_up_waits :
    (res : LookupResult) (stopped : Bool) (es : List FollowEvent)
    → length (unqueried res.peers res.state) ≤ length es
    → (out : LookupResult) × (waited : ℕ) × (follow_up res stopped es ≡ some (out, waited))
      × (waited ≡ (if stopped then 0 else length (unqueried res.peers res.state)))
      × ((out.completed ≡ true) → (res.completed ≡ true))
      × (out.peers ≡ res.peers)
      × (out.closest ≡ res.closest)
unfolding follow_up
follow_up_waits res stopped es h =
    let n = length (unqueried res.peers res.state) in
    let (d, b, e, le, all) = follow_loop_total n 0 res.completed es h in
    elim (Bool-cases (n == 0)) [
      | inl t ↦ (res, 0, if_true _ _ _ t, ground arith, λ k. k, refl, refl)
      | inr t ↦ elim (Bool-cases stopped) [
        | inl s ↦ (
          record res { completed = false },
          0,
          if_false _ _ _ t ∙ if_true _ _ _ s,
          ground arith,
          λ k. absurd (cc),
          refl,
          refl,
        )
        | inr s ↦ (
          record res { completed = b },
          d + (if b then 0 else n - d),
          if_false _ _ _ t ∙ (if_false _ _ _ s ∙ rw e),
          rw s (drained n d b le all),
          λ k. (all k).1,
          refl,
          refl,
        )
      ]
    ]
  where
    drained :
        (n d : ℕ) (b : Bool)
        → d ≤ 0 + n
        → ((b ≡ true) → (d ≡ 0 + n) × (res.completed ≡ true))
        → d + (if b then 0 else n - d) ≡ n
    drained n d true le all = omega (arith, (all refl).0)
    drained n d false le all = omega arith
