-- ===== src/Optimistic/Issued.antt =====
-- stopFn and optimisticProvide of lookup_optim.go: a peer is sent the record once at most.
use go_libp2p_kad_dht.Prelude.{
  ℕ, ◌==◌, ◌+◌, ltb, if◌then◌else◌, Option, none, some, List, [], ◌∷◌, Bool, ◌≡◌, refl, sym, ◌∙◌,
  ap, inl, inr, arith, length, length-append, tally, tally-append, Bool-cases,
}
use go_libp2p_kad_dht.Prelude.Maps.{lookup, insert, lookup-insert}
use go_libp2p_kad_dht.Qpeerset.{PeerId}
use go_libp2p_kad_dht.Optimistic.{
  RpcState, scheduled, OptimisticState, Thresholds, new_optimistic_state, issue, unless_found,
  visit_close, visit_all_close, issue_rest, record_state, if_issued, Access, stop_checked,
  rpc_ended, lookup_ended, access, accesses,
}

abbrev pub has_state : Option RpcState → ℕ
has_state none = 0
has_state (some s) = 1

abbrev pub times_issued : PeerId → OptimisticState → ℕ
times_issued p o = tally (λ q. q == p) o.issued

pub record IsIssued (o : OptimisticState) : Type 0 where
  pub once : (p : PeerId) → times_issued p o ≡ has_state (lookup p o.peer_states)
  pub counted : length o.peer_states ≡ length o.issued

length-insert :
    (p : PeerId) (s : RpcState) (m : List (PeerId × RpcState))
    → length (insert p s m) + has_state (lookup p m) ≡ length m + 1
unfolding insert lookup
length-insert p s [] = omega arith
length-insert p s ((q, old) ∷ m) = ground (arith, length-insert p s m)

issue-IsIssued :
    (o : OptimisticState) (p : PeerId)
    → lookup p o.peer_states ≡ none
    → IsIssued o
    → IsIssued (issue o p)
unfolding issue
issue-IsIssued o p new h = record {
  once = λ q.
      let before = h.once q in
      let more = tally-append (λ r. r == q) o.issued (p ∷ []) in
      let now = ap has_state (lookup-insert o.peer_states p scheduled q) in
      elim (Bool-cases (p == q)) [
        | inl e ↦
            let same : p ≡ q = ground arith in
            let fresh =
              ap (λ r. has_state (lookup r o.peer_states)) (sym same) ∙ ap has_state new in
            ground (arith, before, more, now, fresh)
        | inr e ↦ ground (arith, before, more, now)
      ];
  counted = omega (
    arith,
    h.counted,
    length-insert p scheduled o.peer_states,
    ap has_state new,
    length-append o.issued (p ∷ []),
  );
}

unless_found-IsIssued :
    (o : OptimisticState) (p : PeerId) (found : Option RpcState) (next : OptimisticState)
    → (found ≡ none → IsIssued next)
    → IsIssued o
    → IsIssued (unless_found o p found next)
unless_found-IsIssued o p (some s) next n h = h
unless_found-IsIssued o p none next n h = n refl

visit_close-IsIssued :
    (c : Thresholds) (o : OptimisticState) (p : PeerId) → IsIssued o → IsIssued (visit_close c o p)
unfolding visit_close
visit_close-IsIssued c o p h = unless_found-IsIssued o p (lookup p o.peer_states) _ far h
  where
    far :
        lookup p o.peer_states ≡ none
        → IsIssued (if ltb c.individual_threshold (c.normed_distance p) then o else issue o p)
    far new = elim (Bool-cases (ltb c.individual_threshold (c.normed_distance p))) [
      | inl e ↦ rw e h
      | inr e ↦ rw e (issue-IsIssued o p new h)
    ]

visit_all_close-IsIssued :
    (c : Thresholds) (o : OptimisticState) (ps : List PeerId)
    → IsIssued o
    → IsIssued (visit_all_close c o ps)
unfolding visit_all_close
visit_all_close-IsIssued c o [] h = h
visit_all_close-IsIssued c o (p ∷ ps) h =
    visit_all_close-IsIssued c (visit_close c o p) ps (visit_close-IsIssued c o p h)

issue_rest-IsIssued :
    (o : OptimisticState) (ps : List PeerId) → IsIssued o → IsIssued (issue_rest o ps)
unfolding issue_rest
issue_rest-IsIssued o [] h = h
issue_rest-IsIssued o (p ∷ ps) h =
    issue_rest-IsIssued (unless_found o p (lookup p o.peer_states) (issue o p)) ps (
      unless_found-IsIssued o p (lookup p o.peer_states) (issue o p)
        (λ new. issue-IsIssued o p new h) h)

if_issued-IsIssued :
    (o : OptimisticState) (p : PeerId) (ok : Bool) (found : Option RpcState)
    → lookup p o.peer_states ≡ found
    → IsIssued o
    → IsIssued (if_issued o p ok found)
if_issued-IsIssued o p ok none e h = h
if_issued-IsIssued o p ok (some s) e h = record {
  once = λ q.
      let before = h.once q in
      let now = ap has_state (lookup-insert o.peer_states p (record_state ok) q) in
      elim (Bool-cases (p == q)) [
        | inl i ↦
            let same : p ≡ q = ground arith in
            let old = ap (λ r. has_state (lookup r o.peer_states)) (sym same) ∙ ap has_state e in
            ground (arith, before, now, old)
        | inr i ↦ ground (arith, before, now)
      ];
  counted =
      omega (arith, h.counted, length-insert p (record_state ok) o.peer_states, ap has_state e);
}

access-IsIssued :
    (c : Thresholds) (o : OptimisticState) (x : Access) → IsIssued o → IsIssued (access c o x)
unfolding access
access-IsIssued c o (stop_checked closest) h = visit_all_close-IsIssued c o closest h
access-IsIssued c o (rpc_ended p ok) h = if_issued-IsIssued o p ok (lookup p o.peer_states) refl h
access-IsIssued c o (lookup_ended ps) h = issue_rest-IsIssued o ps h

accesses_keep :
    (c : Thresholds) (o : OptimisticState) (xs : List Access)
    → IsIssued o
    → IsIssued (accesses c o xs)
unfolding accesses
accesses_keep c o [] h = h
accesses_keep c o (x ∷ xs) h = accesses_keep c (access c o x) xs (access-IsIssued c o x h)

-- However the calls of stopFn, the ends of RPCs and the loop after the lookup follow one another, a peer is
-- sent the record exactly once if it has a state and else never, and the number of the states, from which
-- waitForRPCs computes how long it waits, is the number of the RPCs.
pub accesses-IsIssued :
    (c : Thresholds) (xs : List Access) → IsIssued (accesses c new_optimistic_state xs)
unfolding lookup
accesses-IsIssued c xs =
    accesses_keep c new_optimistic_state xs (record { once = λ p. refl; counted = refl })
