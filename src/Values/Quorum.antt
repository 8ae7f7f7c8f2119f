-- ===== src/Values/Quorum.antt =====
-- routing.go: how many responses a search waits for.
use go_libp2p_kad_dht.Prelude.{
  ℕ, ◌==◌, ◌+◌, ◌≤◌, ◌<◌, ltb, Option, none, some, List, [], ◌∷◌, true, false, ◌&&◌, ◌≡◌, refl, inl,
  inr, arith, Bool-cases, if_true, if_false, ◌∙◌,
}
use go_libp2p_kad_dht.Values.{
  RecvdVal, Search, check_quorum, new_val, take_best, selected, against_best, handle_value, Arrival,
  value, closed, context_ended, process_values,
}

-- Every value in the list can be delivered.
abbrev pub Delivered : List Arrival → Type 0
Delivered [] = Unit
Delivered (value v delivered ∷ rest) = (delivered ≡ true) × Delivered rest
Delivered (closed ∷ rest) = Delivered rest
Delivered (context_ended ∷ rest) = Delivered rest

-- With a quorum, an aborted search has counted one response more than the quorum, and one that goes on no
-- more than the quorum; `stopCh` is closed exactly by an abort.
abbrev pub Counting : ℕ → Search → Type 0
Counting nvals s =
    (s.stop_closed ≡ s.aborted)
    × ((s.aborted ≡ true) → (s.num_responses ≡ nvals + 1))
    × ((s.aborted ≡ false) → (s.num_responses ≤ nvals))

check_quorum-Counting :
    (nvals : ℕ) (s : Search)
    → 0 < nvals
    → s.stop_closed ≡ false
    → s.num_responses ≤ nvals + 1
    → Counting nvals (check_quorum nvals s)
unfolding check_quorum
check_quorum-Counting nvals s h c le =
    elim (Bool-cases (ltb 0 nvals && ltb nvals s.num_responses)) [
      | inl e ↦ rw e (refl, λ k. ground arith, λ k. absurd (cc))
      | inr e ↦ rw e (c, λ k. absurd (cc), λ k. ground arith)
    ]

handle_value-Counting :
    (sel : ℕ → ℕ → Option ℕ) (nvals : ℕ) (s : Search) (v : RecvdVal)
    → 0 < nvals
    → Counting nvals s
    → s.aborted ≡ false
    → Counting nvals (handle_value sel nvals s v true)
unfolding handle_value against_best selected take_best new_val
handle_value-Counting sel nvals s v h c going = by_best s.best
  where
    le : s.num_responses + 1 ≤ nvals + 1
    le = omega (arith, c.2 going)

    open_ : s.stop_closed ≡ false
    open_ = c.0 ∙ going

    by_index : (o : Option ℕ) → Counting nvals (selected nvals s v true o)
    by_index none = c
    by_index (some i) = elim (Bool-cases (i == 1)) [
      | inl e ↦ rw e (check_quorum-Counting nvals _ h open_ le)
      | inr e ↦ rw e (check_quorum-Counting nvals _ h open_ le)
    ]

    by_best : (o : Option ℕ) → Counting nvals (against_best sel nvals s v true o)
    by_best none = check_quorum-Counting nvals _ h open_ le
    by_best (some b) = elim (Bool-cases (b == v.val)) [
      | inl e ↦ rw e (check_quorum-Counting nvals _ h open_ le)
      | inr e ↦ rw e (by_index (sel b v.val))
    ]

-- A search with a quorum of `nvals`, at least 1, whose context does not end before a value is delivered,
-- stops early only at the response number `nvals + 1`, and closes `stopCh` exactly then.
pub process_values-Counting :
    (sel : ℕ → ℕ → Option ℕ) (nvals : ℕ) (s : Search) (es : List Arrival)
    → 0 < nvals
    → Delivered es
    → Counting nvals s
    → s.aborted ≡ false
    → Counting nvals (process_values sel nvals s es)
unfolding process_values
process_values-Counting sel nvals s [] h d c going = c
process_values-Counting sel nvals s (closed ∷ rest) h d c going = c
process_values-Counting sel nvals s (context_ended ∷ rest) h d c going = c
process_values-Counting sel nvals s (value v delivered ∷ rest) h d c going = rw d.0 (
    let s' = handle_value sel nvals s v true in
    let k = handle_value-Counting sel nvals s v h c going in
    elim (Bool-cases s'.aborted) [
      | inl t ↦ rw (if_true s'.aborted s' _ t) k
      | inr t ↦
          rw (if_false s'.aborted s' _ t) (process_values-Counting sel nvals s' rest h d.1 k t)
    ])
