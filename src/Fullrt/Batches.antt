-- ===== src/Fullrt/Batches.antt =====
-- GetClosestPeers of fullrt/dht.go: its batches make no difference to one pass over the sorted keys.
use go_libp2p_kad_dht.Prelude.{
  ℕ, zero, suc, ◌+◌, ◌≤◌, ◌<◌, ltb, if◌then◌else◌, List, [], ◌∷◌, ◌++◌, Bool, true, false, ◌&&◌,
  ◌≡◌, refl, sym, ◌∙◌, ap, inl, inr, arith, length, take, drop, Bool-cases, if_true, if_false,
}
use go_libp2p_kad_dht.Fullrt.{
  Table, Found, visit_key, is_full, peers_loop, batches, step_of, nothing_found, get_closest_peers,
}

abbrev and_on : Table → List ℕ → Bool × Found → Bool × Found
and_on t ys (true, f) = (true, f)
and_on t ys (false, f) = peers_loop t f ys

peers_loop-append :
    (t : Table) (f : Found) (xs ys : List ℕ)
    → peers_loop t f (xs ++ ys) ≡ and_on t ys (peers_loop t f xs)
unfolding peers_loop
peers_loop-append t f [] ys = refl
peers_loop-append t f (k ∷ xs) ys =
    let f' = visit_key t f (t.key_to_peer k) in
    elim (Bool-cases (is_full t f' && ltb (length f.peers) (length f'.peers))) [
      | inl e ↦ simp e
      | inr e ↦ simp e (peers_loop-append t f' xs ys)
    ]

drop_split : (n m j : ℕ) (xs : List ℕ) → n + m ≡ j → drop n xs ≡ drop n (take j xs) ++ drop j xs
drop_split zero m zero [] h = refl
drop_split zero m (suc j) [] h = refl
drop_split zero m zero (x ∷ xs) h = refl
drop_split zero m (suc j) (x ∷ xs) h = ap (λ l. x ∷ l) (drop_split zero j j xs (omega arith))
drop_split (suc n) m zero xs h = absurd (omega arith)
drop_split (suc n) m (suc j) [] h = refl
drop_split (suc n) m (suc j) (x ∷ xs) h = drop_split n m j xs (omega arith)

drop_all : (n : ℕ) (xs : List ℕ) → length xs ≤ n → drop n xs ≡ []
drop_all zero [] h = refl
drop_all zero (x ∷ xs) h = absurd (omega arith)
drop_all (suc n) [] h = refl
drop_all (suc n) (x ∷ xs) h = drop_all n xs (omega arith)

peers_loop-nil : (t : Table) (f : Found) (xs : List ℕ) → xs ≡ [] → (peers_loop t f xs).1 ≡ f
unfolding peers_loop
peers_loop-nil t f xs h = rw h

pass_on :
    (t : Table) (ys : List ℕ) (one : Bool × Found) (next : Found)
    → next ≡ (peers_loop t one.1 ys).1
    → (if one.0 then one.1 else next) ≡ (and_on t ys one).1
pass_on t ys (true, f) next h = refl
pass_on t ys (false, f) next h = h

batches_pass :
    (t : Table) (step fuel n : ℕ) (f : Found)
    → 0 < step
    → length t.sorted ≤ n + fuel
    → batches t step fuel n f ≡ (peers_loop t f (drop n t.sorted)).1
unfolding batches
batches_pass t step zero n f p h = sym (peers_loop-nil t f _ (drop_all n t.sorted (omega arith)))
batches_pass t step (suc fuel) n f p h = elim (Bool-cases (ltb n (length t.sorted))) [
  | inr e ↦ if_false _ _ _ e ∙ sym (peers_loop-nil t f _ (drop_all n t.sorted (ground arith)))
  | inl e ↦
      let one = peers_loop t f (drop n (take (n + step) t.sorted)) in
      let later = batches_pass t step fuel (n + step) one.1 p (omega arith) in
      let joined =
        peers_loop-append t f (drop n (take (n + step) t.sorted)) (drop (n + step) t.sorted) in
      let split = drop_split n step (n + step) t.sorted refl in
      if_true _ _ _ e
      ∙ (pass_on t (drop (n + step) t.sorted) one (batches t step fuel (n + step) one.1) later
          ∙ ap (λ (r : Bool × Found). r.1) (sym joined ∙ ap (peers_loop t f) (sym split)))
]

-- When the bucket size or the diversity limit is not 0, the batches of GetClosestPeers make no difference:
-- its result is that of one pass over all of the sorted keys.
pub get_closest_peers_pass :
    (t : Table)
    → 0 < step_of t
    → get_closest_peers t ≡ (peers_loop t nothing_found t.sorted).1.peers
unfolding get_closest_peers
get_closest_peers_pass t h =
    ap (λ (f : Found). f.peers)
      (batches_pass t (step_of t) (length t.sorted) 0 nothing_found h (omega arith))
