-- ===== src/Values/Best.antt =====
-- routing.go: which value a search ends with, for a validator that ranks values.
use go_libp2p_kad_dht.Prelude.{
  ℕ, ◌==◌, ◌≤◌, ◌<◌, ltb, if◌then◌else◌, Option, none, some, List, [], ◌∷◌, Bool, true, false, ◌&&◌,
  ◌||◌, contains, ◌≡◌, refl, ◌⊎◌, inl, inr, arith, Bool-cases, if_true, if_false, All, ==_iff, ap,
  ltb→lt,
}
use go_libp2p_kad_dht.Qpeerset.{PeerId}
use go_libp2p_kad_dht.Values.{
  RecvdVal, Search, check_quorum, new_val, take_best, selected, against_best, handle_value, Arrival,
  value, closed, context_ended, process_values,
}

-- A validator whose Select prefers the value of higher rank, the first of two equals.
abbrev pub Ranks : (ℕ → ℕ) → (ℕ → ℕ → Option ℕ) → Type 0
Ranks rank sel = (a b : ℕ) → sel a b ≡ some (if ltb (rank a) (rank b) then 1 else 0)

-- The values that have been received, the latest first.
abbrev pub Received : Type 0
Received = List RecvdVal

-- Somebody sent the value.
abbrev pub sent_by : Received → ℕ → PeerId → Bool
sent_by [] b p = false
sent_by (v ∷ vs) b p = ((v.val == b) && (v.from == p)) || sent_by vs b p

abbrev pub was_received : Received → ℕ → Bool
was_received [] b = false
was_received (v ∷ vs) b = (v.val == b) || was_received vs b

-- The best value was received, no received value ranks higher, and the peers kept are exactly those that
-- sent it. With no best value, nothing was received.
abbrev pub IsBest : (ℕ → ℕ) → Received → Option ℕ → List PeerId → Type 0
IsBest rank vs none ps = vs ≡ []
IsBest rank vs (some b) ps =
    All (λ (v : RecvdVal). rank v.val ≤ rank b) vs
    × (was_received vs b ≡ true)
    × ((p : PeerId) → contains ps p ≡ sent_by vs b p)

new_val_keeps :
    (n : ℕ) (s : Search) (v : RecvdVal) (better delivered : Bool)
    → ((new_val n s v better delivered).best ≡ s.best)
      × ((new_val n s v better delivered).peers_with_best ≡ s.peers_with_best)
unfolding new_val check_quorum
new_val_keeps n s v better delivered = (ground arith, ground arith)

All-le_trans :
    (rank : ℕ → ℕ) (a b : ℕ) (vs : Received)
    → a ≤ b
    → All (λ (v : RecvdVal). rank v.val ≤ a) vs
    → All (λ (v : RecvdVal). rank v.val ≤ b) vs
All-le_trans rank a b [] h all = tt
All-le_trans rank a b (v ∷ vs) h all = (omega arith, All-le_trans rank a b vs h all.1)

-- A value that ranks above all that were received was sent by nobody.
sent_low :
    (rank : ℕ → ℕ) (r c : ℕ) (vs : Received) (p : PeerId)
    → All (λ (v : RecvdVal). rank v.val ≤ r) vs
    → r < rank c
    → sent_by vs c p ≡ false
sent_low rank r c [] p all h = refl
sent_low rank r c (v ∷ vs) p all h = elim (Bool-cases (v.val == c)) [
  | inl e ↦ let same : v.val ≡ c = (==_iff v.val c).0 e in absurd (omega (arith, ap rank same))
  | inr e ↦ rw e (sent_low rank r c vs p all.1 h)
]

-- The values that the loop has handled when it ends, the latest first.
abbrev pub handled : (ℕ → ℕ → Option ℕ) → ℕ → Search → List Arrival → Received → Received
handled sel n s [] vs = vs
handled sel n s (closed ∷ rest) vs = vs
handled sel n s (context_ended ∷ rest) vs = vs
handled sel n s (value v delivered ∷ rest) vs =
    let s' = handle_value sel n s v delivered in
    let next = handled sel n s' rest (v ∷ vs) in if s'.aborted then v ∷ vs else next

module _ (rank : ℕ → ℕ) (sel : ℕ → ℕ → Option ℕ) (ranks : Ranks rank sel) (n : ℕ) where
  take_best-IsBest :
      (s : Search) (v : RecvdVal) (delivered : Bool) (vs : Received) (r : ℕ)
      → All (λ (w : RecvdVal). rank w.val ≤ r) vs
      → (vs ≡ []) ⊎ (r < rank v.val)
      → r ≤ rank v.val
      → let t = take_best n s v delivered in IsBest rank (v ∷ vs) t.best t.peers_with_best
  unfolding take_best
  take_best-IsBest s v delivered vs r all low le =
      let u = record s { peers_with_best = v.from ∷ []; best = some v.val } in
      let (b, ps) = new_val_keeps n u v true delivered in
      rw (b, ps)
        (
          (omega arith, All-le_trans rank r (rank v.val) vs le all),
          ground arith,
          λ p. elim low [
            | inl e ↦ rw e (ground arith)
            | inr l ↦ ground (arith, sent_low rank r v.val vs p all l)
          ],
        )

  against_best-IsBest :
      (s : Search) (v : RecvdVal) (delivered : Bool) (vs : Received) (o : Option ℕ)
      → s.best ≡ o
      → IsBest rank vs o s.peers_with_best
      → let t = against_best sel n s v delivered o in IsBest rank (v ∷ vs) t.best t.peers_with_best
  unfolding against_best selected
  against_best-IsBest s v delivered vs none e h =
      take_best-IsBest s v delivered vs 0 (rw h tt) (inl h) (omega arith)
  against_best-IsBest s v delivered vs (some b) e (all, seen, senders) =
      elim (Bool-cases (b == v.val)) [
        | inl same ↦
            let u = record s { peers_with_best = v.from ∷ s.peers_with_best } in
            let (kb, kp) = new_val_keeps n u v false delivered in
            let eq : b ≡ v.val = (==_iff b v.val).0 same in
            rw (same) (
              rw (kb, kp, e)
                ((omega (arith, ap rank eq), all), ground arith, λ p. ground (arith, senders p)))
        | inr other ↦ rw other (
            rw (ranks b v.val) (elim (Bool-cases (ltb (rank b) (rank v.val))) [
              | inl low ↦ rw low (
                  take_best-IsBest s v delivered vs (rank b) all (inr (ltb→lt _ _ low))
                    (omega (arith, ltb→lt (rank b) (rank v.val) low)))
              | inr high ↦
                  let (kb, kp) = new_val_keeps n s v false delivered in
                  rw high (
                    rw (kb, kp, e)
                      ((ground arith, all), ground arith, λ p. ground (arith, senders p)))
            ]))
      ]

  handle_value-IsBest :
      (s : Search) (v : RecvdVal) (delivered : Bool) (vs : Received)
      → IsBest rank vs s.best s.peers_with_best
      → let t = handle_value sel n s v delivered in IsBest rank (v ∷ vs) t.best t.peers_with_best
  unfolding handle_value
  handle_value-IsBest s v delivered vs h = against_best-IsBest s v delivered vs s.best refl h

  -- When `Select` prefers the value of higher rank, the loop leaves, whatever ends it, the best of the
  -- values that it has handled, and with exactly the peers that sent that value.
  pub process_values-IsBest :
      (s : Search) (es : List Arrival) (vs : Received)
      → IsBest rank vs s.best s.peers_with_best
      → let t = process_values sel n s es in
        IsBest rank (handled sel n s es vs) t.best t.peers_with_best
  unfolding process_values
  process_values-IsBest s [] vs h = h
  process_values-IsBest s (closed ∷ rest) vs h = h
  process_values-IsBest s (context_ended ∷ rest) vs h = h
  process_values-IsBest s (value v delivered ∷ rest) vs h =
      let k = handle_value-IsBest s v delivered vs h in
      let s' = handle_value sel n s v delivered in
      elim (Bool-cases s'.aborted) [
        | inl t ↦ rw (if_true s'.aborted (v ∷ vs) _ t, if_true s'.aborted s' _ t) k
        | inr t ↦
            rw (if_false s'.aborted (v ∷ vs) _ t, if_false s'.aborted s' _ t)
              (process_values-IsBest s' rest (v ∷ vs) k)
      ]
