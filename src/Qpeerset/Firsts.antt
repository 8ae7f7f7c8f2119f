-- ===== src/Qpeerset/Firsts.antt =====
-- What GetClosestNInStates of qpeerset/qpeerset.go takes from an ascending list: the first entries that pass a
-- test.
use go_libp2p_kad_dht.Prelude.{
  ℕ, zero, suc, ◌==◌, ◌≤◌, none, some, List, [], ◌∷◌, map, ◌≡◌, refl, inl, inr, arith, Bool, true,
  false, Bool-cases, take, select, tally, contains,
}
use go_libp2p_kad_dht.Qpeerset.{PeerId, QueryPeerState, id_of}
use go_libp2p_kad_dht.Qpeerset.Lookup.{entry, UniqueIds}
use go_libp2p_kad_dht.Qpeerset.Order.{Beyond, Ascending}

Beyond-entry :
    (d : ℕ) (xs : List QueryPeerState) (p : PeerId) (x : QueryPeerState)
    → Beyond d xs
    → entry xs p ≡ some x
    → d ≤ x.distance
unfolding entry
Beyond-entry d [] p x b h = absurd (ground arith)
Beyond-entry d (y ∷ ys) p x b h = ground (arith, Beyond-entry d ys p x)

module _ (keep : QueryPeerState → Bool) where
  -- The IDs of the first `n` entries that pass the test.
  abbrev pub firsts : ℕ → List QueryPeerState → List PeerId
  firsts n xs = map id_of (take n (select keep xs))

  firsts_known :
      (n : ℕ) (xs : List QueryPeerState) (p : PeerId)
      → entry xs p ≡ none
      → contains (firsts n xs) p ≡ false
  unfolding entry
  firsts_known zero xs p h = refl
  firsts_known (suc n) [] p h = refl
  firsts_known (suc n) (x ∷ xs) p h = elim (Bool-cases (keep x)) [
    | inl e ↦ rw e (ground (arith, firsts_known n xs p))
    | inr e ↦ rw e (firsts_known (suc n) xs p (ground arith))
  ]

  -- In an ascending list, what is taken passes the test and lies no further than what passes the
  -- test and is not taken.
  pub firsts_closest :
      (n : ℕ) (xs : List QueryPeerState) (p q : PeerId) (x y : QueryPeerState)
      → Ascending xs
      → UniqueIds xs
      → entry xs p ≡ some x
      → entry xs q ≡ some y
      → keep y ≡ true
      → contains (firsts n xs) p ≡ true
      → contains (firsts n xs) q ≡ false
      → (keep x ≡ true) × (x.distance ≤ y.distance)
  unfolding entry
  firsts_closest zero xs p q x y a u hp hq ky cp cq = absurd (ground arith)
  firsts_closest (suc n) [] p q x y a u hp hq ky cp cq = absurd (ground arith)
  firsts_closest (suc n) (z ∷ xs) p q x y a u hp hq ky cp cq = elim (Bool-cases (keep z)) [
    | inl e ↦ ground (
      arith,
      (rw e at cp),
      (rw e at cq),
      firsts_closest n xs p q x y a.1 u.1,
      Beyond-entry z.distance xs q y a.0,
    )
    | inr e ↦ ground (
      arith,
      (rw e at cp),
      (rw e at cq),
      firsts_closest (suc n) xs p q x y a.1 u.1,
      firsts_known (suc n) xs p,
    )
  ]

  -- What is taken stands in the list and passes the test.
  pub firsts_found :
      (n : ℕ) (xs : List QueryPeerState) (p : PeerId)
      → UniqueIds xs
      → contains (firsts n xs) p ≡ true
      → (x : QueryPeerState) × (entry xs p ≡ some x) × (keep x ≡ true)
  unfolding entry
  firsts_found zero xs p u h = absurd (ground arith)
  firsts_found (suc n) [] p u h = absurd (ground arith)
  firsts_found (suc n) (z ∷ xs) p u h = elim (Bool-cases (keep z)) [
    | inl e ↦ elim (Bool-cases (z.id == p)) [
      | inl same ↦ (z, rw same, e)
      | inr other ↦
          let (x, f, k) = firsts_found n xs p u.1 (let h' = (rw e at h) in ground arith) in
          (x, rw other f, k)
    ]
    | inr e ↦
        let (x, f, k) = firsts_found (suc n) xs p u.1 (rw e at h) in
        elim (Bool-cases (z.id == p)) [
          | inl same ↦ absurd (ground (arith, u.0))
          | inr other ↦ (x, rw other f, k)
        ]
  ]

  firsts_absent :
      (n : ℕ) (xs : List QueryPeerState) (p : PeerId)
      → entry xs p ≡ none
      → tally (λ r. r == p) (firsts n xs) ≡ 0
  unfolding entry
  firsts_absent zero xs p h = refl
  firsts_absent (suc n) [] p h = refl
  firsts_absent (suc n) (x ∷ xs) p h = elim (Bool-cases (keep x)) [
    | inl e ↦ rw e (ground (arith, firsts_absent n xs p))
    | inr e ↦ rw e (firsts_absent (suc n) xs p (ground arith))
  ]

  -- No peer is taken twice.
  pub firsts_once :
      (n : ℕ) (xs : List QueryPeerState) (p : PeerId)
      → UniqueIds xs
      → tally (λ r. r == p) (firsts n xs) ≤ 1
  unfolding entry
  firsts_once zero xs p u = omega arith
  firsts_once (suc n) [] p u = omega arith
  firsts_once (suc n) (z ∷ xs) p u = elim (Bool-cases (keep z)) [
    | inr e ↦ rw e (firsts_once (suc n) xs p u.1)
    | inl e ↦ rw e (elim (Bool-cases (z.id == p)) [
      | inl same ↦
          let absent : entry xs p ≡ none = ground (arith, u.0) in
          rw same (omega (arith, firsts_absent n xs p absent))
      | inr other ↦ rw other (omega (arith, firsts_once n xs p u.1))
    ])
  ]
