-- ===== src/Messages/Entries.antt =====
-- The moves of internal/net/message_manager.go that change the entries of the map of senders.
use go_libp2p_kad_dht.Prelude.{
  ℕ, ◌==◌, ◌<◌, Option, none, some, some_inj, ◌∷◌, true, false, ◌⊎◌, ◌≡◌, refl, sym, ◌∙◌, ap, subst,
  inl, inr, arith, contains, Bool-cases, if_true, if_false,
}
use go_libp2p_kad_dht.Prelude.Maps.{lookup, delete, lookup-insert, lookup-delete}
use go_libp2p_kad_dht.Qpeerset.{PeerId}
use go_libp2p_kad_dht.Messages.{Manager, find_or_make, leave_map, disconnect}
use go_libp2p_kad_dht.Messages.Held.{
  IsKept, in_map, awaited, unlocked, Blamed, Holds, rearranged, mapped-delete,
}

pub find_or_make-Holds :
    (m : Manager) (p : PeerId) (o : Option ℕ)
    → lookup p m.strmap ≡ o
    → Holds m
    → Holds (find_or_make m p o)
find_or_make-Holds m p (some a) e h = h
find_or_make-Holds m p none e h = record {
  sound = λ a. elim (Bool-cases (m.allocated == a)) [
    | inl q ↦ rw q (λ v. refl)
    | inr q ↦ rw q (h.sound a)
  ];
  blamed = λ a i. elim (h.blamed a i) [
    | inl v ↦ elim (Bool-cases (m.allocated == a)) [
      | inl q ↦ let old = h.fresh a (ground arith) in absurd (cc)
      | inr q ↦ inl (rw q v)
    ]
    | inr g ↦ inr g
  ];
  known = λ a l. elim (Bool-cases (m.allocated == a)) [
    | inl q ↦
        let same : m.allocated ≡ a = ground arith in
        inr (in_map p (ground (arith, lookup-insert m.strmap p m.allocated p)))
    | inr q ↦ elim (h.known a (ground arith)) [ inl v ↦ inl (rw q v) | inr k ↦ inr (as_before a k) ]
  ];
  fresh = λ a l.
      let q : (m.allocated == a) ≡ false = ground arith in rw q (h.fresh a (omega (arith, l)));
  mapped = λ q a k. elim (Bool-cases (p == q)) [
    | inl s ↦
        let at : m.allocated ≡ a =
          some_inj m.allocated a
            (sym (lookup-insert m.strmap p m.allocated q ∙ if_true (p == q) _ _ s) ∙ k) in
        omega (arith, at)
    | inr d ↦
        let old =
          h.mapped q a
            (sym (lookup-insert m.strmap p m.allocated q ∙ if_false (p == q) _ _ d) ∙ k) in
        omega (arith, old)
  ];
  waits = λ a w. omega (arith, h.waits a w);
}
  where
    as_before : (a : ℕ) → IsKept m a → IsKept (find_or_make m p none) a
    as_before a (in_map q k) =
        let other : (p == q) ≡ false = elim (Bool-cases (p == q)) [
          | inl s ↦
              let same : p ≡ q = ground arith in
              absurd (let k' = ap (λ r. lookup r m.strmap) same in cc)
          | inr d ↦ d
        ] in
        in_map q (ground (arith, lookup-insert m.strmap p m.allocated q))
    as_before a (awaited k) = awaited k
    as_before a (unlocked k) = unlocked k

-- Without the entry of p, a sender is in the map as before, unless it was the one of p.
still_in_map :
    (m : Manager) (p q : PeerId) (a b : ℕ)
    → lookup p m.strmap ≡ some b
    → lookup q m.strmap ≡ some a
    → (a ≡ b) ⊎ (lookup q (delete p m.strmap) ≡ some a)
still_in_map m p q a b e k = elim (Bool-cases (p == q)) [
  | inl s ↦
      let same : p ≡ q = ground arith in
      inl (some_inj a b (sym k ∙ (ap (λ r. lookup r m.strmap) (sym same) ∙ e)))
  | inr d ↦ inr (lookup-delete p q m.strmap ∙ (if_false (p == q) _ _ d ∙ k))
]

pub leave_map-Holds :
    (m : Manager) (p : PeerId) (a : ℕ) (o : Option ℕ)
    → lookup p m.strmap ≡ o
    → Blamed m a
    → Holds m
    → Holds (leave_map m p a o)
leave_map-Holds m p a none e b h = h
leave_map-Holds m p a (some c) e b h = elim (Bool-cases (a == c)) [
  | inr q ↦ rw q h
  | inl q ↦
      let same : a ≡ c = ground arith in
      rw q (
        rearranged m (delete p m.strmap) m.to_invalidate m.in_error m.given_up h.blamed (left same)
          (mapped-delete m p h) h.waits h)
]
  where
    by_blame :
        (d : ℕ)
        → d ≡ a
        → ((m.senders d).invalid ≡ true) ⊎ IsKept (record m { strmap = delete p m.strmap }) d
    by_blame d s = elim b [
      | inl v ↦ inl (subst (λ x. (m.senders x).invalid ≡ true) (sym s) v)
      | inr g ↦ inr (unlocked (subst (λ x. contains m.given_up x ≡ true) (sym s) g))
    ]

    left :
        a ≡ c
        → (d : ℕ) → IsKept m d
        → ((m.senders d).invalid ≡ true) ⊎ IsKept (record m { strmap = delete p m.strmap }) d
    left same d (awaited k) = inr (awaited k)
    left same d (unlocked k) = inr (unlocked k)
    left same d (in_map q k) = elim (still_in_map m p q d c e k) [
      | inl s ↦ by_blame d (s ∙ sym same)
      | inr r ↦ inr (in_map q r)
    ]

pub disconnect-Holds :
    (m : Manager) (p : PeerId) (o : Option ℕ)
    → lookup p m.strmap ≡ o
    → Holds m
    → Holds (disconnect m p o)
disconnect-Holds m p none e h = h
disconnect-Holds m p (some c) e h =
    rearranged m (delete p m.strmap) (c ∷ m.to_invalidate) m.in_error m.given_up h.blamed left
      (mapped-delete m p h) entered h
  where
    entered : (a : ℕ) → contains (c ∷ m.to_invalidate) a ≡ true → a < m.allocated
    entered a w = elim (Bool-cases (c == a)) [
      | inl q ↦ let same : c ≡ a = ground arith in omega (arith, h.mapped p c e, same)
      | inr q ↦ h.waits a (ground arith)
    ]

    left :
        (d : ℕ) → IsKept m d → ((m.senders d).invalid ≡ true) ⊎ IsKept (disconnect m p (some c)) d
    left d (awaited k) = inr (awaited (ground arith))
    left d (unlocked k) = inr (unlocked k)
    left d (in_map q k) = elim (still_in_map m p q d c e k) [
      | inl s ↦ inr (awaited (ground arith))
      | inr r ↦ inr (in_map q r)
    ]
