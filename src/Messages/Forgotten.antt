-- ===== src/Messages/Forgotten.antt =====
-- The moves on the map of senders of internal/net/message_manager.go, one by one: none forgets a stream.
use go_libp2p_kad_dht.Prelude.{
  ℕ, ◌==◌, ◌<◌, ltb, ltb→lt, Option, none, some, List, [], ◌∷◌, true, false, not, select, ◌⊎◌, ◌≡◌,
  refl, ◌∙◌, ap, subst, inl, inr, arith, contains, Bool-cases, ◌&&◌,
}
use go_libp2p_kad_dht.Prelude.Maps.{lookup}
use go_libp2p_kad_dht.Messages.{
  Sender, invalidate, prep_or_invalidate, Manager, update, prepared, Move, wanted, prepares,
  prepare_unlocked, after_error, sends, disconnects, invalidates, invalidate_unlocked, move, moves,
  no_senders,
}
use go_libp2p_kad_dht.Messages.Held.{
  IsKept, in_map, awaited, unlocked, Holds, PreparedWell, prep_or_invalidate-PreparedWell,
  send_loop-Replaces, update-Replaces, update_at, replaced, rearranged, invalidate-Replaces,
}
use go_libp2p_kad_dht.Messages.Entries.{find_or_make-Holds, leave_map-Holds, disconnect-Holds}

contains-select :
    (a b : ℕ) (l : List ℕ)
    → contains (select (λ c. not (a == c)) l) b ≡ (not (a == b) && contains l b)
contains-select a b [] = ground arith
contains-select a b (c ∷ l) = ground (arith, contains-select a b l)

unlocked-Holds : (m : Manager) (a : ℕ) → Holds m → Holds (move m (prepare_unlocked a))
unfolding move
unlocked-Holds m a h =
    rearranged m m.strmap m.to_invalidate (a ∷ m.in_error) (a ∷ m.given_up)
      (λ b i. elim (Bool-cases (a == b)) [
        | inl q ↦ inr (ground arith)
        | inr q ↦ elim (h.blamed b (ground arith)) [ inl v ↦ inl v | inr g ↦ inr (ground arith) ]
      ])
      left h.mapped h.waits h
  where
    left :
        (d : ℕ)
        → IsKept m d
        → ((m.senders d).invalid ≡ true)
          ⊎ IsKept (record m { in_error = a ∷ m.in_error; given_up = a ∷ m.given_up }) d
    left d (awaited k) = inr (awaited k)
    left d (unlocked k) = inr (unlocked (ground arith))
    left d (in_map q k) = inr (in_map q k)

prepared-Holds :
    (m : Manager) (a : ℕ) (r : Option ℕ × Sender)
    → a < m.allocated
    → PreparedWell (m.senders a) r
    → Holds m
    → Holds (prepared m a r)
prepared-Holds m a (none, s) old w h = replaced m a s old w.0 h
prepared-Holds m a (some e, s) old w h =
    let m' : Manager = record m { senders = update m.senders a s } in
    let h' = replaced m a s old w.0 h in
    rearranged m' m.strmap m.to_invalidate (a ∷ m.in_error) m.given_up
      (λ b i. elim (Bool-cases (a == b)) [
        | inl q ↦
            let same : a ≡ b = ground arith in
            inl (
              subst (λ c. (update m.senders a s c).invalid ≡ true) same
                (ap (λ (t : Sender). t.invalid) (update_at m.senders a s) ∙ w.1))
        | inr q ↦ h'.blamed b (ground arith)
      ])
      left h'.mapped h'.waits h'
  where
    left :
        (d : ℕ)
        → IsKept (record m { senders = update m.senders a s }) d
        → ((update m.senders a s d).invalid ≡ true)
          ⊎ IsKept (record m { senders = update m.senders a s; in_error = a ∷ m.in_error }) d
    left d (in_map p k) = inr (in_map p k)
    left d (awaited k) = inr (awaited k)
    left d (unlocked k) = inr (unlocked k)

invalidated-Holds : (m : Manager) (a : ℕ) → Holds m → Holds (move m (invalidates a))
unfolding move
invalidated-Holds m a h = elim (Bool-cases (contains m.to_invalidate a)) [
  | inr e ↦ rw e h
  | inl e ↦ rw e (record {
    sound = λ b.
        (update-Replaces m.senders a _ (invalidate-Replaces (m.senders a)).0 b).still_sound
          (h.sound b);
    blamed = λ b i. elim (h.blamed b i) [ inl v ↦ inl (gone b v) | inr g ↦ inr g ];
    known = λ b l. elim (h.known b l) [ inl v ↦ inl (gone b v) | inr k ↦ by_place b k ];
    fresh = λ b l. elim (Bool-cases (a == b)) [
      | inl q ↦ absurd (let same : a ≡ b = ground arith in omega (arith, h.waits a e))
      | inr q ↦ rw q (h.fresh b l)
    ];
    mapped = h.mapped;
    waits = λ b w. h.waits b (ground (arith, contains-select a b m.to_invalidate));
  })
]
  where
    gone :
        (b : ℕ)
        → (m.senders b).invalid ≡ true
        → (update m.senders a (invalidate (m.senders a)) b).invalid ≡ true
    gone b v =
        (update-Replaces m.senders a _ (invalidate-Replaces (m.senders a)).0 b).stays_invalid v

    by_place :
        (b : ℕ)
        → IsKept m b
        → ((update m.senders a (invalidate (m.senders a)) b).invalid ≡ true)
          ⊎ IsKept
              (record m {
                senders = update m.senders a (invalidate (m.senders a));
                to_invalidate = select (λ c. not (a == c)) m.to_invalidate;
              })
              b
    by_place b (in_map p k) = inr (in_map p k)
    by_place b (unlocked k) = inr (unlocked k)
    by_place b (awaited k) = elim (Bool-cases (a == b)) [
      | inl q ↦
          let same : a ≡ b = ground arith in
          inl (
            subst (λ c. (update m.senders a (invalidate (m.senders a)) c).invalid ≡ true) same
              (ap (λ (t : Sender). t.invalid) (update_at m.senders a _)
                ∙ (invalidate-Replaces (m.senders a)).1))
      | inr q ↦ inr (awaited (ground (arith, contains-select a b m.to_invalidate)))
    ]

invalidate_unlocked-Holds : (m : Manager) (a : ℕ) → Holds m → Holds (move m (invalidate_unlocked a))
unfolding move
invalidate_unlocked-Holds m a h = elim (Bool-cases (contains m.to_invalidate a)) [
  | inr e ↦ rw e h
  | inl e ↦ rw e (
      rearranged m m.strmap (select (λ b. not (a == b)) m.to_invalidate) m.in_error (a ∷ m.given_up)
        (λ b i. elim (h.blamed b i) [ inl v ↦ inl v | inr g ↦ inr (ground arith) ]) left h.mapped
        (λ b w. h.waits b (ground (arith, contains-select a b m.to_invalidate))) h)
]
  where
    left :
        (d : ℕ)
        → IsKept m d
        → ((m.senders d).invalid ≡ true)
          ⊎ IsKept
              (record m {
                to_invalidate = select (λ b. not (a == b)) m.to_invalidate;
                given_up = a ∷ m.given_up;
              })
              d
    left d (in_map p k) = inr (in_map p k)
    left d (unlocked k) = inr (unlocked (ground arith))
    left d (awaited k) = elim (Bool-cases (a == d)) [
      | inl q ↦ inr (unlocked (ground arith))
      | inr q ↦ inr (awaited (ground (arith, contains-select a d m.to_invalidate)))
    ]

move-Holds : (m : Manager) (x : Move) → Holds m → Holds (move m x)
unfolding move
move-Holds m (wanted p) h = find_or_make-Holds m p (lookup p m.strmap) refl h
move-Holds m (prepares a o) h = elim (Bool-cases (ltb a m.allocated)) [
  | inr e ↦ rw e h
  | inl e ↦ rw e (
      prepared-Holds m a (prep_or_invalidate (m.senders a) o) (ltb→lt a m.allocated e)
        (prep_or_invalidate-PreparedWell (m.senders a) o) h)
]
move-Holds m (prepare_unlocked a) h = unlocked-Holds m a h
move-Holds m (after_error p a) h = elim (Bool-cases (contains m.in_error a)) [
  | inr e ↦ rw e h
  | inl e ↦ rw e (leave_map-Holds m p a (lookup p m.strmap) refl (h.blamed a e) h)
]
move-Holds m (sends reads a r1 r2) h = elim (Bool-cases (ltb a m.allocated)) [
  | inr e ↦ rw e h
  | inl e ↦
      let (r, s, done, w, same) = send_loop-Replaces reads (m.senders a) r1 r2 (h.sound a) in
      rw (e, done) (replaced m a s (ltb→lt a m.allocated e) w h)
]
move-Holds m (disconnects p) h = disconnect-Holds m p (lookup p m.strmap) refl h
move-Holds m (invalidates a) h = invalidated-Holds m a h
move-Holds m (invalidate_unlocked a) h = invalidate_unlocked-Holds m a h

moves-Holds : (m : Manager) (xs : List Move) → Holds m → Holds (moves m xs)
unfolding moves
moves-Holds m [] h = h
moves-Holds m (x ∷ xs) h = moves-Holds (move m x) xs (move-Holds m x h)

no_senders-Holds : Holds no_senders
unfolding lookup
no_senders-Holds = record {
  sound = λ a h. refl;
  blamed = λ a h. absurd (cc);
  known = λ a h. absurd (omega arith);
  fresh = λ a h. refl;
  mapped = λ p a h. absurd (cc);
  waits = λ a h. absurd (cc);
}

-- However the goroutines of the requests and of OnDisconnect interleave, an invalid sender never holds a
-- stream, and an allocated sender that holds one is in the map, or OnDisconnect is to invalidate it, or it is one for
-- which a wait for its lock was given up.
pub moves-IsKept :
    (xs : List Move) (a n : ℕ)
    → ((moves no_senders xs).senders a).stream ≡ some n
    → a < (moves no_senders xs).allocated
    → (((moves no_senders xs).senders a).invalid ≡ false) × IsKept (moves no_senders xs) a
moves-IsKept xs a n has_stream old =
    let m = moves no_senders xs in
    let h = moves-Holds no_senders xs no_senders-Holds in
    let valid : (m.senders a).invalid ≡ false = elim (Bool-cases (m.senders a).invalid) [
      | inl v ↦ absurd (let none_held = h.sound a v in cc)
      | inr v ↦ v
    ] in
    (valid, elim (h.known a old) [ inl v ↦ absurd (cc) | inr k ↦ k ])
