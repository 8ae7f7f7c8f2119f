-- ===== src/Messages/Held.antt =====
-- The map of senders of internal/net/message_manager.go: no stream is forgotten.
use go_libp2p_kad_dht.Prelude.{
  ℕ, ◌==◌, ◌≤◌, ◌<◌, Option, none, some, some_inj, List, [], ◌∷◌, Bool, true, false, ◌⊎◌, ◌≡◌, refl,
  sym, ◌∙◌, ap, subst, inl, inr, arith, contains, Bool-cases, if_true, if_false,
}
use go_libp2p_kad_dht.Prelude.Maps.{lookup, delete, lookup-delete}
use go_libp2p_kad_dht.Qpeerset.{PeerId}
use go_libp2p_kad_dht.Messages.{
  Sender, invalidate, Opening, prep_or_invalidate, Round, send_loop, Answer, Manager, update,
  or_invalidate, prep, prep_stream, not_opened, stream_opened, invalidated_error,
}
use go_libp2p_kad_dht.Messages.Sending.{IsSound, drop_stream-Moved, send_loop_returns}

-- Where a sender with a stream is found again.
pub data IsKept (m : Manager) (a : ℕ) : Type 0 where
  in_map : (p : PeerId) → lookup p m.strmap ≡ some a → IsKept m a
  awaited : contains m.to_invalidate a ≡ true → IsKept m a
  unlocked : contains m.given_up a ≡ true → IsKept m a

-- A sender that leaves the map has no stream, or the wait for its lock was given up.
abbrev pub Blamed : Manager → ℕ → Type 0
Blamed m a = ((m.senders a).invalid ≡ true) ⊎ (contains m.given_up a ≡ true)

pub record Holds (m : Manager) : Type 0 where
  pub sound : (a : ℕ) → IsSound (m.senders a)
  pub blamed : (a : ℕ) → contains m.in_error a ≡ true → Blamed m a
  pub known : (a : ℕ) → a < m.allocated → ((m.senders a).invalid ≡ true) ⊎ IsKept m a
  pub fresh : (a : ℕ) → m.allocated ≤ a → (m.senders a).invalid ≡ false
  pub mapped : (p : PeerId) (a : ℕ) → lookup p m.strmap ≡ some a → a < m.allocated
  pub waits : (a : ℕ) → contains m.to_invalidate a ≡ true → a < m.allocated

-- A sender that replaces another one: sound, and invalid if that was.
pub record Replaces (old now : Sender) : Type 0 where
  pub still_sound : IsSound old → IsSound now
  pub stays_invalid : old.invalid ≡ true → now.invalid ≡ true

pub invalidate-Replaces : (s : Sender) → Replaces s (invalidate s) × ((invalidate s).invalid ≡ true)
unfolding invalidate
invalidate-Replaces s =
    (record { still_sound = λ h k. (drop_stream-Moved s).1; stays_invalid = λ h. refl }, refl)

-- The sender after prepOrInvalidate: as invalid as before, or with an error invalid.
abbrev pub PreparedWell : Sender → Option ℕ × Sender → Type 0
PreparedWell s (none, t) = Replaces s t × (t.invalid ≡ s.invalid)
PreparedWell s (some e, t) = Replaces s t × (t.invalid ≡ true)

pub prep_or_invalidate-PreparedWell :
    (s : Sender) (o : Opening) → PreparedWell s (prep_or_invalidate s o)
unfolding prep_or_invalidate prep
prep_or_invalidate-PreparedWell s o = elim (Bool-cases s.invalid) [
  | inl e ↦ simp e (invalidate-Replaces s)
  | inr e ↦ simp e (on_stream e s.stream o)
]
  where
    on_stream :
        s.invalid ≡ false
        → (h : Option ℕ) (o : Opening) → PreparedWell s (or_invalidate (prep_stream s h o))
    on_stream v (some n) o = (record { still_sound = λ h. h; stays_invalid = λ h. h }, refl)
    on_stream v none (not_opened e) = invalidate-Replaces s
    on_stream v none (stream_opened n) =
        (record { still_sound = λ h k. absurd (cc); stays_invalid = λ h. h }, refl)

send_invalid :
    (reads : Bool) (s : Sender) (r1 r2 : Round)
    → s.invalid ≡ true
    → send_loop reads false s (r1 ∷ r2 ∷ [])
      ≡ some (record { answer = none; error = some invalidated_error }, s)
unfolding send_loop prep
send_invalid reads s r1 r2 h = rw h

pub send_loop-Replaces :
    (reads : Bool) (s : Sender) (r1 r2 : Round)
    → IsSound s
    → (a : Answer) × (t : Sender) × (send_loop reads false s (r1 ∷ r2 ∷ []) ≡ some (a, t))
      × Replaces s t
      × (t.invalid ≡ s.invalid)
send_loop-Replaces reads s r1 r2 sound =
    let r = send_loop_returns reads s r1 r2 [] sound in
    let bare : r.sender.invalid ≡ true → r.sender.stream ≡ none = λ h.
      let was = sym r.moved.same ∙ h in
      let same = some_inj _ _ (sym (send_invalid reads s r1 r2 was) ∙ r.returned) in
      sym (ap (λ (p : Answer × Sender). p.1.stream) same) ∙ sound was in
    (
      r.answer,
      r.sender,
      r.returned,
      record { still_sound = λ h. bare; stays_invalid = λ h. r.moved.same ∙ h },
      r.moved.same,
    )

pub update-Replaces :
    (f : ℕ → Sender) (a : ℕ) (s : Sender)
    → Replaces (f a) s
    → (b : ℕ) → Replaces (f b) (update f a s b)
update-Replaces f a s r b = elim (Bool-cases (a == b)) [
  | inl e ↦ let same : a ≡ b = ground arith in rw e (subst (λ c. Replaces (f c) s) same r)
  | inr e ↦ rw e (record { still_sound = λ h. h; stays_invalid = λ h. h })
]

pub update_at : (f : ℕ → Sender) (a : ℕ) (s : Sender) → update f a s a ≡ s
update_at f a s = let e : (a == a) ≡ true = ground arith in rw e refl

pub update_apart : (f : ℕ → Sender) (a : ℕ) (s : Sender) (b : ℕ) → a < b → update f a s b ≡ f b
update_apart f a s b h = let e : (a == b) ≡ false = ground arith in rw e refl

-- A move that only replaces one allocated sender keeps the invariant.
pub replaced :
    (m : Manager) (a : ℕ) (s : Sender)
    → a < m.allocated
    → Replaces (m.senders a) s
    → Holds m
    → Holds (record m { senders = update m.senders a s })
replaced m a s old r h = record {
  sound = λ b. (update-Replaces m.senders a s r b).still_sound (h.sound b);
  blamed = λ b i. elim (h.blamed b i) [
    | inl v ↦ inl ((update-Replaces m.senders a s r b).stays_invalid v)
    | inr g ↦ inr g
  ];
  known = λ b l. elim (h.known b l) [
    | inl v ↦ inl ((update-Replaces m.senders a s r b).stays_invalid v)
    | inr k ↦ inr (as_before b k)
  ];
  fresh = λ b l.
      ap (λ (t : Sender). t.invalid) (update_apart m.senders a s b (omega (arith, old, l)))
      ∙ h.fresh b l;
  mapped = h.mapped;
  waits = h.waits;
}
  where
    as_before : (b : ℕ) → IsKept m b → IsKept (record m { senders = update m.senders a s }) b
    as_before b (in_map p e) = in_map p e
    as_before b (awaited e) = awaited e
    as_before b (unlocked e) = unlocked e

-- A move that leaves the senders, and keeps what was kept, and blames whom it enters.
pub rearranged :
    (m : Manager) (strmap : List (PeerId × ℕ)) (wait errors gave : List ℕ)
    → ((a : ℕ)
        → contains errors a ≡ true
        → ((m.senders a).invalid ≡ true) ⊎ (contains gave a ≡ true))
    → ((a : ℕ)
        → IsKept m a
        → ((m.senders a).invalid ≡ true)
          ⊎ IsKept
              (record m {
                strmap = strmap;
                to_invalidate = wait;
                in_error = errors;
                given_up = gave;
              })
              a)
    → ((p : PeerId) (a : ℕ) → lookup p strmap ≡ some a → a < m.allocated)
    → ((a : ℕ) → contains wait a ≡ true → a < m.allocated)
    → Holds m
    → Holds (record m { strmap = strmap; to_invalidate = wait; in_error = errors; given_up = gave })
rearranged m strmap wait errors gave b k at_map at_wait h = record {
  sound = h.sound;
  blamed = b;
  known = λ a l. elim (h.known a l) [ inl v ↦ inl v | inr kept ↦ k a kept ];
  fresh = h.fresh;
  mapped = at_map;
  waits = at_wait;
}

pub mapped-delete :
    (m : Manager) (p : PeerId)
    → Holds m
    → (q : PeerId) (a : ℕ) → lookup q (delete p m.strmap) ≡ some a
    → a < m.allocated
mapped-delete m p h q a k = elim (Bool-cases (p == q)) [
  | inl e ↦ absurd (let gone = lookup-delete p q m.strmap ∙ if_true (p == q) none _ e in cc)
  | inr e ↦ h.mapped q a (sym (lookup-delete p q m.strmap ∙ if_false (p == q) none _ e) ∙ k)
]
