-- ===== src/Query/Peers.antt =====
-- What the parts of `updateState` in query.go do to the set of peers.
use go_libp2p_kad_dht.Prelude.{
  ◌==◌, ◌+◌, if◌then◌else◌, none, some, List, [], ◌∷◌, ◌≡◌, refl, ◌∙◌, inl, inr, arith, false,
  Bool-cases, Option-cases,
}
use go_libp2p_kad_dht.Qpeerset.{
  PeerId, PeerState, heard, waiting, one_of, QueryPeerState, QueryPeerset, set_state,
}
use go_libp2p_kad_dht.Qpeerset.Lookup.{entry}
use go_libp2p_kad_dht.Qpeerset.Invariant.{
  IsValid, fresh_entry, entry-try_add, try_add-IsValid, set_state_present, get_state-entry,
}
use go_libp2p_kad_dht.Qpeerset.Closest.{tally_in}
use go_libp2p_kad_dht.Qpeerset.Counts.{bit, found_in, tally-set_state, tally-try_add}
use go_libp2p_kad_dht.Query.{Config, add_heard_one, add_heard, leave_waiting}

-- The set is valid, and this node itself is not in it.
pub record IsSound (c : Config) (qp : QueryPeerset) : Type 0 where
  pub valid : IsValid c.keys qp
  pub no_self : entry qp.all c.self ≡ none

-- `after` has the entries of `before`, and beyond these only heard ones.
pub record Grown (c : Config) (before after : QueryPeerset) : Type 0 where
  pub sound : IsSound c after
  pub kept :
      (p : PeerId) (x : QueryPeerState) → entry before.all p ≡ some x → entry after.all p ≡ some x
  pub added :
      (p : PeerId) (x : QueryPeerState)
      → entry before.all p ≡ none
      → entry after.all p ≡ some x
      → x.state ≡ heard
  pub counted :
      (states : List PeerState)
      → one_of states heard ≡ false
      → tally_in after states ≡ tally_in before states

Grown-refl : (c : Config) (qp : QueryPeerset) → IsSound c qp → Grown c qp qp
Grown-refl c qp s = record {
  sound = s;
  kept = λ p x h. h;
  added = λ p x h k. absurd (ground arith);
  counted = λ states h. refl;
}

Grown-trans : (c : Config) (a b d : QueryPeerset) → Grown c a b → Grown c b d → Grown c a d
Grown-trans c a b d g h = record {
  sound = h.sound;
  kept = λ p x e. h.kept p x (g.kept p x e);
  added = λ p x e k. elim (Option-cases (entry b.all p)) [
    | inl m ↦ h.added p x m k
    | inr (y, m) ↦ ground (arith, g.added p y e m, h.kept p y m)
  ];
  counted = λ states e. h.counted states e ∙ g.counted states e;
}

add_heard_one-Grown :
    (c : Config) (qp : QueryPeerset) (cause p : PeerId)
    → IsSound c qp
    → Grown c qp (add_heard_one c qp cause p)
unfolding add_heard_one
add_heard_one-Grown c qp cause p s = elim (Bool-cases (p == c.self)) [
  | inl e ↦ rw e (Grown-refl c qp s)
  | inr e ↦ rw e (record {
    sound = record {
      valid = try_add-IsValid c.keys qp p cause s.valid;
      no_self = ground (arith, (entry-try_add c.keys qp p cause c.self).0, s.no_self);
    };
    kept = λ q x h. ground (arith, (entry-try_add c.keys qp p cause q).0);
    added = λ q x h k. unfold fresh_entry in ground (arith, (entry-try_add c.keys qp p cause q).0);
    counted = λ states h. tally-try_add c.keys qp p cause states h;
  })
]

pub add_heard-Grown :
    (c : Config) (qp : QueryPeerset) (cause : PeerId) (ps : List PeerId)
    → IsSound c qp
    → Grown c qp (add_heard c qp cause ps)
unfolding add_heard
add_heard-Grown c qp cause [] s = Grown-refl c qp s
add_heard-Grown c qp cause (p ∷ ps) s =
    let g = add_heard_one-Grown c qp cause p s in
    Grown-trans c qp (add_heard_one c qp cause p) _ g
      (add_heard-Grown c (add_heard_one c qp cause p) cause ps g.sound)

-- `after` is `before` with the state of one peer changed.
pub record Moved (c : Config) (before after : QueryPeerset) (p : PeerId) (x : QueryPeerState)
    (s : PeerState) : Type 0 where
  pub sound : IsSound c after
  pub entries :
      (q : PeerId)
      → entry after.all q ≡ (if p == q then some (record x { state = s }) else entry before.all q)
  pub counted :
      (states : List PeerState)
      → tally_in after states + bit (one_of states x.state)
        ≡ tally_in before states + bit (one_of states s)

pub set_state-Moved :
    (c : Config) (qp : QueryPeerset) (p : PeerId) (x : QueryPeerState) (s : PeerState)
    → IsSound c qp
    → entry qp.all p ≡ some x
    → (qp' : QueryPeerset) × (set_state qp p s ≡ some qp') × Moved c qp qp' p x s
set_state-Moved c qp p x s v h =
    let (qp', e, valid, key, entries) = set_state_present c.keys qp p s x v.valid h in
    (
      qp',
      e,
      record {
        sound = record { valid = valid; no_self = ground (arith, entries c.self, v.no_self) };
        entries = entries;
        counted = λ states. tally-set_state qp qp' p s x states h e;
      },
    )

-- A waiting peer can leave that state.
pub leave_waiting-Moved :
    (c : Config) (qp : QueryPeerset) (p : PeerId) (x : QueryPeerState) (s : PeerState)
    → IsSound c qp
    → entry qp.all p ≡ some x
    → x.state ≡ waiting
    → (qp' : QueryPeerset) × (leave_waiting qp p s ≡ some qp') × Moved c qp qp' p x s
unfolding leave_waiting
leave_waiting-Moved c qp p x s v h w =
    let (qp', e, m) = set_state-Moved c qp p x s v h in
    (qp', rw (get_state-entry qp p, h) (ground arith), m)

-- No other peer can: that is the panic of the protocol error.
pub leave_waiting_panics :
    (qp : QueryPeerset) (p : PeerId) (s : PeerState)
    → found_in (waiting ∷ []) (entry qp.all p) ≡ false
    → leave_waiting qp p s ≡ none
unfolding leave_waiting
leave_waiting_panics qp p s h = elim (Option-cases (entry qp.all p)) [
  | inl e ↦ rw (get_state-entry qp p, e)
  | inr (x, e) ↦ rw (get_state-entry qp p, e) (ground arith)
]
