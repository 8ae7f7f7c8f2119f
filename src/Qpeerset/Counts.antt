-- ===== src/Qpeerset/Counts.antt =====
-- How many peers are in given states, across the methods of qpeerset/qpeerset.go that change the set.
use go_libp2p_kad_dht.Prelude.{
  ℕ, zero, suc, ◌+◌, Option, none, some, List, [], ◌∷◌, ◌≡◌, refl, inl, inr, arith, Bool, true,
  false, Option-cases, tally, tally-append,
}
use go_libp2p_kad_dht.Qpeerset.{
  PeerId, PeerState, heard, one_of, in_states, QueryPeerState, QueryPeerset, KeySpace, find,
  try_add, set_state, set_state_at,
}
use go_libp2p_kad_dht.Qpeerset.Lookup.{entry, UniqueIds, find_present}
use go_libp2p_kad_dht.Qpeerset.Invariant.{fresh_entry, try_add_new, try_add_known}
use go_libp2p_kad_dht.Qpeerset.Closest.{tally_in}

abbrev pub bit : Bool → ℕ
bit true = 1
bit false = 0

tally-set_state_at :
    (test : QueryPeerState → Bool) (xs : List QueryPeerState) (p : PeerId) (s : PeerState) (i : ℕ)
    (x : QueryPeerState)
    → find xs p ≡ some i
    → entry xs p ≡ some x
    → tally test (set_state_at xs i s) + bit (test x)
      ≡ tally test xs + bit (test (record x { state = s }))
unfolding find entry set_state_at
tally-set_state_at test [] p s i x f h = absurd (ground arith)
tally-set_state_at test (y ∷ xs) p s zero x f h = elim (Option-cases (find xs p)) [
  | inl e ↦ ground arith
  | inr (j, e) ↦ ground arith
]
tally-set_state_at test (y ∷ xs) p s (suc i) x f h = elim (Option-cases (find xs p)) [
  | inl e ↦ absurd (ground arith)
  | inr (j, e) ↦ ground (arith, tally-set_state_at test xs p s i x)
]

-- A change of one peer's state moves that peer, and no other, between the counts.
pub tally-set_state :
    (qp qp' : QueryPeerset) (p : PeerId) (s : PeerState) (x : QueryPeerState)
    (states : List PeerState)
    → entry qp.all p ≡ some x
    → set_state qp p s ≡ some qp'
    → tally_in qp' states + bit (one_of states x.state) ≡ tally_in qp states + bit (one_of states s)
unfolding set_state
tally-set_state qp qp' p s x states h e =
    let (i, f, g) = find_present qp.all p h in
    ground (arith, tally-set_state_at (in_states states) qp.all p s i x f h)

pub tally-try_add :
    (ks : KeySpace) (qp : QueryPeerset) (p r : PeerId) (states : List PeerState)
    → one_of states heard ≡ false
    → tally_in (try_add ks qp p r).0 states ≡ tally_in qp states
unfolding fresh_entry
tally-try_add ks qp p r states h = elim (Option-cases (entry qp.all p)) [
  | inr (x, e) ↦ rw (try_add_known ks qp p r x e)
  | inl e ↦
      rw (try_add_new ks qp p r e)
        (ground (arith, tally-append (in_states states) qp.all (fresh_entry ks qp p r ∷ [])))
]

-- Whether the entry of a peer is in one of the states.
abbrev pub found_in : List PeerState → Option QueryPeerState → Bool
found_in states none = false
found_in states (some x) = in_states states x

-- A count is 0 when no peer is in the states.
pub tally_none :
    (xs : List QueryPeerState) (states : List PeerState)
    → UniqueIds xs
    → ((p : PeerId) → found_in states (entry xs p) ≡ false)
    → tally (in_states states) xs ≡ 0
unfolding entry
tally_none [] states u h = refl
tally_none (x ∷ xs) states u h =
    ground (arith, h x.id, tally_none xs states u.1 (λ p. ground (arith, h p)))
