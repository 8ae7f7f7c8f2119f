-- ===== src/Qpeerset/Lookup.antt =====
-- The abstract view of qpeerset/qpeerset.go: a finite map from peers to entries. Here: how the
-- reads and writes through an index look in that view.
use go_libp2p_kad_dht.Prelude.{
  ℕ, zero, suc, ◌==◌, if◌then◌else◌, Option, none, some, List, [], ◌∷◌, ◌++◌, ◌≡◌, refl, inl, inr,
  arith, get_elem?, Bool-cases, Option-cases,
}
use go_libp2p_kad_dht.Qpeerset.{PeerId, PeerState, QueryPeerState, find, set_state_at}

-- The entry that a lookup of the peer reaches.
unfoldable pub entry : List QueryPeerState → PeerId → Option QueryPeerState
entry [] p = none
entry (x ∷ xs) p = if x.id == p then some x else entry xs p

-- No peer stands twice in the list.
abbrev pub UniqueIds : List QueryPeerState → Type 0
UniqueIds [] = Unit
UniqueIds (x ∷ xs) = (entry xs x.id ≡ none) × UniqueIds xs

pub find_absent : (xs : List QueryPeerState) (p : PeerId) → entry xs p ≡ none → find xs p ≡ none
unfolding find entry
find_absent [] p h = refl
find_absent (x ∷ xs) p h = ground (arith, find_absent xs p)

pub find_present :
    (xs : List QueryPeerState) (p : PeerId) {x : QueryPeerState}
    → entry xs p ≡ some x
    → (i : ℕ) × (find xs p ≡ some i) × (get_elem? xs i ≡ some x)
unfolding find entry
find_present [] p h = (0, ground arith, ground arith)
find_present (x ∷ xs) p h = elim (Bool-cases (x.id == p)) [
  | inl e ↦ (0, rw e, rw e at h)
  | inr e ↦ let (i, f, g) = find_present xs p (rw e at h) in (suc i, rw (e, f), g)
]

pub entry_id :
    (xs : List QueryPeerState) (p : PeerId) (x : QueryPeerState) → entry xs p ≡ some x → x.id ≡ p
unfolding entry
entry_id [] p x h = ground arith
entry_id (y ∷ xs) p x h = ground (arith, entry_id xs p x)

pub entry-append :
    (xs ys : List QueryPeerState) (p : PeerId) (x : QueryPeerState)
    → entry xs p ≡ some x
    → entry (xs ++ ys) p ≡ some x
unfolding entry
entry-append [] ys p x h = ground arith
entry-append (y ∷ xs) ys p x h = ground (arith, entry-append xs ys p x)

pub entry-append_absent :
    (xs ys : List QueryPeerState) (p : PeerId) → entry xs p ≡ none → entry (xs ++ ys) p ≡ entry ys p
unfolding entry
entry-append_absent [] ys p h = refl
entry-append_absent (y ∷ xs) ys p h = ground (arith, entry-append_absent xs ys p)

pub UniqueIds-append :
    (xs : List QueryPeerState) (y : QueryPeerState)
    → UniqueIds xs
    → entry xs y.id ≡ none
    → UniqueIds (xs ++ y ∷ [])
unfolding entry
UniqueIds-append [] y u h = (refl, tt)
UniqueIds-append (x ∷ xs) y u h =
    (ground (arith, entry-append_absent xs (y ∷ []) x.id), UniqueIds-append xs y u.1 (ground arith))

-- A write through the index that `find` returns.
pub entry-set_state_at :
    (xs : List QueryPeerState) (p q : PeerId) (s : PeerState) (i : ℕ) (x : QueryPeerState)
    → find xs p ≡ some i
    → entry xs p ≡ some x
    → entry (set_state_at xs i s) q ≡ (if p == q then some (record x { state = s }) else entry xs q)
unfolding find entry set_state_at
entry-set_state_at [] p q s i x f h = ground arith
entry-set_state_at (y ∷ xs) p q s zero x f h = elim (Option-cases (find xs p)) [
  | inl e ↦ ground arith
  | inr (j, e) ↦ ground arith
]
entry-set_state_at (y ∷ xs) p q s (suc i) x f h = elim (Option-cases (find xs p)) [
  | inl e ↦ ground arith
  | inr (j, e) ↦ ground (arith, entry-set_state_at xs p q s i x)
]

pub entry-set_state_at_absent :
    (xs : List QueryPeerState) (q : PeerId) (i : ℕ) (s : PeerState)
    → entry xs q ≡ none
    → entry (set_state_at xs i s) q ≡ none
unfolding entry set_state_at
entry-set_state_at_absent [] q i s h = refl
entry-set_state_at_absent (x ∷ xs) q zero s h = ground arith
entry-set_state_at_absent (x ∷ xs) q (suc i) s h =
    ground (arith, entry-set_state_at_absent xs q i s)

pub set_state_at-UniqueIds :
    (xs : List QueryPeerState) (i : ℕ) (s : PeerState)
    → UniqueIds xs
    → UniqueIds (set_state_at xs i s)
unfolding set_state_at
set_state_at-UniqueIds [] i s u = tt
set_state_at-UniqueIds (x ∷ xs) zero s u = u
set_state_at-UniqueIds (x ∷ xs) (suc i) s u =
    (entry-set_state_at_absent xs x.id i s u.0, set_state_at-UniqueIds xs i s u.1)
