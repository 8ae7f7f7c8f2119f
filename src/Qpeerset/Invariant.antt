-- ===== src/Qpeerset/Invariant.antt =====
-- The invariant of qpeerset/qpeerset.go, and what each method does to the map from peers to entries.
use go_libp2p_kad_dht.Prelude.{
  ℕ, zero, suc, ◌==◌, if◌then◌else◌, none, some, ◌>>=◌, List, [], ◌∷◌, ◌++◌, ◌≡◌, refl, inl, inr,
  arith, true, false, Bool-cases, Option-cases, All,
}
use go_libp2p_kad_dht.Qpeerset.{
  PeerId, PeerState, QueryPeerState, QueryPeerset, KeySpace, heard, try_add, set_state, get_state,
  get_referrer, set_state_at, distance_to_key, sort, new_query_peerset,
}
use go_libp2p_kad_dht.Qpeerset.Lookup.{
  entry, UniqueIds, find_absent, find_present, entry-append, entry-append_absent, UniqueIds-append,
  entry-set_state_at, set_state_at-UniqueIds,
}
use go_libp2p_kad_dht.Qpeerset.Order.{
  Ascending, Beyond, sort-Ascending, entry-sort, sort-UniqueIds, sort-All,
}

-- The distance kept with each peer is its distance to the key.
abbrev pub DistancesRight : KeySpace → ℕ → List QueryPeerState → Type 0
DistancesRight ks key xs = All (λ x. x.distance ≡ ks.distance (ks.hash x.id) key) xs

-- Peers are distinct, distances are right, and the flag `sorted` is only up on an ascending list.
pub record IsValid (ks : KeySpace) (qp : QueryPeerset) : Type 0 where
  pub unique : UniqueIds qp.all
  pub measured : DistancesRight ks qp.key qp.all
  pub ordered : qp.sorted ≡ true → Ascending qp.all

-- What `set_state` did to one entry keeps its distance.
Beyond-set_state_at :
    (d : ℕ) (xs : List QueryPeerState) (i : ℕ) (s : PeerState)
    → Beyond d xs
    → Beyond d (set_state_at xs i s)
unfolding set_state_at
Beyond-set_state_at d [] i s b = tt
Beyond-set_state_at d (x ∷ xs) zero s b = b
Beyond-set_state_at d (x ∷ xs) (suc i) s b = (b.0, Beyond-set_state_at d xs i s b.1)

Ascending-set_state_at :
    (xs : List QueryPeerState) (i : ℕ) (s : PeerState)
    → Ascending xs
    → Ascending (set_state_at xs i s)
unfolding set_state_at
Ascending-set_state_at [] i s a = tt
Ascending-set_state_at (x ∷ xs) zero s a = a
Ascending-set_state_at (x ∷ xs) (suc i) s a =
    (Beyond-set_state_at x.distance xs i s a.0, Ascending-set_state_at xs i s a.1)

measured-set_state_at :
    (ks : KeySpace) (key : ℕ) (xs : List QueryPeerState) (i : ℕ) (s : PeerState)
    → DistancesRight ks key xs
    → DistancesRight ks key (set_state_at xs i s)
unfolding set_state_at
measured-set_state_at ks key [] i s a = tt
measured-set_state_at ks key (x ∷ xs) zero s a = a
measured-set_state_at ks key (x ∷ xs) (suc i) s a = (a.0, measured-set_state_at ks key xs i s a.1)

measured-append :
    (ks : KeySpace) (key : ℕ) (xs : List QueryPeerState) (y : QueryPeerState)
    → DistancesRight ks key xs
    → y.distance ≡ ks.distance (ks.hash y.id) key
    → DistancesRight ks key (xs ++ y ∷ [])
measured-append ks key [] y a h = (h, tt)
measured-append ks key (x ∷ xs) y a h = (a.0, measured-append ks key xs y a.1 h)

pub new_query_peerset-IsValid : (ks : KeySpace) (key : ℕ) → IsValid ks (new_query_peerset ks key)
unfolding new_query_peerset
new_query_peerset-IsValid ks key = record { unique = tt; measured = tt; ordered = λ h. tt }

-- The entry that `try_add` makes for a new peer.
unfoldable pub fresh_entry : KeySpace → QueryPeerset → PeerId → PeerId → QueryPeerState
unfolding distance_to_key
fresh_entry ks qp p r = record {
  id = p;
  distance = distance_to_key ks qp p;
  state = heard;
  referred_by = r;
}

pub try_add_new :
    (ks : KeySpace) (qp : QueryPeerset) (p r : PeerId)
    → entry qp.all p ≡ none
    → try_add ks qp p r
      ≡ (record qp { all = qp.all ++ fresh_entry ks qp p r ∷ []; sorted = false }, true)
unfolding try_add fresh_entry
try_add_new ks qp p r h = rw (find_absent qp.all p h, try_add)

pub try_add_known :
    (ks : KeySpace) (qp : QueryPeerset) (p r : PeerId) (x : QueryPeerState)
    → entry qp.all p ≡ some x
    → try_add ks qp p r ≡ (qp, false)
unfolding try_add
try_add_known ks qp p r x h = let (i, f, g) = find_present qp.all p h in rw (f, try_add)

pub try_add-IsValid :
    (ks : KeySpace) (qp : QueryPeerset) (p r : PeerId)
    → IsValid ks qp
    → IsValid ks (try_add ks qp p r).0
unfolding fresh_entry
try_add-IsValid ks qp p r v = elim (Option-cases (entry qp.all p)) [
  | inr (x, e) ↦ rw (try_add_known ks qp p r x e) v
  | inl e ↦ rw (try_add_new ks qp p r e) (record {
    unique = UniqueIds-append qp.all (fresh_entry ks qp p r) v.unique e;
    measured = measured-append ks qp.key qp.all (fresh_entry ks qp p r) v.measured refl;
    ordered = λ h. absurd (cc);
  })
]

-- `TryAdd` adds the peer as heard, at its distance, when no entry of it stands in the set; it leaves
-- every other peer's entry alone, leaves a known peer's entry alone, and says which it was.
pub entry-try_add :
    (ks : KeySpace) (qp : QueryPeerset) (p r q : PeerId)
    → (entry (try_add ks qp p r).0.all q ≡ elim (entry qp.all q) [
      | some x ↦ some x
      | none ↦ if p == q then some (fresh_entry ks qp p r) else none
    ])
      × ((try_add ks qp p r).1 ≡ elim (entry qp.all p) [ some _ ↦ false | none ↦ true ])
unfolding entry fresh_entry
entry-try_add ks qp p r q = elim (Option-cases (entry qp.all p)) [
  | inr (x, e) ↦ rw (try_add_known ks qp p r x e) (ground arith, ground arith)
  | inl e ↦ rw (try_add_new ks qp p r e) (elim (Option-cases (entry qp.all q)) [
    | inr (y, f) ↦
        (ground (arith, entry-append qp.all (fresh_entry ks qp p r ∷ []) q y f), ground arith)
    | inl f ↦
        (ground (arith, entry-append_absent qp.all (fresh_entry ks qp p r ∷ []) q f), ground arith)
  ])
]

pub set_state_absent :
    (qp : QueryPeerset) (p : PeerId) (s : PeerState)
    → entry qp.all p ≡ none
    → set_state qp p s ≡ none
unfolding set_state
set_state_absent qp p s h = rw (find_absent qp.all p h)

-- On a peer of a valid set, `SetState` does not panic, keeps the set valid, and changes the state of that
-- peer and nothing else that a lookup of a peer yields.
pub set_state_present :
    (ks : KeySpace) (qp : QueryPeerset) (p : PeerId) (s : PeerState) (x : QueryPeerState)
    → IsValid ks qp
    → entry qp.all p ≡ some x
    → (qp' : QueryPeerset) × (set_state qp p s ≡ some qp')
      × IsValid ks qp'
      × (qp'.key ≡ qp.key)
      × ((q : PeerId)
          → entry qp'.all q ≡ (if p == q then some (record x { state = s }) else entry qp.all q))
unfolding set_state
set_state_present ks qp p s x v h =
    let (i, f, g) = find_present qp.all p h in
    (
      record qp { all = set_state_at qp.all i s },
      rw f,
      record {
        unique = set_state_at-UniqueIds qp.all i s v.unique;
        measured = measured-set_state_at ks qp.key qp.all i s v.measured;
        ordered = λ o. Ascending-set_state_at qp.all i s (v.ordered o);
      },
      refl,
      λ q. entry-set_state_at qp.all p q s i x f h,
    )

pub get_state-entry :
    (qp : QueryPeerset) (p : PeerId) → get_state qp p ≡ (entry qp.all p >>= λ x. some x.state)
unfolding get_state
get_state-entry qp p = elim (Option-cases (entry qp.all p)) [
  | inl e ↦ rw (e, find_absent qp.all p e)
  | inr (x, e) ↦ let (i, f, g) = find_present qp.all p e in rw (e, f) (rw g)
]

pub get_referrer-entry :
    (qp : QueryPeerset) (p : PeerId)
    → get_referrer qp p ≡ (entry qp.all p >>= λ x. some x.referred_by)
unfolding get_referrer
get_referrer-entry qp p = elim (Option-cases (entry qp.all p)) [
  | inl e ↦ rw (e, find_absent qp.all p e)
  | inr (x, e) ↦ let (i, f, g) = find_present qp.all p e in rw (e, f) (rw g)
]

pub sort-IsValid :
    (ks : KeySpace) (qp : QueryPeerset)
    → IsValid ks qp
    → IsValid ks (sort qp) × Ascending (sort qp).all
unfolding sort
sort-IsValid ks qp v = elim (Bool-cases qp.sorted) [
  | inl e ↦ simp e (v, v.ordered e)
  | inr e ↦
      rw (e, sort)
        (
          record {
            unique = sort-UniqueIds qp.all v.unique;
            measured = sort-All _ qp.all v.measured;
            ordered = λ _. sort-Ascending qp.all;
          },
          sort-Ascending qp.all,
        )
]

pub entry-sort_set :
    (ks : KeySpace) (qp : QueryPeerset) (p : PeerId)
    → IsValid ks qp
    → entry (sort qp).all p ≡ entry qp.all p
unfolding sort
entry-sort_set ks qp p v = elim (Bool-cases qp.sorted) [
  | inl e ↦ rw (e, sort)
  | inr e ↦ rw (e, sort) (entry-sort qp.all p v.unique)
]

pub key-sort : (qp : QueryPeerset) → (sort qp).key ≡ qp.key
unfolding sort
key-sort qp = ground arith
