-- ===== src/Qpeerset/Closest.antt =====
-- What the queries of qpeerset/qpeerset.go return: GetClosestNInStates, NumHeard, NumWaiting.
use go_libp2p_kad_dht.Prelude.{
  ℕ, zero, suc, ◌≤◌, min, none, some, List, [], ◌∷◌, map, drop, ◌++◌, ◌==◌, sym, ◌≡◌, refl, ap, ◌∙◌,
  inl, inr, arith, Bool, true, false, Bool-cases, pos, negsuc, take, select, tally, contains,
  length, length-map, length-take, length-select, tally-le-length,
}
use go_libp2p_kad_dht.Qpeerset.{
  PeerId, PeerState, QueryPeerState, QueryPeerset, KeySpace, heard, waiting, in_states, id_of, sort,
  get_closest_n_in_states, get_closest_in_states, num_heard, num_waiting,
}
use go_libp2p_kad_dht.Qpeerset.Lookup.{entry}
use go_libp2p_kad_dht.Qpeerset.Order.{Ascending, tally-sort, length-sort}
use go_libp2p_kad_dht.Qpeerset.Firsts.{firsts, firsts_closest, firsts_found, firsts_once}
use go_libp2p_kad_dht.Qpeerset.Invariant.{IsValid, sort-IsValid, entry-sort_set}

pub tally-sort_set :
    (test : QueryPeerState → Bool) (qp : QueryPeerset)
    → tally test (sort qp).all ≡ tally test qp.all
unfolding sort
tally-sort_set test qp = elim (Bool-cases qp.sorted) [
  | inl e ↦ rw (e, sort)
  | inr e ↦ rw (e, sort) (tally-sort test qp.all)
]

pub length-sort_set : (qp : QueryPeerset) → length (sort qp).all ≡ length qp.all
unfolding sort
length-sort_set qp = elim (Bool-cases qp.sorted) [
  | inl e ↦ rw (e, sort)
  | inr e ↦ rw (e, sort) (length-sort qp.all)
]

-- The peers that a call with a count of at least 0 returns.
abbrev pub closest_in : QueryPeerset → ℕ → List PeerState → List PeerId
closest_in qp n states = firsts (in_states states) n (sort qp).all

pub length-closest_in :
    (qp : QueryPeerset) (n : ℕ) (states : List PeerState)
    → length (closest_in qp n states) ≡ min n (tally (in_states states) qp.all)
length-closest_in qp n states = omega (
  arith,
  length-map id_of (take n (select (in_states states) (sort qp).all)),
  length-take n (select (in_states states) (sort qp).all),
  length-select (in_states states) (sort qp).all,
  tally-sort_set (in_states states) qp,
)

take-map {ℓ κ} :
    {A : Type ℓ} {B : Type κ} (f : A → B) (n : ℕ) (xs : List A)
    → take n (map f xs) ≡ map f (take n xs)
take-map f zero xs = refl
take-map f (suc n) [] = refl
take-map f (suc n) (x ∷ xs) = ap (◌∷◌ (f x)) (take-map f n xs)

take-drop {ℓ} : {A : Type ℓ} (n : ℕ) (xs : List A) → take n xs ++ drop n xs ≡ xs
take-drop zero xs = refl
take-drop (suc n) [] = refl
take-drop (suc n) (x ∷ xs) = ap (◌∷◌ x) (take-drop n xs)

pub get_closest_n_lem :
    (qp : QueryPeerset) (n : ℕ) (states : List PeerState)
    → get_closest_n_in_states qp (pos n) states ≡ some (closest_in qp n states, sort qp)
unfolding get_closest_n_in_states
get_closest_n_lem qp n states = rw (take-map id_of n (select (in_states states) (sort qp).all))

-- A negative count panics: `result[:n]`.
pub get_closest_n_panics :
    (qp : QueryPeerset) (n : ℕ) (states : List PeerState)
    → get_closest_n_in_states qp (negsuc n) states ≡ none
unfolding get_closest_n_in_states
get_closest_n_panics qp n states = refl

-- For a count of at least 0 the call returns: as many peers as asked for, or as there are in the
-- states; every one of them a peer of the set in one of the states, none of them twice, the nearest
-- first, and none of them further from the key than a peer in the states that is left out. The set
-- keeps its entries, and is valid and sorted.
pub get_closest_n_correct :
    (ks : KeySpace) (qp : QueryPeerset) (n : ℕ) (states : List PeerState)
    → IsValid ks qp
    → (result : List PeerId) × (qp' : QueryPeerset) × (get_closest_n_in_states qp (pos n) states
        ≡ some (result, qp'))
      × (length result ≡ min n (tally (in_states states) qp.all))
      × ((p : PeerId)
          → contains result p ≡ true
          → (x : QueryPeerState) × (entry qp.all p ≡ some x) × (in_states states x ≡ true))
      × ((p : PeerId) → tally (λ r. r == p) result ≤ 1)
      × ((taken rest : List QueryPeerState) × (result ≡ map id_of taken)
          × (taken ++ rest ≡ select (in_states states) qp'.all))
      × ((p q : PeerId) (x y : QueryPeerState)
          → entry qp.all p ≡ some x
          → entry qp.all q ≡ some y
          → in_states states y ≡ true
          → contains result p ≡ true
          → contains result q ≡ false
          → (in_states states x ≡ true) × (x.distance ≤ y.distance))
      × IsValid ks qp'
      × Ascending qp'.all
      × ((p : PeerId) → entry qp'.all p ≡ entry qp.all p)
get_closest_n_correct ks qp n states v =
    let (valid, ascending) = sort-IsValid ks qp v in
    (
      closest_in qp n states,
      sort qp,
      get_closest_n_lem qp n states,
      length-closest_in qp n states,
      λ p h.
          let (x, f, k) = firsts_found (in_states states) n (sort qp).all p valid.unique h in
          (x, sym (entry-sort_set ks qp p v) ∙ f, k),
      λ p. firsts_once (in_states states) n (sort qp).all p valid.unique,
      (
        take n (select (in_states states) (sort qp).all),
        drop n (select (in_states states) (sort qp).all),
        refl,
        take-drop n (select (in_states states) (sort qp).all),
      ),
      λ p q x y hp hq ky cp cq.
          firsts_closest (in_states states) n (sort qp).all p q x y ascending valid.unique
            (entry-sort_set ks qp p v ∙ hp) (entry-sort_set ks qp q v ∙ hq) ky cp cq,
      valid,
      ascending,
      λ p. entry-sort_set ks qp p v,
    )

abbrev pub tally_in : QueryPeerset → List PeerState → ℕ
tally_in qp states = tally (in_states states) qp.all

pub num_heard_lem : (qp : QueryPeerset) → num_heard qp ≡ some (tally_in qp (heard ∷ []), sort qp)
unfolding num_heard get_closest_in_states
num_heard_lem qp = rw (get_closest_n_lem qp (length qp.all) (heard ∷ [])) (
    ap (λ k. some (k, sort qp))
      (omega (
        arith,
        length-closest_in qp (length qp.all) (heard ∷ []),
        tally-le-length (in_states (heard ∷ [])) qp.all,
      )))

pub num_waiting_lem :
    (qp : QueryPeerset) → num_waiting qp ≡ some (tally_in qp (waiting ∷ []), sort qp)
unfolding num_waiting get_closest_in_states
num_waiting_lem qp = rw (get_closest_n_lem qp (length qp.all) (waiting ∷ [])) (
    ap (λ k. some (k, sort qp))
      (omega (
        arith,
        length-closest_in qp (length qp.all) (waiting ∷ []),
        tally-le-length (in_states (waiting ∷ [])) qp.all,
      )))
