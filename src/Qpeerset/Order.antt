-- ===== src/Qpeerset/Order.antt =====
-- The sort of qpeerset/qpeerset.go.
use go_libp2p_kad_dht.Prelude.{
  ℕ, suc, ◌==◌, ◌≤◌, if◌then◌else◌, none, some, List, [], ◌∷◌, ◌≡◌, refl, inl, inr, arith, Bool,
  Bool-cases, All, tally, length,
}
use go_libp2p_kad_dht.Qpeerset.{PeerId, QueryPeerState, less, insert_by_distance, sort_by_distance}
use go_libp2p_kad_dht.Qpeerset.Lookup.{entry, UniqueIds}

-- Every entry lies at the distance `d` or further.
abbrev pub Beyond : ℕ → List QueryPeerState → Type 0
Beyond d [] = Unit
Beyond d (x ∷ xs) = (d ≤ x.distance) × Beyond d xs

-- Distances never fall along the list.
abbrev pub Ascending : List QueryPeerState → Type 0
Ascending [] = Unit
Ascending (x ∷ xs) = Beyond x.distance xs × Ascending xs

Beyond-mono : (d e : ℕ) (xs : List QueryPeerState) → d ≤ e → Beyond e xs → Beyond d xs
Beyond-mono d e [] h b = tt
Beyond-mono d e (x ∷ xs) h b = (omega arith, Beyond-mono d e xs h b.1)

insert-Beyond :
    (d : ℕ) (x : QueryPeerState) (xs : List QueryPeerState)
    → d ≤ x.distance
    → Beyond d xs
    → Beyond d (insert_by_distance x xs)
unfolding insert_by_distance
insert-Beyond d x [] h b = (h, tt)
insert-Beyond d x (y ∷ ys) h b = ground (arith, insert-Beyond d x ys)

insert-Ascending :
    (x : QueryPeerState) (xs : List QueryPeerState)
    → Ascending xs
    → Ascending (insert_by_distance x xs)
unfolding insert_by_distance
insert-Ascending x [] a = (tt, tt)
insert-Ascending x (y ∷ ys) a = ground (
  arith,
  insert-Ascending x ys,
  insert-Beyond y.distance x ys,
  Beyond-mono x.distance y.distance ys,
)

pub sort-Ascending : (xs : List QueryPeerState) → Ascending (sort_by_distance xs)
unfolding sort_by_distance
sort-Ascending [] = tt
sort-Ascending (x ∷ xs) = insert-Ascending x (sort_by_distance xs) (sort-Ascending xs)

entry-insert :
    (x : QueryPeerState) (xs : List QueryPeerState) (q : PeerId)
    → entry xs x.id ≡ none
    → entry (insert_by_distance x xs) q ≡ (if x.id == q then some x else entry xs q)
unfolding insert_by_distance entry
entry-insert x [] q h = refl
entry-insert x (y ∷ ys) q h = ground (arith, entry-insert x ys q)

insert-UniqueIds :
    (x : QueryPeerState) (xs : List QueryPeerState)
    → entry xs x.id ≡ none
    → UniqueIds xs
    → UniqueIds (insert_by_distance x xs)
unfolding insert_by_distance entry
insert-UniqueIds x [] h u = (refl, tt)
insert-UniqueIds x (y ∷ ys) h u = ground (arith, insert-UniqueIds x ys, entry-insert x ys y.id)

sort_facts :
    (xs : List QueryPeerState)
    → UniqueIds xs
    → ((q : PeerId) → entry (sort_by_distance xs) q ≡ entry xs q) × UniqueIds (sort_by_distance xs)
unfolding sort_by_distance entry
sort_facts [] u = (λ q. refl, tt)
sort_facts (x ∷ xs) u =
    let (same, unique) = sort_facts xs u.1 in
    (
      λ q. ground (arith, same q, same x.id, entry-insert x (sort_by_distance xs) q),
      insert-UniqueIds x (sort_by_distance xs) (ground (arith, same x.id)) unique,
    )

-- Sorting changes no lookup, when no peer stands twice.
pub entry-sort :
    (xs : List QueryPeerState) (q : PeerId)
    → UniqueIds xs
    → entry (sort_by_distance xs) q ≡ entry xs q
entry-sort xs q u = (sort_facts xs u).0 q

pub sort-UniqueIds : (xs : List QueryPeerState) → UniqueIds xs → UniqueIds (sort_by_distance xs)
sort-UniqueIds xs u = (sort_facts xs u).1

tally-insert :
    (test : QueryPeerState → Bool) (x : QueryPeerState) (xs : List QueryPeerState)
    → tally test (insert_by_distance x xs) ≡ tally test (x ∷ xs)
unfolding insert_by_distance
tally-insert test x [] = refl
tally-insert test x (y ∷ ys) = ground (arith, tally-insert test x ys)

pub tally-sort :
    (test : QueryPeerState → Bool) (xs : List QueryPeerState)
    → tally test (sort_by_distance xs) ≡ tally test xs
unfolding sort_by_distance
tally-sort test [] = refl
tally-sort test (x ∷ xs) =
    omega (arith, tally-insert test x (sort_by_distance xs), tally-sort test xs)

length-insert :
    (x : QueryPeerState) (xs : List QueryPeerState)
    → length (insert_by_distance x xs) ≡ suc (length xs)
unfolding insert_by_distance
length-insert x [] = refl
length-insert x (y ∷ ys) = ground (arith, length-insert x ys)

pub length-sort : (xs : List QueryPeerState) → length (sort_by_distance xs) ≡ length xs
unfolding sort_by_distance
length-sort [] = refl
length-sort (x ∷ xs) = omega (arith, length-insert x (sort_by_distance xs), length-sort xs)

insert-All {ℓ} :
    (P : QueryPeerState → Type ℓ) (x : QueryPeerState) (xs : List QueryPeerState)
    → P x
    → All P xs
    → All P (insert_by_distance x xs)
unfolding insert_by_distance
insert-All P x [] h a = (h, tt)
insert-All P x (y ∷ ys) h a = elim (Bool-cases (less y x)) [
  | inl e ↦ rw e (a.0, insert-All P x ys h a.1)
  | inr e ↦ rw e (h, a)
]

pub sort-All {ℓ} :
    (P : QueryPeerState → Type ℓ) (xs : List QueryPeerState)
    → All P xs
    → All P (sort_by_distance xs)
unfolding sort_by_distance
sort-All P [] a = tt
sort-All P (x ∷ xs) a = insert-All P x (sort_by_distance xs) a.0 (sort-All P xs a.1)
