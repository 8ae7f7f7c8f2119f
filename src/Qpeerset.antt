-- ===== src/Qpeerset.antt =====
-- qpeerset/qpeerset.go: the peers that one lookup knows of, each with its state and its distance to
-- the key. A method that changes the set returns the new one; `none` is a panic.
pub mod Lookup
pub mod Order
pub mod Firsts
pub mod Invariant
pub mod Closest
pub mod Counts
mod Tests
use go_libp2p_kad_dht.Prelude.{
  ℕ, zero, suc, ◌==◌, if◌then◌else◌, ltb, Option, none, some, ◌>>=◌, List, [], ◌∷◌, ◌++◌, map, Bool,
  true, false, ◌||◌, ℤ, pos, negsuc, take, select, get_elem?, length,
}

-- A peer ID and a key are byte strings, which the program only compares and hashes.
abbrev pub PeerId : Type 0
PeerId = ℕ

-- The XOR key space of go-keyspace: the hash of a byte string, and the distance of two hashes.
pub record KeySpace : Type 0 where
  pub hash : ℕ → ℕ
  pub distance : ℕ → ℕ → ℕ

pub data PeerState : Type 0 where
  heard waiting queried unreachable : PeerState

abbrev pub state_eq : PeerState → PeerState → Bool
state_eq heard heard = true
state_eq waiting waiting = true
state_eq queried queried = true
state_eq unreachable unreachable = true
state_eq _ _ = false

pub record QueryPeerState : Type 0 where
  pub id : PeerId
  pub distance : ℕ
  pub state : PeerState
  pub referred_by : PeerId

pub record QueryPeerset : Type 0 where
  pub key : ℕ
  pub all : List QueryPeerState
  pub sorted : Bool

unfoldable pub new_query_peerset : KeySpace → ℕ → QueryPeerset
new_query_peerset ks key = record { key = ks.hash key; all = []; sorted = false }

-- One further than an index that was found in the tail.
abbrev pub shift : Option ℕ → Option ℕ
shift none = none
shift (some i) = some (suc i)

-- `none` is the -1 of the source.
unfoldable pub find : List QueryPeerState → PeerId → Option ℕ
find [] p = none
find (x ∷ xs) p = if x.id == p then some 0 else shift (find xs p)

unfoldable pub distance_to_key : KeySpace → QueryPeerset → PeerId → ℕ
distance_to_key ks qp p = ks.distance (ks.hash p) qp.key

unfoldable pub try_add : KeySpace → QueryPeerset → PeerId → PeerId → QueryPeerset × Bool
unfolding distance_to_key
try_add ks qp p referred_by = elim (find qp.all p) [
  | some _ ↦ (qp, false)
  | none ↦ (
    record qp {
      all =
          qp.all
          ++ record {
            id = p;
            distance = distance_to_key ks qp p;
            state = heard;
            referred_by = referred_by;
          }
            ∷ [];
      sorted = false;
    },
    true,
  )
]

-- Less of sortedQueryPeerset: `di.Cmp(dj) == -1`.
abbrev pub less : QueryPeerState → QueryPeerState → Bool
less x y = ltb x.distance y.distance

-- sort.Sort with that order; peers at one distance keep their order.
unfoldable pub insert_by_distance : QueryPeerState → List QueryPeerState → List QueryPeerState
insert_by_distance x [] = x ∷ []
insert_by_distance x (y ∷ ys) = if less y x then y ∷ insert_by_distance x ys else x ∷ y ∷ ys

unfoldable pub sort_by_distance : List QueryPeerState → List QueryPeerState
unfolding insert_by_distance
sort_by_distance [] = []
sort_by_distance (x ∷ xs) = insert_by_distance x (sort_by_distance xs)

unfoldable pub sort : QueryPeerset → QueryPeerset
unfolding sort_by_distance
sort qp = if qp.sorted then qp else record qp { all = sort_by_distance qp.all; sorted = true }

-- `all[i].state = s`
unfoldable pub set_state_at : List QueryPeerState → ℕ → PeerState → List QueryPeerState
set_state_at [] i s = []
set_state_at (x ∷ xs) zero s = record x { state = s } ∷ xs
set_state_at (x ∷ xs) (suc i) s = x ∷ set_state_at xs i s

unfoldable pub set_state : QueryPeerset → PeerId → PeerState → Option QueryPeerset
set_state qp p s = do i ← find qp.all p; some (record qp { all = set_state_at qp.all i s })

unfoldable pub get_state : QueryPeerset → PeerId → Option PeerState
get_state qp p = do i ← find qp.all p; x ← get_elem? qp.all i; some x.state

unfoldable pub get_referrer : QueryPeerset → PeerId → Option PeerId
get_referrer qp p = do i ← find qp.all p; x ← get_elem? qp.all i; some x.referred_by

-- `_, ok := m[s]`
abbrev pub one_of : List PeerState → PeerState → Bool
one_of [] s = false
one_of (t ∷ ts) s = state_eq t s || one_of ts s

abbrev pub in_states : List PeerState → QueryPeerState → Bool
in_states states x = one_of states x.state

abbrev pub id_of : QueryPeerState → PeerId
id_of x = x.id

-- `result[:n]` where the result is longer, and the result where it is not; a negative `n` panics.
abbrev pub first_n {ℓ} : {A : Type ℓ} → ℤ → List A → Option (List A)
first_n (pos n) xs = some (take n xs)
first_n (negsuc n) xs = none

unfoldable pub get_closest_n_in_states :
    QueryPeerset → ℤ → List PeerState → Option (List PeerId × QueryPeerset)
get_closest_n_in_states qp n states = do
  let qp' = sort qp
  result ← first_n n (map id_of (select (in_states states) qp'.all))
  some (result, qp')

unfoldable pub get_closest_in_states :
    QueryPeerset → List PeerState → Option (List PeerId × QueryPeerset)
get_closest_in_states qp states = get_closest_n_in_states qp (pos (length qp.all)) states

unfoldable pub num_heard : QueryPeerset → Option (ℕ × QueryPeerset)
num_heard qp = do (ps, qp') ← get_closest_in_states qp (heard ∷ []); some (length ps, qp')

unfoldable pub num_waiting : QueryPeerset → Option (ℕ × QueryPeerset)
num_waiting qp = do (ps, qp') ← get_closest_in_states qp (waiting ∷ []); some (length ps, qp')
