-- ===== src/Values.antt =====
-- The search for values of routing.go: searchValueQuorum, processValues and the peers that SearchValue
-- corrects. A value is a byte string that is not nil, read as a number; `validator_select key a b` is
-- `Validator.Select(key, [a, b])`, an index or an error. The channel of values and the context are lists
-- of events.
pub mod Best
pub mod Quorum
mod Tests
use go_libp2p_kad_dht.Prelude.{
  ℕ, suc, ◌==◌, ◌+◌, ltb, if◌then◌else◌, Option, none, some, List, [], ◌∷◌, ◌++◌, Bool, true, false,
  ◌&&◌, not, contains, select,
}
use go_libp2p_kad_dht.Qpeerset.{PeerId}

pub record RecvdVal : Type 0 where
  pub val : ℕ
  pub from : PeerId

-- What processValues and the function that it is given keep.
pub record Search : Type 0 where
  pub best : Option ℕ
  pub peers_with_best : List PeerId
  pub aborted : Bool
  pub num_responses : ℕ
  pub out : List ℕ
  pub stop_closed : Bool

abbrev pub new_search : Search
new_search = record {
  best = none;
  peers_with_best = [];
  aborted = false;
  num_responses = 0;
  out = [];
  stop_closed = false;
}

-- The test of the quorum, which closes `stopCh` and aborts.
unfoldable pub check_quorum : ℕ → Search → Search
check_quorum nvals s =
    if ltb 0 nvals && ltb nvals s.num_responses
    then record s { stop_closed = true; aborted = true }
    else record s { aborted = false }

-- The function of searchValueQuorum. `delivered`: `out <- v.Val` goes through before the context ends.
unfoldable pub new_val : ℕ → Search → RecvdVal → Bool → Bool → Search
new_val nvals s v better delivered =
    let t = record s { num_responses = s.num_responses + 1 } in
    if better
    then if delivered
      then check_quorum nvals (record t { out = t.out ++ v.val ∷ [] })
      else record t { aborted = false }
    else check_quorum nvals t

-- `make(map)` with the one sender, and `best = v.Val`.
unfoldable pub take_best : ℕ → Search → RecvdVal → Bool → Search
take_best nvals s v delivered =
    new_val nvals (record s { peers_with_best = v.from ∷ []; best = some v.val }) v true delivered

-- The branches on the result of Select.
unfoldable pub selected : ℕ → Search → RecvdVal → Bool → Option ℕ → Search
selected nvals s v delivered none = s
selected nvals s v delivered (some i) =
    if i == 1 then take_best nvals s v delivered else new_val nvals s v false delivered

-- The branches on `best`.
unfoldable pub against_best : (ℕ → ℕ → Option ℕ) → ℕ → Search → RecvdVal → Bool → Option ℕ → Search
against_best sel nvals s v delivered none = take_best nvals s v delivered
against_best sel nvals s v delivered (some b) =
    if b == v.val
    then new_val nvals (record s { peers_with_best = v.from ∷ s.peers_with_best }) v false delivered
    else selected nvals s v delivered (sel b v.val)

-- One value from the channel.
unfoldable pub handle_value : (ℕ → ℕ → Option ℕ) → ℕ → Search → RecvdVal → Bool → Search
handle_value validator_select nvals s v delivered =
    against_best validator_select nvals s v delivered s.best

-- What the `select` of the loop yields: a value (with whether it can be delivered), the end of the
-- channel, or the end of the context.
pub data Arrival : Type 0 where
  value : RecvdVal → Bool → Arrival
  closed : Arrival
  context_ended : Arrival

unfoldable pub process_values : (ℕ → ℕ → Option ℕ) → ℕ → Search → List Arrival → Search
process_values sel nvals s [] = s
process_values sel nvals s (closed ∷ rest) = s
process_values sel nvals s (context_ended ∷ rest) = s
process_values sel nvals s (value v delivered ∷ rest) =
    let s' = handle_value sel nvals s v delivered in
    let next = process_values sel nvals s' rest in if s'.aborted then s' else next

-- The peers of the lookup that SearchValue sends the best value to.
unfoldable pub update_peers : Search → List PeerId → List PeerId
update_peers s peers = elim s.best [
  | none ↦ []
  | some b ↦ if s.aborted then [] else select (λ p. not (contains s.peers_with_best p)) peers
]
