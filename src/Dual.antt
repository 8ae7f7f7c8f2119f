-- ===== src/Dual.antt =====
-- dual/dual.go: the DHT that joins one for the wide area and one for the local network. What the two
-- yield is a parameter. An error is a number, 0 for kb.ErrLookupFailure, and multierr's join a list.
pub mod Merged
mod Tests
use go_libp2p_kad_dht.Prelude.{
  ℕ, zero, suc, ◌==◌, ◌-◌, ltb, if◌then◌else◌, Option, none, some, List, [], ◌∷◌, ◌++◌, Bool, true,
  false, ◌&&◌, ◌||◌, not, contains, length, ℤ, pos, negsuc,
}
use go_libp2p_kad_dht.Qpeerset.{PeerId}
use go_libp2p_kad_dht.Network.{Addr, AddrInfo}

-- What the loop of FindProvidersAsync keeps: nil channels are closed, and `found`, `out` and `published`
-- hold the latest first. `error_last`: `qEv` is a query error.
pub record Merge : Type 0 where
  pub wan_open : Bool
  pub lan_open : Bool
  pub found : List PeerId
  pub count : ℤ
  pub out : List AddrInfo
  pub error_last : Bool
  pub published : List Bool

abbrev pub new_merge : ℤ → Merge
new_merge count = record {
  wan_open = true;
  lan_open = true;
  found = [];
  count = count;
  out = [];
  error_last = false;
  published = [];
}

-- What its `select` yields: a provider, with whether it is sent before the context ends; the end of a
-- channel; a query event, which is an error or not; or the end of the events.
pub data Input : Type 0 where
  from_wan from_lan : AddrInfo → Bool → Input
  wan_closed lan_closed events_closed : Input
  query_event : Bool → Input

abbrev pub is_positive : ℤ → Bool
is_positive (pos zero) = false
is_positive (pos (suc n)) = true
is_positive (negsuc n) = false

abbrev pub minus_one : ℤ → ℤ
minus_one (pos zero) = negsuc 0
minus_one (pos (suc n)) = pos n
minus_one (negsuc n) = negsuc (suc n)

-- The condition of the loop.
abbrev pub is_going : Bool → Merge → Bool
is_going zero_count m = (zero_count || is_positive m.count) && (m.wan_open || m.lan_open)

-- A provider: the loop goes on (`true`) unless the context ends.
unfoldable pub emit : Merge → AddrInfo → Bool → Bool × Merge
emit m info sent =
    if contains m.found info.id
    then (true, m)
    else if sent
    then (
      true,
      record m { out = info ∷ m.out; found = info.id ∷ m.found; count = minus_one m.count },
    )
    else (false, m)

-- One round of the loop; a channel that is nil yields nothing.
unfoldable pub merge_step : Merge → Input → Bool × Merge
merge_step m (from_wan info sent) = if m.wan_open then emit m info sent else (true, m)
merge_step m (from_lan info sent) = if m.lan_open then emit m info sent else (true, m)
merge_step m wan_closed = (true, record m { wan_open = false })
merge_step m lan_closed = (true, record m { lan_open = false })
merge_step m events_closed = (true, record m { error_last = false })
merge_step m (query_event is_error) = (
  true,
  record m {
    error_last = is_error;
    published = if is_error then m.published else is_error ∷ m.published;
  },
)

-- After the loop: an error that came last is published if nothing was found.
unfoldable pub finish : Merge → Merge
finish m =
    if m.error_last && (length m.found == 0) then record m { published = true ∷ m.published } else m

unfoldable pub merge : Bool → Merge → List Input → Merge
merge zero_count m [] = if is_going zero_count m then m else finish m
merge zero_count m (i ∷ rest) =
    let (on, m') = merge_step m i in
    let next = merge zero_count m' rest in
    if is_going zero_count m then if on then next else m' else finish m

abbrev pub is_zero_count : ℤ → Bool
is_zero_count (pos zero) = true
is_zero_count (pos (suc n)) = false
is_zero_count (negsuc n) = false

unfoldable pub find_providers_async : ℤ → List Input → Merge
find_providers_async count inputs = merge (is_zero_count count) (new_merge count) inputs

-- The addresses as keys of a map: each stands once.
unfoldable pub dedup : List Addr → List Addr → List Addr
dedup seen [] = seen
dedup seen (a ∷ rest) = dedup (if contains seen a then seen else a ∷ seen) rest

abbrev pub combine_addrs : List Addr → List Addr → List Addr
combine_addrs [] lan = lan
combine_addrs (a ∷ wan) [] = a ∷ wan
combine_addrs (a ∷ wan) (b ∷ lan) = dedup (dedup [] (a ∷ wan)) (b ∷ lan)

unfoldable pub combine_errors : ℕ → ℕ → List ℕ
combine_errors a b =
    if a == b then a ∷ [] else if a == 0 then b ∷ [] else if b == 0 then a ∷ [] else a ∷ b ∷ []

-- The errors returned: none if either DHT returned none.
abbrev pub joined : Option ℕ → Option ℕ → List ℕ
joined none lan = []
joined (some a) none = []
joined (some a) (some b) = combine_errors a b

-- FindPeer, on the addresses and the errors of the two.
unfoldable pub find_peer : PeerId → List Addr → List Addr → Option ℕ → Option ℕ → AddrInfo × List ℕ
find_peer p wan lan wan_err lan_err =
    (record { id = p; addrs = combine_addrs wan lan }, joined wan_err lan_err)

pub data Outcome : Type 0 where
  found_value : ℕ → Outcome
  failed_with : List ℕ → Outcome

-- What one DHT's GetValue returns: a value or an error.
pub data Lookup : Type 0 where
  value : ℕ → Lookup
  failed : ℕ → Lookup

unfoldable pub get_value : Lookup → Lookup → Outcome
get_value (value v) lan = found_value v
get_value (failed a) (value v) = found_value v
get_value (failed a) (failed b) = failed_with (combine_errors a b)

-- WANActive: the DHT that Provide and PutValue use.
pub data Side : Type 0 where
  wan_side lan_side : Side

unfoldable pub active_side : ℕ → Side
active_side wan_table_size = if ltb 0 wan_table_size then wan_side else lan_side
