-- ===== src/Routing/Searching.antt =====
-- GetValue of routing.go: getValues sends the local value and those of the answers to processValues, and the
-- result is the last value that comes out. The answers that come, and the ends of channels, are events.
use go_libp2p_kad_dht.Prelude.{ℕ, if◌then◌else◌, Option, none, some, List, [], ◌∷◌, Bool}
use go_libp2p_kad_dht.Qpeerset.{PeerId}
use go_libp2p_kad_dht.Network.{AddrInfo}
use go_libp2p_kad_dht.Handlers.{Rec, Result, Env, Datastore}
use go_libp2p_kad_dht.Values.{new_search, Arrival, value, closed, context_ended, process_values}
use go_libp2p_kad_dht.Routing.{get_local, get_value_from, local_value}

-- A peer answers the query of getValues; the two flags are whether its value goes into valCh, and from
-- there to the caller, before the context ends. Or the context ends.
pub data SearchEvent : Type 0 where
  answered : PeerId → Result (Option Rec × List AddrInfo) → Bool → Bool → SearchEvent
  ended : SearchEvent

abbrev pub arrive : Option (ℕ × PeerId) → Bool → List Arrival → List Arrival
arrive none delivered rest = rest
arrive (some (v, p)) delivered rest = value (record { val = v; from = p }) delivered ∷ rest

-- What comes over valCh.
unfoldable pub arrivals_of : (ℕ → Bool) → ℕ → List SearchEvent → List Arrival
arrivals_of valid nil_value [] = closed ∷ []
arrivals_of valid nil_value (ended ∷ events) = context_ended ∷ []
arrivals_of valid nil_value (answered p answer sent delivered ∷ events) =
    arrive (get_value_from valid nil_value sent p answer).emitted delivered
      (arrivals_of valid nil_value events)

-- `for r := range responses { best = r }`
abbrev pub last_of : Option ℕ → List ℕ → Option ℕ
last_of best [] = best
last_of best (r ∷ rs) = last_of (some r) rs

pub data GetResult : Type 0 where
  got : ℕ → GetResult
  not_found : GetResult
  get_ended : GetResult

abbrev pub found_or : Option ℕ → GetResult
found_or none = not_found
found_or (some v) = got v

-- What SearchValue's channel yields, for a quorum of `nvals`.
unfoldable pub search_value :
    Env → Datastore → PeerId → ℕ → ℕ → ℕ → Bool → Bool → List SearchEvent → List ℕ
search_value e ds self nil_value key nvals sent delivered events =
    (process_values (e.select key) nvals new_search (
      arrive (local_value self sent (get_local e ds key)) delivered
        (arrivals_of (e.valid key) nil_value events))).out

-- `context_error`: the context has ended when the channel is closed.
unfoldable pub get_value :
    Env → Datastore → PeerId → ℕ → ℕ → ℕ → Bool → Bool → List SearchEvent → Bool → GetResult
get_value e ds self nil_value key nvals sent delivered events context_error =
    if context_error
    then get_ended
    else found_or (last_of none (search_value e ds self nil_value key nvals sent delivered events))
