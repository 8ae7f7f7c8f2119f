-- ===== src/Dual/Tests.antt =====
-- Runs of the dual DHT, and the theorems at concrete inputs.
use go_libp2p_kad_dht.Prelude.{
  ℕ, ◌≤◌, none, some, List, [], ◌∷◌, true, map, length, pos, ◌≡◌, refl, arith, Option,
}
use go_libp2p_kad_dht.Network.{AddrInfo, info_id}
use go_libp2p_kad_dht.Dual.{
  Input, from_wan, from_lan, wan_closed, emit, merge_step, finish, merge, find_providers_async,
  dedup, combine_errors, find_peer,
}
use go_libp2p_kad_dht.Dual.Merged.{Distinct, find_providers_async-Distinct}

abbrev provider : ℕ → AddrInfo
provider p = record { id = p; addrs = p ∷ [] }

-- Both DHTs know 5; the count is used up before 9 comes.
abbrev inputs : List Input
inputs =
    from_wan (provider 5) true
    ∷ from_lan (provider 5) true
    ∷ wan_closed
    ∷ from_lan (provider 7) true
    ∷ from_lan (provider 9) true
    ∷ []

abbrev wan_error : Option ℕ
wan_error = some 0

abbrev no_error : Option ℕ
no_error = none

program : Unit {0}
unfolding emit merge_step finish merge find_providers_async dedup combine_errors find_peer
program = tt

merged_once : map info_id (find_providers_async (pos 2) inputs).out ≡ 7 ∷ 5 ∷ []
unfolding program
merged_once = refl

find_providers_async-Distinct_example :
    Distinct (map info_id (find_providers_async (pos 2) inputs).out)
    × (length (find_providers_async (pos 2) inputs).out ≤ 2)
find_providers_async-Distinct_example = find_providers_async-Distinct 2 inputs (omega arith)
