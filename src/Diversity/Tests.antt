-- ===== src/Diversity/Tests.antt =====
-- A table of three peers, an answer with a crowded group, and the theorems on rt_diversity_filter.go.
use go_libp2p_kad_dht.Prelude.{
  ℕ, ◌≤◌, some, List, [], ◌∷◌, true, false, ◌≡◌, refl, ◌↔◌, arith, contains, length, map, ◌/◌,
  tally,
}
use go_libp2p_kad_dht.Prelude.Maps.{lookup, insert, delete}
use go_libp2p_kad_dht.Qpeerset.{PeerId}
use go_libp2p_kad_dht.Network.{AddrInfo, info_id}
use go_libp2p_kad_dht.Diversity.{
  PeerGroupInfo, RtPeerIpGroupFilter, new_rt_peer_diversity_filter, allow, increment, decrement,
  raise, lower,
}
use go_libp2p_kad_dht.Diversity.Table.{
  Counted, new-Counted, increment-Counted, leave, decrement-Counted, in_group_at,
}
use go_libp2p_kad_dht.Diversity.Limits.{Admission, admit, enter, Within, Use-Within}
use go_libp2p_kad_dht.Diversity.Response.{
  IpGroups, put_peers, put_peer, put_addrs, peers_to_remove, filter_peers_by_ip_diversity,
  listed_in,
}
use go_libp2p_kad_dht.Diversity.Crowding.{members, UniquePeers, filter_kept_iff}

abbrev first : PeerGroupInfo
first = record { id = 1; cpl = 0; ip_group_key = 7 }

abbrev second : PeerGroupInfo
second = record { id = 2; cpl = 3; ip_group_key = 7 }

abbrev empty : RtPeerIpGroupFilter
empty = new_rt_peer_diversity_filter 1 2

one-Counted : Counted (increment empty first) (first ∷ [])
one-Counted = increment-Counted empty [] first (new-Counted 1 2)

-- One peer per cpl and two in the table: the group is full at cpl 0, and open at cpl 3.
allowing :
    (allow (increment empty first) first ≡ false) × (allow (increment empty first) second ≡ true)
unfolding allow increment raise new_rt_peer_diversity_filter lookup insert
allowing = (refl, refl)

leaving : decrement (increment empty first) first ≡ some empty
unfolding decrement increment raise lower new_rt_peer_diversity_filter lookup insert delete
leaving = refl

decrement-Counted_example :
    (r' : RtPeerIpGroupFilter) × (decrement (increment empty first) first ≡ some r')
    × Counted r' (leave first (first ∷ []))
    × (r'.max_per_cpl ≡ (increment empty first).max_per_cpl)
    × (r'.max_for_table ≡ (increment empty first).max_for_table)
decrement-Counted_example =
    decrement-Counted (increment empty first) (first ∷ []) first one-Counted (omega arith)

abbrev before : Admission
before = record { filter = new_rt_peer_diversity_filter 1 3; table = [] }

-- A peer with two addresses in the group 7 and one in the group 8.
abbrev with_three : List PeerGroupInfo
with_three = first ∷ first ∷ record { id = 1; cpl = 0; ip_group_key = 8 } ∷ []

-- The limit per cpl is 1, and the peer has two addresses of the group 7 there.
overshoot : tally (in_group_at 0 7) (admit before with_three).table ≡ 2
overshoot = refl

Use-Within_example :
    Within 1 (admit before with_three)
    × ((admit before with_three).filter.max_per_cpl ≡ before.filter.max_per_cpl)
unfolding allow new_rt_peer_diversity_filter lookup
Use-Within_example =
    Use-Within 1 before (admit before with_three) (omega arith)
      (record {
        counted = new-Counted 1 3;
        in_table = λ key. omega arith;
        at_cpl = λ cpl key. omega arith;
      })
      (enter with_three (refl, (refl, (refl, tt))) (λ key. ground arith))

-- An address stands for an IP, whose group is its tens.
abbrev tens : IpGroups
tens = record { to_ip = λ a. some a; ip_group_key = λ ip. ip / 10 }

abbrev answer : List AddrInfo
answer =
    record { id = 1; addrs = 21 ∷ [] }
    ∷ record { id = 2; addrs = 22 ∷ 31 ∷ [] }
    ∷ record { id = 3; addrs = 32 ∷ [] }
    ∷ record { id = 4; addrs = 23 ∷ [] }
    ∷ []

crowded : map info_id (filter_peers_by_ip_diversity tens 2 answer) ≡ 3 ∷ []
unfolding filter_peers_by_ip_diversity put_peers put_addrs put_peer peers_to_remove lookup insert
crowded = refl

filter_kept_iff_example :
    let groups = put_peers tens [] answer in
    ((contains (map info_id (filter_peers_by_ip_diversity tens 2 answer)) 3 ≡ true)
      ↔ ((g : ℕ) → listed_in tens g 3 answer ≡ true → length (members groups g) ≤ 2))
    × ((g : ℕ)
        → ((q : PeerId) → contains (members groups g) q ≡ listed_in tens g q answer)
          × UniquePeers (members groups g))
filter_kept_iff_example = filter_kept_iff tens 2 answer 3 (omega arith) refl
