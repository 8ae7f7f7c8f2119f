-- ===== src/Diversity/Response.antt =====
-- filterPeersByIPDiversity of rt_diversity_filter.go: peers of an answer that crowd one IP group are
-- dropped. `to_ip` is manet.ToIP (`none`: an error), `ip_group_key` peerdiversity.IPGroupKey (0: the
-- empty key).
use go_libp2p_kad_dht.Prelude.{
  ℕ, ◌==◌, ltb, if◌then◌else◌, Option, none, some, List, [], ◌∷◌, ◌++◌, Bool, false, ◌&&◌, ◌||◌,
  not, length, select, contains,
}
use go_libp2p_kad_dht.Prelude.Maps.{lookup, insert}
use go_libp2p_kad_dht.Qpeerset.{PeerId}
use go_libp2p_kad_dht.Network.{Addr, AddrInfo}

pub record IpGroups : Type 0 where
  pub to_ip : Addr → Option ℕ
  pub ip_group_key : ℕ → ℕ

abbrev pub PeerSets : Type 0
PeerSets = List (ℕ × List PeerId)

abbrev pub set_of : Option (List PeerId) → List PeerId
set_of none = []
set_of (some s) = s

-- `m[g][p] = struct{}{}`, with the inner map made if it is not there.
unfoldable pub put_peer : PeerSets → ℕ → PeerId → PeerSets
put_peer m g p = let s = set_of (lookup g m) in insert g (if contains s p then s else p ∷ s) m

-- The group of an address, if it has one.
abbrev pub keyed : IpGroups → Option ℕ → Option ℕ
keyed e none = none
keyed e (some ip) = if e.ip_group_key ip == 0 then none else some (e.ip_group_key ip)

abbrev pub group_of_addr : IpGroups → Addr → Option ℕ
group_of_addr e a = keyed e (e.to_ip a)

abbrev pub put_in : PeerSets → Option ℕ → PeerId → PeerSets
put_in m none p = m
put_in m (some g) p = put_peer m g p

-- The two loops that fill ipGroupPeers.
unfoldable pub put_addrs : IpGroups → PeerSets → PeerId → List Addr → PeerSets
put_addrs e m p [] = m
put_addrs e m p (a ∷ as') = put_addrs e (put_in m (group_of_addr e a) p) p as'

unfoldable pub put_peers : IpGroups → PeerSets → List AddrInfo → PeerSets
put_peers e m [] = m
put_peers e m (x ∷ xs) = put_peers e (put_addrs e m x.id x.addrs) xs

-- The peers of the groups with more than `limit` peers.
unfoldable pub peers_to_remove : ℕ → PeerSets → List PeerId
peers_to_remove limit [] = []
peers_to_remove limit ((g, s) ∷ m) =
    let rest = peers_to_remove limit m in if ltb limit (length s) then s ++ rest else rest

unfoldable pub filter_peers_by_ip_diversity : IpGroups → ℕ → List AddrInfo → List AddrInfo
filter_peers_by_ip_diversity e limit peers =
    if limit == 0
    then peers
    else (let removed = peers_to_remove limit (put_peers e [] peers) in
        if length removed == 0 then peers else select (λ x. not (contains removed x.id)) peers)

-- Whether the address is in the group.
abbrev pub is_group : Option ℕ → ℕ → Bool
is_group none g = false
is_group (some k) g = k == g

-- Some address of the list is in the group.
abbrev pub any_in : IpGroups → ℕ → List Addr → Bool
any_in e g [] = false
any_in e g (a ∷ as') = is_group (group_of_addr e a) g || any_in e g as'

-- The answer lists the peer with an address in the group.
abbrev pub listed_in : IpGroups → ℕ → PeerId → List AddrInfo → Bool
listed_in e g p [] = false
listed_in e g p (x ∷ xs) = ((x.id == p) && any_in e g x.addrs) || listed_in e g p xs
