-- ===== src/Network.antt =====
-- What the program takes from go-libp2p: peers with their addresses.
use go_libp2p_kad_dht.Prelude.{ℕ, List}
use go_libp2p_kad_dht.Qpeerset.{PeerId}

-- A multiaddr, which only third-party code looks into.
abbrev pub Addr : Type 0
Addr = ℕ

-- peer.AddrInfo
pub record AddrInfo : Type 0 where
  pub id : PeerId
  pub addrs : List Addr

abbrev pub info_id : AddrInfo → PeerId
info_id x = x.id
