-- ===== src/Diversity.antt =====
-- rt_diversity_filter.go: how many peers of the routing table share an IP group, in the whole table and
-- for each common prefix length (cpl). A map read of a missing key yields 0, and a write to a map that
-- is not there panics (`none`). The lock makes each call one step.
pub mod Table
pub mod Limits
pub mod Response
pub mod Crowding
mod Tests
use go_libp2p_kad_dht.Prelude.{
  ℕ, zero, suc, ◌==◌, leb, ltb, if◌then◌else◌, Option, none, some, ◌>>=◌, List, [], ◌∷◌, Bool, true,
  false, ◌&&◌, ℤ, pos, negsuc, length,
}
use go_libp2p_kad_dht.Prelude.Maps.{lookup, insert, delete}
use go_libp2p_kad_dht.Qpeerset.{PeerId}

-- peerdiversity.PeerGroupInfo of go-libp2p-kbucket; a group key is a byte string.
pub record PeerGroupInfo : Type 0 where
  pub id : PeerId
  pub cpl : ℕ
  pub ip_group_key : ℕ

abbrev pub Counts : Type 0
Counts = List (ℕ × ℤ)

pub record RtPeerIpGroupFilter : Type 0 where
  pub max_per_cpl : ℕ
  pub max_for_table : ℕ
  pub cpl_ip_group_count : List (ℕ × Counts)
  pub table_ip_group_count : Counts

unfoldable pub new_rt_peer_diversity_filter : ℕ → ℕ → RtPeerIpGroupFilter
new_rt_peer_diversity_filter max_per_cpl max_for_table = record {
  max_per_cpl = max_per_cpl;
  max_for_table = max_for_table;
  cpl_ip_group_count = [];
  table_ip_group_count = [];
}

abbrev pub or_zero : Option ℤ → ℤ
or_zero none = pos 0
or_zero (some n) = n

-- `m[key]`
abbrev pub count_at : Counts → ℕ → ℤ
count_at m key = or_zero (lookup key m)

-- `n >= limit` and `n < limit`
abbrev pub at_least : ℤ → ℕ → Bool
at_least (pos n) limit = leb limit n
at_least (negsuc n) limit = false

abbrev pub under : ℤ → ℕ → Bool
under (pos n) limit = ltb n limit
under (negsuc n) limit = true

abbrev pub add_one : ℤ → ℤ
add_one (pos n) = pos (suc n)
add_one (negsuc zero) = pos 0
add_one (negsuc (suc n)) = negsuc n

abbrev pub sub_one : ℤ → ℤ
sub_one (pos zero) = negsuc 0
sub_one (pos (suc n)) = pos n
sub_one (negsuc n) = negsuc (suc n)

abbrev pub is_zero : ℤ → Bool
is_zero (pos zero) = true
is_zero _ = false

-- `!ok || c[key] < r.maxPerCpl`
abbrev pub allowed_for_cpl : Option Counts → ℕ → ℕ → Bool
allowed_for_cpl none key limit = true
allowed_for_cpl (some c) key limit = under (count_at c key) limit

unfoldable pub allow : RtPeerIpGroupFilter → PeerGroupInfo → Bool
allow r g =
    if at_least (count_at r.table_ip_group_count g.ip_group_key) r.max_for_table
    then false
    else allowed_for_cpl (lookup g.cpl r.cpl_ip_group_count) g.ip_group_key r.max_per_cpl

-- The map of a cpl, made if it is not there.
abbrev pub or_empty : Option Counts → Counts
or_empty none = []
or_empty (some c) = c

unfoldable pub raise : Counts → ℕ → Counts
raise m key = insert key (add_one (count_at m key)) m

unfoldable pub increment : RtPeerIpGroupFilter → PeerGroupInfo → RtPeerIpGroupFilter
increment r g = record r {
  table_ip_group_count = raise r.table_ip_group_count g.ip_group_key;
  cpl_ip_group_count =
      insert g.cpl (raise (or_empty (lookup g.cpl r.cpl_ip_group_count)) g.ip_group_key)
        r.cpl_ip_group_count;
}

-- `m[key] = m[key] - 1; if m[key] == 0 { delete(m, key) }`
unfoldable pub lower : Counts → ℕ → Counts
lower m key =
    let m' = insert key (sub_one (count_at m key)) m in
    if is_zero (count_at m' key) then delete key m' else m'

unfoldable pub decrement : RtPeerIpGroupFilter → PeerGroupInfo → Option RtPeerIpGroupFilter
decrement r g = do
  let table = lower r.table_ip_group_count g.ip_group_key
  c ← lookup g.cpl r.cpl_ip_group_count
  let c' = lower c g.ip_group_key
  let cpls = insert g.cpl c' r.cpl_ip_group_count
  some (record r {
    table_ip_group_count = table;
    cpl_ip_group_count = if length c' == 0 then delete g.cpl cpls else cpls;
  })
