-- ===== src/Diversity/Table.antt =====
-- rt_diversity_filter.go against what it stands for: the bag of peers that are in the routing table.
use go_libp2p_kad_dht.Prelude.{
  ℕ, ◌+◌, ◌<◌, ◌==◌, ltb, if◌then◌else◌, some, List, [], ◌∷◌, Bool, true, ◌&&◌, ℤ, pos, length,
  tally, ◌≡◌, refl, ap, inl, inr, arith, Bool-cases, Option-cases,
}
use go_libp2p_kad_dht.Prelude.Maps.{lookup, insert, delete, lookup-insert, lookup-delete}
use go_libp2p_kad_dht.Diversity.{
  PeerGroupInfo, Counts, RtPeerIpGroupFilter, new_rt_peer_diversity_filter, count_at, add_one,
  sub_one, allow, or_empty, raise, increment, lower, decrement,
}

abbrev pub in_group : ℕ → PeerGroupInfo → Bool
in_group key g = g.ip_group_key == key

abbrev pub in_group_at : ℕ → ℕ → PeerGroupInfo → Bool
in_group_at cpl key g = (g.cpl == cpl) && (g.ip_group_key == key)

-- The count of a group at a cpl.
abbrev pub count_at_cpl : List (ℕ × Counts) → ℕ → ℕ → ℤ
count_at_cpl cpls cpl key = count_at (or_empty (lookup cpl cpls)) key

-- The filter's counts are those of the peers in the table.
pub record Counted (r : RtPeerIpGroupFilter) (table : List PeerGroupInfo) : Type 0 where
  pub groups : (key : ℕ) → count_at r.table_ip_group_count key ≡ pos (tally (in_group key) table)
  pub cpls :
      (cpl key : ℕ)
      → count_at_cpl r.cpl_ip_group_count cpl key ≡ pos (tally (in_group_at cpl key) table)

pub new-Counted : (a b : ℕ) → Counted (new_rt_peer_diversity_filter a b) []
unfolding new_rt_peer_diversity_filter lookup
new-Counted a b = record { groups = λ key. refl; cpls = λ cpl key. refl }

count_at-raise :
    (m : Counts) (key k : ℕ)
    → count_at (raise m key) k ≡ (if key == k then add_one (count_at m key) else count_at m k)
unfolding raise
count_at-raise m key k = ground (arith, lookup-insert m key (add_one (count_at m key)) k)

count_at-lower :
    (m : Counts) (key k : ℕ)
    → count_at (lower m key) k ≡ (if key == k then sub_one (count_at m key) else count_at m k)
unfolding lower
count_at-lower m key k =
    let m' = insert key (sub_one (count_at m key)) m in
    ground (
      arith,
      lookup-insert m key (sub_one (count_at m key)) key,
      lookup-insert m key (sub_one (count_at m key)) k,
      lookup-delete key k m',
    )

-- `Allow` answers by the peers in the table: fewer than the limit share the group, in the table and at
-- the cpl.
pub allow_iff :
    (r : RtPeerIpGroupFilter) (table : List PeerGroupInfo) (g : PeerGroupInfo)
    → Counted r table
    → 0 < r.max_per_cpl
    → allow r g ≡ (
        ltb (tally (in_group g.ip_group_key) table) r.max_for_table
        && ltb (tally (in_group_at g.cpl g.ip_group_key) table) r.max_per_cpl)
unfolding allow lookup
allow_iff r table g v h = elim (Option-cases (lookup g.cpl r.cpl_ip_group_count)) [
  | inl e ↦ rw (e, v.groups g.ip_group_key) (ground (arith, v.cpls g.cpl g.ip_group_key))
  | inr (c, e) ↦ rw (e, v.groups g.ip_group_key) (ground (arith, v.cpls g.cpl g.ip_group_key))
]

-- `Increment` counts a peer that enters the table.
pub increment-Counted :
    (r : RtPeerIpGroupFilter) (table : List PeerGroupInfo) (g : PeerGroupInfo)
    → Counted r table
    → Counted (increment r g) (g ∷ table)
unfolding increment
increment-Counted r table g v = record {
  groups = λ key. ground (
    arith,
    count_at-raise r.table_ip_group_count g.ip_group_key key,
    v.groups key,
    v.groups g.ip_group_key,
  );
  cpls = λ cpl key.
      let m = or_empty (lookup g.cpl r.cpl_ip_group_count) in
      ground (
        arith,
        lookup-insert r.cpl_ip_group_count g.cpl (raise m g.ip_group_key) cpl,
        count_at-raise m g.ip_group_key key,
        v.cpls cpl key,
        v.cpls cpl g.ip_group_key,
      );
}

-- The table without the first peer of that cpl and group.
unfoldable pub leave : PeerGroupInfo → List PeerGroupInfo → List PeerGroupInfo
leave g [] = []
leave g (x ∷ xs) =
    let rest = leave g xs in if in_group_at g.cpl g.ip_group_key x then xs else x ∷ rest

pub tally-leave_group :
    (g : PeerGroupInfo) (table : List PeerGroupInfo) (key : ℕ)
    → 0 < tally (in_group_at g.cpl g.ip_group_key) table
    → tally (in_group key) table
      ≡ (if g.ip_group_key == key then 1 else 0) + tally (in_group key) (leave g table)
unfolding leave
tally-leave_group g [] key h = absurd (omega arith)
tally-leave_group g (x ∷ xs) key h = ground (arith, tally-leave_group g xs key)

pub tally-leave_cpl :
    (g : PeerGroupInfo) (table : List PeerGroupInfo) (cpl key : ℕ)
    → 0 < tally (in_group_at g.cpl g.ip_group_key) table
    → tally (in_group_at cpl key) table
      ≡ (if (g.cpl == cpl) && (g.ip_group_key == key) then 1 else 0)
        + tally (in_group_at cpl key) (leave g table)
unfolding leave
tally-leave_cpl g [] cpl key h = absurd (omega arith)
tally-leave_cpl g (x ∷ xs) cpl key h = ground (arith, tally-leave_cpl g xs cpl key)

length-zero {ℓ} : {A : Type ℓ} (xs : List A) → (length xs == 0) ≡ true → xs ≡ []
length-zero [] h = refl
length-zero (x ∷ xs) h = absurd (ground arith)

count_at_cpl-lower :
    (cpls : List (ℕ × Counts)) (m : Counts) (i key cpl k : ℕ)
    → lookup i cpls ≡ some m
    → let m' = lower m key in
      let next = insert i m' cpls in
      count_at_cpl (if length m' == 0 then delete i next else next) cpl k ≡ (
        if (i == cpl) && (key == k)
        then sub_one (count_at_cpl cpls i key)
        else count_at_cpl cpls cpl k)
unfolding lookup
count_at_cpl-lower cpls m i key cpl k e =
    let m' = lower m key in
    let next = insert i m' cpls in
    elim (Bool-cases (length m' == 0)) [
      | inl z ↦ ground (
        arith,
        ap (λ n. count_at n k) (length-zero m' z),
        count_at-lower m key k,
        lookup-insert cpls i m' cpl,
        lookup-delete i cpl next,
      )
      | inr z ↦ ground (arith, count_at-lower m key k, lookup-insert cpls i m' cpl)
    ]

-- `Decrement` of a peer of the table does not panic, and counts that peer no more.
pub decrement-Counted :
    (r : RtPeerIpGroupFilter) (table : List PeerGroupInfo) (g : PeerGroupInfo)
    → Counted r table
    → 0 < tally (in_group_at g.cpl g.ip_group_key) table
    → (r' : RtPeerIpGroupFilter) × (decrement r g ≡ some r')
      × Counted r' (leave g table)
      × (r'.max_per_cpl ≡ r.max_per_cpl)
      × (r'.max_for_table ≡ r.max_for_table)
unfolding decrement
decrement-Counted r table g v h = elim (Option-cases (lookup g.cpl r.cpl_ip_group_count)) [
  | inl e ↦ absurd (unfold lookup in ground (arith, v.cpls g.cpl g.ip_group_key))
  | inr (m, e) ↦
      let c' = lower m g.ip_group_key in
      let next = insert g.cpl c' r.cpl_ip_group_count in
      (
        record r {
          table_ip_group_count = lower r.table_ip_group_count g.ip_group_key;
          cpl_ip_group_count = if length c' == 0 then delete g.cpl next else next;
        },
        rw e,
        record {
          groups = λ key. ground (
            arith,
            count_at-lower r.table_ip_group_count g.ip_group_key key,
            v.groups key,
            tally-leave_group g table key h,
          );
          cpls = λ cpl key. ground (
            arith,
            count_at_cpl-lower r.cpl_ip_group_count m g.cpl g.ip_group_key cpl key e,
            v.cpls cpl key,
            tally-leave_cpl g table cpl key h,
          );
        },
        refl,
        refl,
      )
]
