-- ===== src/Diversity/Limits.antt =====
-- The limits of rt_diversity_filter.go under the use that a routing table makes of the filter. The caller,
-- TryAdd and Remove of the diversity filter of go-libp2p-kbucket, is not part of the repository.
use go_libp2p_kad_dht.Prelude.{
  ◌⊎◌, All, ℕ, ◌+◌, ◌≤◌, ◌<◌, some, List, [], ◌∷◌, Bool, true, tally, ◌≡◌, refl, ap, ◌∙◌, sym, inl,
  inr, arith, Bool-cases, some_inj, subst,
}
use go_libp2p_kad_dht.Diversity.{PeerGroupInfo, RtPeerIpGroupFilter, allow, increment, decrement}
use go_libp2p_kad_dht.Diversity.Table.{
  in_group, in_group_at, Counted, allow_iff, increment-Counted, leave, decrement-Counted,
  tally-leave_group, tally-leave_cpl,
}

-- A filter and the groups of the peers that are in the table under it.
pub record Admission : Type 0 where
  pub filter : RtPeerIpGroupFilter
  pub table : List PeerGroupInfo

-- Increment for each group of a peer.
abbrev pub admit : Admission → List PeerGroupInfo → Admission
admit a [] = a
admit a (g ∷ gs) = admit (record { filter = increment a.filter g; table = g ∷ a.table }) gs

-- The caller: a peer enters if `Allow` lets each of its groups (one for each address), all asked before the
-- first is counted; a group that leaves is counted no more. No peer has more than `extra` + 1 addresses in
-- a group.
pub data Use (extra : ℕ) : Admission → Admission → Type 0 where
  enter :
      {a : Admission} (gs : List PeerGroupInfo)
      → All (λ (g : PeerGroupInfo). allow a.filter g ≡ true) gs
      → ((key : ℕ) → tally (in_group key) gs ≤ extra + 1)
      → Use extra a (admit a gs)
  exit :
      {a : Admission} (g : PeerGroupInfo) (r : RtPeerIpGroupFilter)
      → 0 < tally (in_group_at g.cpl g.ip_group_key) a.table
      → decrement a.filter g ≡ some r
      → Use extra a (record { filter = r; table = leave g a.table })

-- The filter counts the table, and no group is over its limits by more than `extra`.
pub record Within (extra : ℕ) (a : Admission) : Type 0 where
  pub counted : Counted a.filter a.table
  pub in_table : (key : ℕ) → tally (in_group key) a.table ≤ a.filter.max_for_table + extra
  pub at_cpl : (cpl key : ℕ) → tally (in_group_at cpl key) a.table ≤ a.filter.max_per_cpl + extra

tally-admit :
    (test : PeerGroupInfo → Bool) (a : Admission) (gs : List PeerGroupInfo)
    → tally test (admit a gs).table ≡ tally test gs + tally test a.table
tally-admit test a [] = omega arith
tally-admit test a (g ∷ gs) =
    omega
      (arith, tally-admit test (record { filter = increment a.filter g; table = g ∷ a.table }) gs)

admit-Counted :
    (a : Admission) (gs : List PeerGroupInfo)
    → Counted a.filter a.table
    → Counted (admit a gs).filter (admit a gs).table
      × ((admit a gs).filter.max_per_cpl ≡ a.filter.max_per_cpl)
      × ((admit a gs).filter.max_for_table ≡ a.filter.max_for_table)
unfolding increment
admit-Counted a [] v = (v, refl, refl)
admit-Counted a (g ∷ gs) v =
    admit-Counted (record { filter = increment a.filter g; table = g ∷ a.table }) gs
      (increment-Counted a.filter a.table g v)

-- A group of which a new peer has an address was below its limit.
allowed_in_table :
    (a : Admission) (gs : List PeerGroupInfo) (key : ℕ)
    → 0 < a.filter.max_per_cpl
    → Counted a.filter a.table
    → All (λ (g : PeerGroupInfo). allow a.filter g ≡ true) gs
    → (tally (in_group key) gs ≡ 0) ⊎ (tally (in_group key) a.table < a.filter.max_for_table)
allowed_in_table a [] key h v ok = inl refl
allowed_in_table a (g ∷ gs) key h v ok = elim (Bool-cases (in_group key g)) [
  | inl e ↦ inr (ground (arith, allow_iff a.filter a.table g v h, ok.0))
  | inr e ↦ rw e (elim (allowed_in_table a gs key h v ok.1) [
    | inl z ↦ inl (omega (arith, z))
    | inr below ↦ inr below
  ])
]

allowed_at_cpl :
    (a : Admission) (gs : List PeerGroupInfo) (cpl key : ℕ)
    → 0 < a.filter.max_per_cpl
    → Counted a.filter a.table
    → All (λ (g : PeerGroupInfo). allow a.filter g ≡ true) gs
    → (tally (in_group_at cpl key) gs ≡ 0)
      ⊎ (tally (in_group_at cpl key) a.table < a.filter.max_per_cpl)
allowed_at_cpl a [] cpl key h v ok = inl refl
allowed_at_cpl a (g ∷ gs) cpl key h v ok = elim (Bool-cases (in_group_at cpl key g)) [
  | inl e ↦ inr (ground (arith, allow_iff a.filter a.table g v h, ok.0))
  | inr e ↦ rw e (elim (allowed_at_cpl a gs cpl key h v ok.1) [
    | inl z ↦ inl (omega (arith, z))
    | inr below ↦ inr below
  ])
]

tally-in_group_at :
    (cpl key : ℕ) (gs : List PeerGroupInfo)
    → tally (in_group_at cpl key) gs ≤ tally (in_group key) gs
tally-in_group_at cpl key [] = omega arith
tally-in_group_at cpl key (g ∷ gs) = ground (arith, tally-in_group_at cpl key gs)

-- When the limit per cpl is not 0 and no peer has more than `extra` + 1 addresses in a group, every use keeps
-- every group within its limit plus `extra`, in the table and at any cpl, and the filter counting the
-- table: the limits are exact if no peer has two addresses in a group.
pub Use-Within :
    (extra : ℕ) (a b : Admission)
    → 0 < a.filter.max_per_cpl
    → Within extra a
    → Use extra a b
    → Within extra b × (b.filter.max_per_cpl ≡ a.filter.max_per_cpl)
Use-Within extra a b h w (enter gs ok few) =
    let (counted, cpl_kept, table_kept) = admit-Counted a gs w.counted in
    (
      record {
        counted = counted;
        in_table = λ key. elim (allowed_in_table a gs key h w.counted ok) [
          | inl z ↦ omega (arith, z, tally-admit (in_group key) a gs, table_kept, w.in_table key)
          | inr below ↦ omega (arith, below, tally-admit (in_group key) a gs, table_kept, few key)
        ];
        at_cpl = λ cpl key. elim (allowed_at_cpl a gs cpl key h w.counted ok) [
          | inl z ↦
              omega (arith, z, tally-admit (in_group_at cpl key) a gs, cpl_kept, w.at_cpl cpl key)
          | inr below ↦ omega (
            arith,
            below,
            tally-admit (in_group_at cpl key) a gs,
            cpl_kept,
            tally-in_group_at cpl key gs,
            few key,
          )
        ];
      },
      cpl_kept,
    )
Use-Within extra a b h w (exit g r held e) =
    let (r', f, counted, cpl_kept, table_kept) =
      decrement-Counted a.filter a.table g w.counted held in
    let same : r' ≡ r = some_inj r' r (sym f ∙ e) in
    (
      record {
        counted = subst (λ s. Counted s (leave g a.table)) same counted;
        in_table = λ key. omega (
          arith,
          tally-leave_group g a.table key held,
          w.in_table key,
          ap (λ (s : RtPeerIpGroupFilter). s.max_for_table) same,
          table_kept,
        );
        at_cpl = λ cpl key. omega (
          arith,
          tally-leave_cpl g a.table cpl key held,
          w.at_cpl cpl key,
          ap (λ (s : RtPeerIpGroupFilter). s.max_per_cpl) same,
          cpl_kept,
        );
      },
      sym (ap (λ (s : RtPeerIpGroupFilter). s.max_per_cpl) same) ∙ cpl_kept,
    )
