-- ===== src/Fullrt/Diverse.antt =====
-- GetClosestPeers of fullrt/dht.go: what its diversity limit ensures, and whom it skips.
use go_libp2p_kad_dht.Prelude.{
  ℕ, ◌==◌, ◌+◌, ◌≤◌, ◌<◌, ltb, if◌then◌else◌, Option, none, some, List, [], ◌∷◌, Bool, true, false,
  ◌&&◌, ◌≡◌, refl, sym, ◌∙◌, ap, inl, inr, arith, length, contains, contains-append, Bool-cases,
  Option-cases, subst, lt→ltb,
}
use go_libp2p_kad_dht.Prelude.Maps.{lookup, lookup-insert}
use go_libp2p_kad_dht.Qpeerset.{PeerId}
use go_libp2p_kad_dht.Network.{Addr}
use go_libp2p_kad_dht.Diversity.Response.{IpGroups, PeerSets, put_peer, group_of_addr, any_in}
use go_libp2p_kad_dht.Diversity.Crowding.{members, members-put_peer}
use go_libp2p_kad_dht.Fullrt.{
  Table, Found, is_full_group, count_addrs, counted, keep_peer, visit_key, is_full, peers_loop,
  nothing_found, get_closest_peers,
}
use go_libp2p_kad_dht.Fullrt.Batches.{get_closest_peers_pass}

-- No group has more members than the limit.
abbrev Bounded : ℕ → PeerSets → Type 0
Bounded limit m = (g : ℕ) → length (members m g) ≤ limit

abbrev Grown : PeerSets → PeerSets → Type 0
Grown m m' =
    (g : ℕ) (q : PeerId) → contains (members m g) q ≡ true → contains (members m' g) q ≡ true

length-put_peer :
    (m : PeerSets) (k g : ℕ) (p : PeerId)
    → length (members (put_peer m k p) g) ≤ length (members m g) + (if k == g then 1 else 0)
unfolding put_peer
length-put_peer m k g p =
    let s = members m k in
    let s' = if contains s p then s else p ∷ s in
    elim (Bool-cases (k == g)) [
      | inl e ↦
          let same : k ≡ g = ground arith in
          rw (lookup-insert m k s' g, e) (rw (← same) (ground arith))
      | inr e ↦ rw (lookup-insert m k s' g, e) (omega arith)
    ]

put_peer-Bounded :
    (limit : ℕ) (m : PeerSets) (k : ℕ) (p : PeerId)
    → Bounded limit m
    → is_full_group limit m k ≡ false
    → Bounded limit (put_peer m k p)
put_peer-Bounded limit m k p b room g = elim (Bool-cases (k == g)) [
  | inl e ↦
      let same : k ≡ g = ground arith in
      let fits : length (members m g) < limit = rw (← same) (ground arith) in
      ground (arith, length-put_peer m k g p)
  | inr e ↦ ground (arith, length-put_peer m k g p, b g)
]

-- What the loop over a peer's addresses does to the counts.
record Counted (e : IpGroups) (limit : ℕ) (p : PeerId) (m : PeerSets) (xs : List Addr)
    (r : Bool × PeerSets) : Type 0 where
  bounded : Bounded limit m → Bounded limit r.1
  grown : Grown m r.1
  covers : r.0 ≡ true → (g : ℕ) → any_in e g xs ≡ true → contains (members r.1 g) p ≡ true

count_addrs-Counted :
    (e : IpGroups) (limit : ℕ) (p : PeerId) (m : PeerSets) (xs : List Addr)
    → Counted e limit p m xs (count_addrs e limit p m xs)
unfolding count_addrs
count_addrs-Counted e limit p m [] = record {
  bounded = λ b. b;
  grown = λ g q h. h;
  covers = λ k g h. absurd (cc);
}
count_addrs-Counted e limit p m (a ∷ xs) = elim (Option-cases (group_of_addr e a)) [
  | inl n ↦
      let c = count_addrs-Counted e limit p m xs in
      rw n (record {
        bounded = c.bounded;
        grown = c.grown;
        covers = λ kept g h. c.covers kept g (ground arith);
      })
  | inr (k, n) ↦ rw n (elim (Bool-cases (is_full_group limit m k)) [
    | inl f ↦
        rw f (record { bounded = λ b. b; grown = λ g q h. h; covers = λ kept g h. absurd (cc) })
    | inr f ↦
        let m1 = put_peer m k p in
        let c = count_addrs-Counted e limit p m1 xs in
        rw f (record {
          bounded = λ b. c.bounded (put_peer-Bounded limit m k p b f);
          grown = λ g q h. c.grown g q (ground (arith, members-put_peer m k g p q));
          covers = λ kept g h. elim (Bool-cases (k == g)) [
            | inl same ↦ c.grown g p (ground (arith, members-put_peer m k g p p))
            | inr other ↦ c.covers kept g (ground arith)
          ];
        })
  ])
]

-- What the passes over the keys keep.
record IsFound (t : Table) (f : Found) : Type 0 where
  bounded : Bounded t.diversity_limit f.counts
  covered :
      (g : ℕ) (q : PeerId)
      → contains f.peers q ≡ true
      → any_in t.ip_groups g (t.peer_addrs q) ≡ true
      → contains (members f.counts g) q ≡ true

visit-IsFound :
    (t : Table) (f : Found) (o : Option PeerId)
    → 0 < t.diversity_limit
    → IsFound t f
    → IsFound t (visit_key t f o)
visit-IsFound t f none pos v = v
visit-IsFound t f (some p) pos v =
    let c = count_addrs-Counted t.ip_groups t.diversity_limit p f.counts (t.peer_addrs p) in
    let limited = lt→ltb 0 t.diversity_limit pos in
    rw limited (kept (count_addrs t.ip_groups t.diversity_limit p f.counts (t.peer_addrs p)) c)
  where
    kept :
        (r : Bool × PeerSets)
        → Counted t.ip_groups t.diversity_limit p f.counts (t.peer_addrs p) r
        → IsFound t (keep_peer f p r)
    kept (true, m) c = record {
      bounded = c.bounded v.bounded;
      covered = λ g q here h. elim (Bool-cases (contains f.peers q)) [
        | inl old ↦ c.grown g q (v.covered g q old h)
        | inr new ↦
            let same : p ≡ q = ground (arith, contains-append f.peers (p ∷ []) q) in
            subst (λ r. contains (members m g) r ≡ true) same
              (c.covers refl g
                (subst (λ r. any_in t.ip_groups g (t.peer_addrs r) ≡ true) (sym same) h))
      ];
    }
    kept (false, m) c = record {
      bounded = c.bounded v.bounded;
      covered = λ g q here h. c.grown g q (v.covered g q here h);
    }

loop-IsFound :
    (t : Table) (f : Found) (ks : List ℕ)
    → 0 < t.diversity_limit
    → IsFound t f
    → IsFound t (peers_loop t f ks).1
unfolding peers_loop
loop-IsFound t f [] pos v = v
loop-IsFound t f (k ∷ ks) pos v =
    let f' = visit_key t f (t.key_to_peer k) in
    let v' = visit-IsFound t f (t.key_to_peer k) pos v in
    elim (Bool-cases (is_full t f' && ltb (length f.peers) (length f'.peers))) [
      | inl e ↦ simp e v'
      | inr e ↦ simp e (loop-IsFound t f' ks pos v')
    ]

-- With a diversity limit, for each IP group there are at most that many peers which GetClosestPeers
-- returns and which have an address in the group.
pub get_closest_peers_diverse :
    (t : Table) (g : ℕ)
    → 0 < t.diversity_limit
    → (ms : List PeerId) × (length ms ≤ t.diversity_limit)
      × ((q : PeerId)
          → contains (get_closest_peers t) q ≡ true
          → any_in t.ip_groups g (t.peer_addrs q) ≡ true
          → contains ms q ≡ true)
get_closest_peers_diverse t g pos =
    let f = (peers_loop t nothing_found t.sorted).1 in
    let v = loop-IsFound t nothing_found t.sorted pos (nothing-IsFound t) in
    let pass = get_closest_peers_pass t (omega (arith, pos)) in
    (
      members f.counts g,
      v.bounded g,
      λ q here h. v.covered g q (ap (λ l. contains l q) (sym pass) ∙ here) h,
    )
  where
    nothing-IsFound : (t : Table) → IsFound t nothing_found
    nothing-IsFound t = record {
      bounded = λ g. unfold lookup in omega arith;
      covered = λ g q here h. absurd (cc);
    }

twice_skipped :
    (e : IpGroups) (p : PeerId) (m : PeerSets) (a b g : ℕ) (rest : List Addr)
    → group_of_addr e a ≡ some g
    → group_of_addr e b ≡ some g
    → (count_addrs e 1 p m (a ∷ b ∷ rest)).0 ≡ false
unfolding count_addrs
twice_skipped e p m a b g rest ha hb = elim (Bool-cases (is_full_group 1 m g)) [
  | inl f ↦ rw (ha, f)
  | inr f ↦
      let there = members-put_peer m g g p p in
      let full : is_full_group 1 (put_peer m g p) g ≡ true =
        ground (arith, there, one_member (members (put_peer m g p) g) p) in
      rw (ha, f, hb, full)
]
  where
    one_member : (l : List PeerId) (p : PeerId) → contains l p ≡ true → 1 ≤ length l
    one_member [] p h = absurd (cc)
    one_member (x ∷ l) p h = omega arith

visit_skips :
    (t : Table) (f : Found) (p : PeerId) (o : Option PeerId)
    → ((m : PeerSets) → (counted t p m).0 ≡ false)
    → contains f.peers p ≡ false
    → contains (visit_key t f o).peers p ≡ false
visit_skips t f p none never h = h
visit_skips t f p (some q) never h = kept (counted t q f.counts) refl
  where
    kept :
        (r : Bool × PeerSets)
        → counted t q f.counts ≡ r
        → contains (keep_peer f q r).peers p ≡ false
    kept (true, m) e = elim (Bool-cases (q == p)) [
      | inl s ↦
          let same : q ≡ p = ground arith in
          let now =
            ap (λ r. (counted t r f.counts).0) (sym same) ∙ ap (λ (r : Bool × PeerSets). r.0) e in
          absurd (let no = never f.counts in cc)
      | inr s ↦ ground (arith, contains-append f.peers (q ∷ []) p)
    ]
    kept (false, m) e = h

loop_skips :
    (t : Table) (f : Found) (p : PeerId) (ks : List ℕ)
    → ((m : PeerSets) → (counted t p m).0 ≡ false)
    → contains f.peers p ≡ false
    → contains (peers_loop t f ks).1.peers p ≡ false
unfolding peers_loop
loop_skips t f p [] never h = h
loop_skips t f p (k ∷ ks) never h =
    let f' = visit_key t f (t.key_to_peer k) in
    let h' = visit_skips t f p (t.key_to_peer k) never h in
    elim (Bool-cases (is_full t f' && ltb (length f.peers) (length f'.peers))) [
      | inl e ↦ simp e h'
      | inr e ↦ simp e (loop_skips t f' p ks never h')
    ]

-- With a diversity limit of 1, a peer whose first two addresses are in the same IP group is never
-- returned, however close it is and whoever else is in the table.
pub get_closest_peers_skips :
    (t : Table) (p : PeerId) (a b g : ℕ) (rest : List Addr)
    → t.diversity_limit ≡ 1
    → t.peer_addrs p ≡ a ∷ b ∷ rest
    → group_of_addr t.ip_groups a ≡ some g
    → group_of_addr t.ip_groups b ≡ some g
    → contains (get_closest_peers t) p ≡ false
get_closest_peers_skips t p a b g rest one addrs ha hb =
    let pass = get_closest_peers_pass t (omega (arith, one)) in
    ap (λ l. contains l p) pass
    ∙ loop_skips t nothing_found p t.sorted
        (λ m. simp (one, addrs) (twice_skipped t.ip_groups p m a b g rest ha hb)) refl
