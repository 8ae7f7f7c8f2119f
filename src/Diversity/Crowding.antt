-- ===== src/Diversity/Crowding.antt =====
-- Which peers filterPeersByIPDiversity of rt_diversity_filter.go keeps.
use go_libp2p_kad_dht.Prelude.{
  contains-append, ℕ, suc, ◌==◌, ◌≤◌, ◌<◌, ltb, if◌then◌else◌, List, [], ◌∷◌, true, false, ◌&&◌,
  ◌||◌, not, length, select, contains, map, ◌≡◌, refl, sym, ◌∙◌, inl, inr, ◌↔◌, arith, Bool-cases,
  Option-cases, ltb→lt, ==_iff,
}
use go_libp2p_kad_dht.Prelude.Maps.{lookup, lookup-insert, UniqueKeys, insert-UniqueKeys}
use go_libp2p_kad_dht.Qpeerset.{PeerId}
use go_libp2p_kad_dht.Network.{Addr, AddrInfo, info_id}
use go_libp2p_kad_dht.Diversity.Response.{
  IpGroups, PeerSets, set_of, put_peer, group_of_addr, put_addrs, put_peers, peers_to_remove,
  filter_peers_by_ip_diversity, any_in, listed_in,
}

-- The set of a group.
abbrev pub members : PeerSets → ℕ → List PeerId
members m g = set_of (lookup g m)

-- No peer stands twice in the list.
abbrev pub UniquePeers : List PeerId → Type 0
UniquePeers [] = Unit
UniquePeers (p ∷ ps) = (contains ps p ≡ false) × UniquePeers ps

pub members-put_peer :
    (m : PeerSets) (k g : ℕ) (r p : PeerId)
    → contains (members (put_peer m k r) g) p ≡ (((k == g) && (r == p)) || contains (members m g) p)
unfolding put_peer
members-put_peer m k g r p =
    let s = members m k in
    let s' = if contains s r then s else r ∷ s in
    elim (Bool-cases (k == g)) [
      | inl e ↦
          let same : k ≡ g = (==_iff k g).0 e in
          rw (lookup-insert m k s' g, e) (rw (← same) (put_self s r p))
      | inr e ↦ rw (lookup-insert m k s' g, e)
    ]
  where
    put_self :
        (s : List PeerId) (r p : PeerId)
        → contains (if contains s r then s else r ∷ s) p ≡ ((r == p) || contains s p)
    put_self s r p = elim (Bool-cases (contains s r)) [
      | inl e ↦ elim (Bool-cases (r == p)) [
        | inl f ↦ let same : r ≡ p = (==_iff r p).0 f in rw (e, f) (rw (← same) e)
        | inr f ↦ rw (e, f)
      ]
      | inr e ↦ rw e
    ]

members-put_addrs :
    (e : IpGroups) (m : PeerSets) (r : PeerId) (xs : List Addr) (g : ℕ) (p : PeerId)
    → contains (members (put_addrs e m r xs) g) p
      ≡ (((r == p) && any_in e g xs) || contains (members m g) p)
unfolding put_addrs
members-put_addrs e m r [] g p = ground arith
members-put_addrs e m r (a ∷ xs) g p = elim (Option-cases (group_of_addr e a)) [
  | inl f ↦ rw f (members-put_addrs e m r xs g p)
  | inr (k, f) ↦
      rw f
        (ground (arith, members-put_addrs e (put_peer m k r) r xs g p, members-put_peer m k g r p))
]

-- The set of a group holds exactly the peers that the answer lists with an address in it.
pub members-put_peers :
    (e : IpGroups) (m : PeerSets) (xs : List AddrInfo) (g : ℕ) (p : PeerId)
    → contains (members (put_peers e m xs) g) p ≡ (listed_in e g p xs || contains (members m g) p)
unfolding put_peers
members-put_peers e m [] g p = refl
members-put_peers e m (x ∷ xs) g p = ground (
  arith,
  members-put_peers e (put_addrs e m x.id x.addrs) xs g p,
  members-put_addrs e m x.id x.addrs g p,
)

-- Sets without repetition under distinct keys.
abbrev pub Proper : PeerSets → Type 0
Proper m = UniqueKeys m × ((g : ℕ) → UniquePeers (members m g))

put_peer-Proper : (m : PeerSets) (k : ℕ) (r : PeerId) → Proper m → Proper (put_peer m k r)
unfolding put_peer
put_peer-Proper m k r (keys, sets) =
    let s' = if contains (members m k) r then members m k else r ∷ members m k in
    (
      insert-UniqueKeys k s' m keys,
      λ g. elim (Bool-cases (k == g)) [
        | inl e ↦ rw (lookup-insert m k s' g, e) (unique (members m k) r (sets k))
        | inr e ↦ rw (lookup-insert m k s' g, e) (sets g)
      ],
    )
  where
    unique :
        (s : List PeerId) (r : PeerId)
        → UniquePeers s
        → UniquePeers (if contains s r then s else r ∷ s)
    unique s r u = elim (Bool-cases (contains s r)) [ inl e ↦ rw e u | inr e ↦ rw e (e, u) ]

put_addrs-Proper :
    (e : IpGroups) (m : PeerSets) (r : PeerId) (xs : List Addr)
    → Proper m
    → Proper (put_addrs e m r xs)
unfolding put_addrs
put_addrs-Proper e m r [] h = h
put_addrs-Proper e m r (a ∷ xs) h = elim (Option-cases (group_of_addr e a)) [
  | inl f ↦ rw f (put_addrs-Proper e m r xs h)
  | inr (k, f) ↦ rw f (put_addrs-Proper e (put_peer m k r) r xs (put_peer-Proper m k r h))
]

pub put_peers-Proper :
    (e : IpGroups) (m : PeerSets) (xs : List AddrInfo) → Proper m → Proper (put_peers e m xs)
unfolding put_peers
put_peers-Proper e m [] h = h
put_peers-Proper e m (x ∷ xs) h =
    put_peers-Proper e (put_addrs e m x.id x.addrs) xs (put_addrs-Proper e m x.id x.addrs h)

-- A peer is marked for removal exactly when it stands in a set with more than `limit` peers.
removed_from :
    (limit : ℕ) (m : PeerSets) (p : PeerId)
    → UniqueKeys m
    → contains (peers_to_remove limit m) p ≡ true
    → (g : ℕ) × (contains (members m g) p ≡ true) × (limit < length (members m g))
unfolding peers_to_remove lookup
removed_from limit [] p u h = absurd (cc)
removed_from limit ((k, s) ∷ m) p u h = elim (Bool-cases (ltb limit (length s) && contains s p)) [
  | inl e ↦ (k, ground arith, ground arith)
  | inr e ↦
      let (g, c, l) =
        removed_from limit m p u.1
          (ground (arith, contains-append s (peers_to_remove limit m) p)) in
      (g, ground (arith, u.0), ground (arith, u.0))
]

crowded_removed :
    (limit : ℕ) (m : PeerSets) (g : ℕ) (p : PeerId)
    → contains (members m g) p ≡ true
    → limit < length (members m g)
    → contains (peers_to_remove limit m) p ≡ true
unfolding peers_to_remove lookup
crowded_removed limit [] g p c l = c
crowded_removed limit ((k, s) ∷ m) g p c l =
    ground (arith, contains-append s (peers_to_remove limit m) p, crowded_removed limit m g p)

contains-select :
    (xs : List AddrInfo) (removed : List PeerId) (p : PeerId)
    → contains (map info_id (select (λ x. not (contains removed x.id)) xs)) p
      ≡ (contains (map info_id xs) p && not (contains removed p))
contains-select [] removed p = refl
contains-select (x ∷ xs) removed p = elim (Bool-cases (x.id == p)) [
  | inl e ↦
      let same : x.id ≡ p = (==_iff x.id p).0 e in
      elim (Bool-cases (contains removed x.id)) [
        | inl f ↦
            let f' : contains removed p ≡ true = rw (← same) f in
            rw f (ground (arith, contains-select xs removed p))
        | inr f ↦
            let f' : contains removed p ≡ false = rw (← same) f in
            rw f (ground (arith, contains-select xs removed p))
      ]
  | inr e ↦ elim (Bool-cases (contains removed x.id)) [
    | inl f ↦ rw (f, e) (contains-select xs removed p)
    | inr f ↦ rw (f, e) (contains-select xs removed p)
  ]
]

kept_unless_removed :
    (e : IpGroups) (limit : ℕ) (xs : List AddrInfo) (p : PeerId)
    → (limit == 0) ≡ false
    → contains (map info_id (filter_peers_by_ip_diversity e limit xs)) p ≡ (
        contains (map info_id xs) p && not (contains (peers_to_remove limit (put_peers e [] xs)) p))
unfolding filter_peers_by_ip_diversity
kept_unless_removed e limit xs p h =
    let removed = peers_to_remove limit (put_peers e [] xs) in go removed refl
  where
    go :
        (removed : List PeerId)
        → peers_to_remove limit (put_peers e [] xs) ≡ removed
        → contains (map info_id (filter_peers_by_ip_diversity e limit xs)) p ≡ (
            contains (map info_id xs) p
            && not (contains (peers_to_remove limit (put_peers e [] xs)) p))
    go [] k = rw (h, k) (ground arith)
    go (r ∷ rs) k =
        let z : (suc (length rs) == 0) ≡ false = ground arith in
        rw (h, k) (rw z (contains-select xs (r ∷ rs) p))

-- With a limit, the filter keeps a peer of the answer exactly when every IP group that the peer is in has
-- at most `limit` peers: a group's peers are those listed with an address in it, each counted once.
pub filter_kept_iff :
    (e : IpGroups) (limit : ℕ) (xs : List AddrInfo) (p : PeerId)
    → 0 < limit
    → contains (map info_id xs) p ≡ true
    → let groups = put_peers e [] xs in
      ((contains (map info_id (filter_peers_by_ip_diversity e limit xs)) p ≡ true)
        ↔ ((g : ℕ) → listed_in e g p xs ≡ true → length (members groups g) ≤ limit))
      × ((g : ℕ)
          → ((q : PeerId) → contains (members groups g) q ≡ listed_in e g q xs)
            × UniquePeers (members groups g))
filter_kept_iff e limit xs p h here =
    let groups = put_peers e [] xs in
    let proper = put_peers-Proper e [] xs (tt, λ g. unfold lookup in tt) in
    let exact : (g : ℕ) (q : PeerId) → contains (members groups g) q ≡ listed_in e g q xs =
      λ g q. unfold lookup in ground (arith, members-put_peers e [] xs g q) in
    let kept = kept_unless_removed e limit xs p (ground arith) in
    (
      (
        λ k g l. elim (Bool-cases (ltb limit (length (members groups g)))) [
          | inl big ↦ absurd (
              ground (
                arith,
                crowded_removed limit groups g p (exact g p ∙ l)
                    (ltb→lt limit (length (members groups g)) big),
              ))
          | inr small ↦ ground arith
        ],
        λ all. elim (Bool-cases (contains (peers_to_remove limit groups) p)) [
          | inl gone ↦
              let (g, c, l) = removed_from limit groups p proper.0 gone in
              absurd (omega (arith, all g (sym (exact g p) ∙ c), l))
          | inr stays ↦ ground arith
        ],
      ),
      λ g. (exact g, proper.1 g),
    )
