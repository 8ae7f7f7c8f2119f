-- ===== src/Handlers/Closer.antt =====
-- What FIND_NODE and ADD_PROVIDER of handlers.go let through.
use go_libp2p_kad_dht.Prelude.{
  ℕ, ◌==◌, ◌<◌, ltb, Option, none, some, ◌>>=◌, List, [], ◌∷◌, ◌++◌, Bool, true, false, map,
  contains, length, not, All, ◌≡◌, refl, ◌↔◌, ◌&&◌, ◌||◌, inl, inr, arith, Bool-cases, Option-cases,
  ==_iff, if_false, if_true, select, if◌then◌else◌, sym, ◌∙◌,
}
use go_libp2p_kad_dht.Qpeerset.{PeerId}
use go_libp2p_kad_dht.Network.{Addr, AddrInfo, info_id}
use go_libp2p_kad_dht.Handlers.{Message, ok}
use go_libp2p_kad_dht.Handlers.Peers.{
  better_peers, better_peers_to_query, or_nil, with_target, closer_infos, handle_find_peer,
  providers_to_add, handle_add_provider,
}

contains-append_one :
    (ps : List PeerId) (t p : PeerId) → contains (ps ++ t ∷ []) p ≡ (contains ps p || (t == p))
contains-append_one [] t p = ground arith
contains-append_one (r ∷ ps) t p = ground (arith, contains-append_one ps t p)

abbrev is_none : Option (List PeerId) → Bool
is_none none = true
is_none (some ps) = false

better_peers_none :
    (self from : PeerId) (ps : List PeerId) → is_none (better_peers self from ps) ≡ contains ps self
unfolding better_peers
better_peers_none self from [] = refl
better_peers_none self from (r ∷ ps) = elim (Option-cases (better_peers self from ps)) [
  | inl e ↦ rw (e, ◌>>=◌) (ground (arith, better_peers_none self from ps))
  | inr (qs, e) ↦ rw (e, ◌>>=◌) (ground (arith, better_peers_none self from ps))
]

-- The peers kept are the nearest but the one that asks; this node is never among them.
better_peers_lem :
    (self from : PeerId) (ps : List PeerId) (p : PeerId)
    → contains (or_nil (better_peers self from ps)) p
      ≡ (not (contains ps self) && (contains ps p && not (p == from)))
unfolding better_peers
better_peers_lem self from [] p = refl
better_peers_lem self from (r ∷ ps) p = elim (Option-cases (better_peers self from ps)) [
  | inl e ↦
      rw (e, ◌>>=◌)
        (ground (arith, better_peers_lem self from ps p, better_peers_none self from ps))
  | inr (qs, e) ↦
      rw (e, ◌>>=◌)
        (ground (arith, better_peers_lem self from ps p, better_peers_none self from ps))
]

closer_listed :
    (addrs : PeerId → List Addr) (o : Option (List PeerId)) (p : PeerId)
    → contains (map info_id (closer_infos addrs o)) p
      ≡ (contains (or_nil o) p && ltb 0 (length (addrs p)))
closer_listed addrs none p = refl
closer_listed addrs (some []) p = refl
closer_listed addrs (some (r ∷ ps)) p = elim (Bool-cases (r == p)) [
  | inl e ↦
      let same : r ≡ p = (==_iff r p).0 e in
      elim (Bool-cases (ltb 0 (length (addrs r)))) [
        | inl a ↦ let a' : ltb 0 (length (addrs p)) ≡ true = rw (← same) a in rw (a, e) (rw a')
        | inr a ↦
            let a' : ltb 0 (length (addrs p)) ≡ false = rw (← same) a in
            rw (a, e) (ground (arith, closer_listed addrs (some ps) p))
      ]
  | inr e ↦ elim (Bool-cases (ltb 0 (length (addrs r)))) [
    | inl a ↦ rw (a, e) (closer_listed addrs (some ps) p)
    | inr a ↦ rw (a, e) (closer_listed addrs (some ps) p)
  ]
]

-- FIND_NODE with a key that is not empty is answered, and the answer lists a peer exactly when the peer is
-- not the one that asks, this node knows an address of it, and it is the target or one of the nearest
-- peers. Of the nearest peers none is listed if this node is among them.
pub handle_find_peer_iff :
    (key_length : ℕ → ℕ) (addrs : PeerId → List Addr) (self from : PeerId) (nearest : List PeerId)
    (msg : Message) (p : PeerId)
    → (key_length msg.key == 0) ≡ false
    → (resp : Message) × (handle_find_peer key_length addrs self from (some nearest) msg ≡ ok resp)
      × (contains (map info_id resp.closer_peers) p ≡ (
          not (p == from)
          && (ltb 0 (length (addrs p))
              && ((p == msg.key) || (not (contains nearest self) && contains nearest p)))))
unfolding handle_find_peer better_peers_to_query with_target
handle_find_peer_iff key_length addrs self from nearest msg p h =
    let closest = better_peers_to_query self from (some nearest) in
    (
      _,
      if_false _ _ _ h,
      closer_listed addrs (with_target msg.key from closest) p
          ∙ targeted (better_peers self from nearest) (better_peers_lem self from nearest p),
    )
  where
    targeted :
        (closest : Option (List PeerId))
        → contains (or_nil closest) p
          ≡ (not (contains nearest self) && (contains nearest p && not (p == from)))
        → (contains (or_nil (with_target msg.key from closest)) p && ltb 0 (length (addrs p))) ≡ (
            not (p == from)
            && (ltb 0 (length (addrs p))
                && ((p == msg.key) || (not (contains nearest self) && contains nearest p))))
    targeted none e = ground arith
    targeted (some ps) e = ground (arith, contains-append_one ps msg.key p)

-- The message has a provider record of the peer itself, with an address.
abbrev pub own_record : PeerId → List AddrInfo → Bool
own_record from [] = false
own_record from (x ∷ xs) = ((x.id == from) && ltb 0 (length x.addrs)) || own_record from xs

providers_to_add_lem :
    (f : List Addr → List Addr) (from : PeerId) (xs : List AddrInfo)
    → All (λ (x : AddrInfo). x.id ≡ from) (providers_to_add f from xs)
      × (ltb 0 (length (providers_to_add f from xs)) ≡ own_record from xs)
unfolding providers_to_add
providers_to_add_lem f from [] = (tt, refl)
providers_to_add_lem f from (x ∷ xs) =
    let (own, some_own) = providers_to_add_lem f from xs in
    elim (Bool-cases (x.id == from)) [
      | inr e ↦ rw e (own, some_own)
      | inl e ↦ elim (Bool-cases (ltb (length x.addrs) 1)) [
        | inl a ↦ rw (e, a) (own, ground arith)
        | inr a ↦ rw (e, a) (((==_iff x.id from).0 e, own), ground arith)
      ]
    ]

-- A provider record of the peer itself, with an address.
abbrev pub is_own : PeerId → AddrInfo → Bool
is_own from x = (x.id == from) && ltb 0 (length x.addrs)

-- Its peer and its addresses filtered.
abbrev pub announced : (List Addr → List Addr) → AddrInfo → AddrInfo
announced f x = record { id = x.id; addrs = f x.addrs }

providers_to_add-select :
    (f : List Addr → List Addr) (from : PeerId) (xs : List AddrInfo)
    → providers_to_add f from xs ≡ map (announced f) (select (is_own from) xs)
unfolding providers_to_add
providers_to_add-select f from [] = refl
providers_to_add-select f from (x ∷ xs) = ground (arith, providers_to_add-select f from xs)

-- ADD_PROVIDER only ever adds records of the peer that sent the message. With a key of 1 to 80 bytes it
-- adds each record of that peer with an address, its addresses filtered, in the order of the message, and
-- succeeds exactly when there is one; with any other key it fails and adds nothing.
pub handle_add_provider_own :
    (key_length : ℕ → ℕ) (f : List Addr → List Addr) (from : PeerId) (msg : Message)
    → let (r, added) = handle_add_provider key_length f from msg in
      All (λ (x : AddrInfo). x.id ≡ from) added
      × (added ≡ (
          if ltb 0 (key_length msg.key) && ltb (key_length msg.key) 81
          then map (announced f) (select (is_own from) msg.provider_peers)
          else []))
      × ((r ≡ ok tt) ↔ (
          (0 < key_length msg.key)
          × (key_length msg.key < 81)
          × (own_record from msg.provider_peers ≡ true)))
unfolding handle_add_provider
handle_add_provider_own key_length f from msg =
    let (own, some_own) = providers_to_add_lem f from msg.provider_peers in
    elim (Bool-cases (ltb 80 (key_length msg.key))) [
      | inl big ↦ rw big (tt, ground arith, (λ h. absurd (cc), λ h. absurd (ground arith)))
      | inr small ↦ elim (Bool-cases (key_length msg.key == 0)) [
        | inl zero_ ↦
            rw (small, zero_) (tt, ground arith, (λ h. absurd (cc), λ h. absurd (ground arith)))
        | inr long ↦
            let fits : (ltb 0 (key_length msg.key) && ltb (key_length msg.key) 81) ≡ true =
              ground arith in
            rw (small, long)
              (
                own,
                providers_to_add-select f from msg.provider_peers ∙ sym (if_true _ _ _ fits),
                (λ h. (ground arith, ground arith, ground arith), λ h. ground arith),
              )
      ]
    ]
