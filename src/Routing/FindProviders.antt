-- ===== src/Routing/FindProviders.antt =====
-- findProvidersAsyncRoutine of routing.go: how many providers it sends.
use go_libp2p_kad_dht.Prelude.{
  ℕ, ◌==◌, ◌+◌, ◌≤◌, ◌<◌, ltb, if◌then◌else◌, Option, none, some, List, [], ◌∷◌, ◌++◌, Bool, true,
  false, ◌&&◌, ◌||◌, not, ◌≡◌, refl, sym, ◌∙◌, ap, inl, inr, arith, length, tally, tally-append,
  Bool-cases,
}
use go_libp2p_kad_dht.Prelude.Maps.{lookup, insert, lookup-insert}
use go_libp2p_kad_dht.Qpeerset.{PeerId}
use go_libp2p_kad_dht.Network.{AddrInfo}
use go_libp2p_kad_dht.Routing.{
  ProviderSearch, no_providers, no_addrs, is_news, can_add, is_enough, LoopEnd, exhausted, enough,
  cancelled, offer_all, on_answers, unless_ended, find_providers_routine,
}

-- How often the peer was sent, with addresses and without.
abbrev pub sent_full : PeerId → List AddrInfo → ℕ
sent_full p out = tally (λ (x : AddrInfo). (x.id == p) && not (no_addrs x)) out

abbrev pub sent_bare : PeerId → List AddrInfo → ℕ
sent_bare p out = tally (λ (x : AddrInfo). (x.id == p) && no_addrs x) out

abbrev full_entry : Option AddrInfo → ℕ
full_entry none = 0
full_entry (some x) = if no_addrs x then 0 else 1

abbrev pub any_entry : Option AddrInfo → ℕ
any_entry none = 0
any_entry (some x) = 1

record Sends (count : ℕ) (s : ProviderSearch) : Type 0 where
  full : (p : PeerId) → sent_full p s.out ≤ full_entry (lookup p s.ps)
  bare : (p : PeerId) → sent_bare p s.out ≤ any_entry (lookup p s.ps)
  room : 0 < count → length s.ps ≤ count

length-insert :
    (p : PeerId) (x : AddrInfo) (m : List (PeerId × AddrInfo))
    → length (insert p x m) + any_entry (lookup p m) ≡ length m + 1
unfolding insert lookup
length-insert p x [] = omega arith
length-insert p x ((q, old) ∷ m) = ground (arith, length-insert p x m)

-- What psTryAdd says of the entry that it replaces, and of the number of the entries.
record News (count : ℕ) (s : ProviderSearch) (x : AddrInfo) : Type 0 where
  was_bare : full_entry (lookup x.id s.ps) ≡ 0
  now_full : any_entry (lookup x.id s.ps) ≡ 1 → no_addrs x ≡ false
  fits : 0 < count → length s.ps < count

can_add-News :
    (count : ℕ) (s : ProviderSearch) (x : AddrInfo) → can_add count s x ≡ true → News count s x
unfolding can_add
can_add-News count s x h = by_entry (lookup x.id s.ps) refl h
  where
    by_entry :
        (o : Option AddrInfo)
        → lookup x.id s.ps ≡ o
        → (is_news x o && (ltb (length s.ps) count || (count == 0))) ≡ true
        → News count s x
    by_entry none e k = record {
      was_bare = ap full_entry e;
      now_full = λ one. absurd (omega (arith, one, ap any_entry e));
      fits = λ pos. ground arith;
    }
    by_entry (some old) e k = record {
      was_bare = ap full_entry e ∙ (ground arith);
      now_full = λ one. ground arith;
      fits = λ pos. ground arith;
    }

entered-Sends :
    (count : ℕ) (s : ProviderSearch) (x : AddrInfo) (sent_on : List AddrInfo)
    → News count s x
    → ((p : PeerId) → sent_full p sent_on ≤ sent_full p s.out + sent_full p (x ∷ []))
    → ((p : PeerId) → sent_bare p sent_on ≤ sent_bare p s.out + sent_bare p (x ∷ []))
    → Sends count s
    → Sends count (record s { ps = insert x.id x s.ps; out = sent_on })
entered-Sends count s x sent_on n f b h = record {
  full = λ p.
      let now = ap full_entry (lookup-insert s.ps x.id x p) in
      elim (Bool-cases (x.id == p)) [
        | inl e ↦
            let same : x.id ≡ p = ground arith in
            let was = ap (λ q. full_entry (lookup q s.ps)) (sym same) ∙ n.was_bare in
            ground (arith, now, f p, h.full p, was)
        | inr e ↦ ground (arith, now, f p, h.full p)
      ];
  bare = λ p.
      let now = ap any_entry (lookup-insert s.ps x.id x p) in
      elim (Bool-cases (x.id == p)) [
        | inl e ↦
            let same : x.id ≡ p = ground arith in
            let was = ap (λ q. any_entry (lookup q s.ps)) (sym same) in
            ground (arith, now, f p, b p, h.bare p, was, n.now_full)
        | inr e ↦ ground (arith, now, b p, h.bare p)
      ];
  room = λ pos. omega (arith, length-insert x.id x s.ps, n.fits pos);
}

offer_all-Sends :
    (count : ℕ) (s : ProviderSearch) (xs : List (AddrInfo × Bool))
    → Sends count s
    → Sends count (offer_all count s xs).1
unfolding offer_all
offer_all-Sends count s [] h = h
offer_all-Sends count s ((x, true) ∷ rest) h =
    let sent_on : ProviderSearch = record { ps = insert x.id x s.ps; out = s.out ++ x ∷ [] } in
    elim (Bool-cases (can_add count s x)) [
      | inl a ↦
          let h' =
            entered-Sends count s x (s.out ++ x ∷ []) (can_add-News count s x a)
              (λ p. omega (
                arith,
                tally-append (λ (y : AddrInfo). (y.id == p) && not (no_addrs y)) s.out (x ∷ []),
              ))
              (λ p.
                omega (
                  arith,
                  tally-append (λ (y : AddrInfo). (y.id == p) && no_addrs y) s.out (x ∷ []),
                ))
              h in
          elim (Bool-cases (is_enough count sent_on)) [
            | inl e ↦ simp (a, e) h'
            | inr e ↦ simp (a, e) (offer_all-Sends count sent_on rest h')
          ]
      | inr a ↦ elim (Bool-cases (is_enough count s)) [
        | inl e ↦ simp (a, e) h
        | inr e ↦ simp (a, e) (offer_all-Sends count s rest h)
      ]
    ]
offer_all-Sends count s ((x, false) ∷ rest) h = elim (Bool-cases (can_add count s x)) [
  | inl a ↦ simp a (
      entered-Sends count s x s.out (can_add-News count s x a) (λ p. omega arith) (λ p. omega arith)
        h)
  | inr a ↦ elim (Bool-cases (is_enough count s)) [
    | inl e ↦ simp (a, e) h
    | inr e ↦ simp (a, e) (offer_all-Sends count s rest h)
  ]
]

on_answers-Sends :
    (count : ℕ) (s : ProviderSearch) (xs : List (List (AddrInfo × Bool)))
    → Sends count s
    → Sends count (on_answers count s xs)
unfolding on_answers
on_answers-Sends count s [] h = h
on_answers-Sends count s (x ∷ xs) h =
    on_answers-Sends count (offer_all count s x).1 xs (offer_all-Sends count s x h)

routine-Sends :
    (count : ℕ) (provs : List (AddrInfo × Bool)) (answers : List (List (AddrInfo × Bool)))
    → Sends count (find_providers_routine count provs answers).1
unfolding find_providers_routine lookup
routine-Sends count provs answers = ended (offer_all count no_providers provs) (
    offer_all-Sends count no_providers provs
      (record { full = λ p. omega arith; bare = λ p. omega arith; room = λ pos. omega arith }))
  where
    ended :
        (r : LoopEnd × ProviderSearch)
        → Sends count r.1
        → Sends count (unless_ended count answers r).1
    ended (exhausted, s) h = on_answers-Sends count s answers h
    ended (enough, s) h = h
    ended (cancelled, s) h = h

entry_bound : (o : Option AddrInfo) → full_entry o ≤ any_entry o × any_entry o ≤ 1
entry_bound none = (omega arith, omega arith)
entry_bound (some x) = (ground arith, omega arith)

-- With a count other than 0, whatever the providers' store and the peers answer and whenever the context
-- ends, findProvidersAsyncRoutine enters at most `count` peers; it sends no peer that it has not entered,
-- and a peer at most once with addresses and at most once without.
pub find_providers_routine_sends :
    (count : ℕ) (provs : List (AddrInfo × Bool)) (answers : List (List (AddrInfo × Bool)))
    → 0 < count
    → let s = (find_providers_routine count provs answers).1 in
      (length s.ps ≤ count)
      × ((p : PeerId)
          → (sent_full p s.out ≤ any_entry (lookup p s.ps))
            × (sent_bare p s.out ≤ any_entry (lookup p s.ps))
            × (any_entry (lookup p s.ps) ≤ 1))
find_providers_routine_sends count provs answers pos =
    let s = (find_providers_routine count provs answers).1 in
    let h = routine-Sends count provs answers in
    (
      h.room pos,
      λ p. let b = entry_bound (lookup p s.ps) in (omega (arith, h.full p, b.0), h.bare p, b.1),
    )
