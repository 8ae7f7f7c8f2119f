-- ===== src/Dual/Merged.antt =====
-- dual/dual.go: what FindProvidersAsync and FindPeer return of what the two DHTs yield.
use go_libp2p_kad_dht.Prelude.{
  ℕ, zero, suc, ◌==◌, ◌-◌, ◌≤◌, ◌<◌, sym, ◌⊎◌, ◌↔◌, if◌then◌else◌, Option, none, some, List, [],
  ◌∷◌, map, Bool, true, false, ◌&&◌, ◌||◌, contains, length, pos, ◌≡◌, refl, ◌∙◌, ap, inl, inr,
  arith, Bool-cases, if_true, if_false,
}
use go_libp2p_kad_dht.Qpeerset.{PeerId}
use go_libp2p_kad_dht.Network.{Addr, AddrInfo, info_id}
use go_libp2p_kad_dht.Dual.{
  Merge, new_merge, Input, from_wan, from_lan, wan_closed, lan_closed, events_closed, query_event,
  is_positive, minus_one, is_going, emit, merge_step, finish, merge, find_providers_async, dedup,
  combine_addrs, combine_errors, joined, find_peer,
}

-- No number stands twice.
abbrev pub Distinct : List ℕ → Type 0
Distinct [] = Unit
Distinct (x ∷ xs) = (contains xs x ≡ false) × Distinct xs

-- The count that is left, when n providers were asked for.
abbrev pub CountLeft : ℕ → Merge → Type 0
CountLeft n m = (pos (n - length m.out) ≡ m.count) × (length m.out ≤ n)

-- A provider that was sent stands in `found`, once.
pub record IsMerged (m : Merge) : Type 0 where
  pub same : map info_id m.out ≡ m.found
  pub distinct : Distinct m.found

emit-IsMerged :
    (m : Merge) (info : AddrInfo) (sent : Bool) → IsMerged m → IsMerged (emit m info sent).1
unfolding emit
emit-IsMerged m info sent v = elim (Bool-cases (contains m.found info.id)) [
  | inl h ↦ simp h v
  | inr h ↦ elim (Bool-cases sent) [
    | inl s ↦
        simp (h, s) (record { same = ap (λ l. info.id ∷ l) v.same; distinct = (h, v.distinct) })
    | inr s ↦ simp (h, s) v
  ]
]

step-IsMerged : (m : Merge) (i : Input) → IsMerged m → IsMerged (merge_step m i).1
unfolding merge_step
step-IsMerged m (from_wan info sent) v = elim (Bool-cases m.wan_open) [
  | inl h ↦ simp h (emit-IsMerged m info sent v)
  | inr h ↦ simp h v
]
step-IsMerged m (from_lan info sent) v = elim (Bool-cases m.lan_open) [
  | inl h ↦ simp h (emit-IsMerged m info sent v)
  | inr h ↦ simp h v
]
step-IsMerged m wan_closed v = record { same = v.same; distinct = v.distinct }
step-IsMerged m lan_closed v = record { same = v.same; distinct = v.distinct }
step-IsMerged m events_closed v = record { same = v.same; distinct = v.distinct }
step-IsMerged m (query_event b) v = record { same = v.same; distinct = v.distinct }

finish_same : (m : Merge) → ((finish m).out ≡ m.out) × ((finish m).found ≡ m.found)
unfolding finish
finish_same m = elim (Bool-cases (m.error_last && (length m.found == 0))) [
  | inl h ↦ simp h (refl, refl)
  | inr h ↦ simp h (refl, refl)
]

positive_lt : (k : ℕ) → is_positive (pos k) ≡ true → 0 < k
positive_lt zero h = absurd (ground arith)
positive_lt (suc k) h = omega arith

minus_one_lem : (k : ℕ) → 0 < k → minus_one (pos k) ≡ pos (k - 1)
minus_one_lem zero h = absurd (omega (arith, h))
minus_one_lem (suc k) h = ap pos (omega arith)

emit-CountLeft :
    (n : ℕ) (m : Merge) (info : AddrInfo) (sent : Bool)
    → CountLeft n m
    → is_positive m.count ≡ true
    → CountLeft n (emit m info sent).1
unfolding emit
emit-CountLeft n m info sent (c, le) h = elim (Bool-cases (contains m.found info.id)) [
  | inl f ↦ simp f (c, le)
  | inr f ↦ elim (Bool-cases sent) [
    | inr s ↦ simp (f, s) (c, le)
    | inl s ↦
        let left : is_positive (pos (n - length m.out)) ≡ true = ap is_positive c ∙ h in
        let more = positive_lt (n - length m.out) left in
        let fewer : n - suc (length m.out) ≡ (n - length m.out) - 1 = omega arith in
        simp (f, s)
          (
            ap pos fewer ∙ (sym (minus_one_lem (n - length m.out) more) ∙ ap minus_one c),
            omega (arith, more),
          )
  ]
]

step-CountLeft :
    (n : ℕ) (m : Merge) (i : Input)
    → CountLeft n m
    → is_positive m.count ≡ true
    → CountLeft n (merge_step m i).1
unfolding merge_step
step-CountLeft n m (from_wan info sent) v h = elim (Bool-cases m.wan_open) [
  | inl k ↦ simp k (emit-CountLeft n m info sent v h)
  | inr k ↦ simp k v
]
step-CountLeft n m (from_lan info sent) v h = elim (Bool-cases m.lan_open) [
  | inl k ↦ simp k (emit-CountLeft n m info sent v h)
  | inr k ↦ simp k v
]
step-CountLeft n m wan_closed v h = v
step-CountLeft n m lan_closed v h = v
step-CountLeft n m events_closed v h = v
step-CountLeft n m (query_event b) v h = v

merge_keeps :
    (n : ℕ) (m : Merge) (is : List Input)
    → IsMerged m
    → CountLeft n m
    → let r = merge false m is in Distinct (map info_id r.out) × (length r.out ≤ n)
unfolding merge
merge_keeps n m [] v c = elim (Bool-cases (is_going false m)) [
  | inl g ↦ rw g (rw v.same v.distinct, c.1)
  | inr g ↦
      let (o, f) = finish_same m in rw (if_false _ m (finish m) g, o) (rw v.same v.distinct, c.1)
]
merge_keeps n m (i ∷ is) v c = elim (Bool-cases (is_going false m)) [
  | inr g ↦
      let (o, f) = finish_same m in
      rw
        (
          if_false _
              (if (merge_step m i).0 then merge false (merge_step m i).1 is else (merge_step m i).1)
              (finish m) g,
          o,
        )
        (rw v.same v.distinct, c.1)
  | inl g ↦
      let m' = (merge_step m i).1 in
      let v' = step-IsMerged m i v in
      let c' = step-CountLeft n m i c (ground arith) in
      rw (if_true _ (if (merge_step m i).0 then merge false m' is else m') (finish m) g)
        (elim (Bool-cases (merge_step m i).0) [
          | inl on ↦ rw (if_true _ (merge false m' is) m' on) (merge_keeps n m' is v' c')
          | inr on ↦ rw (if_false _ (merge false m' is) m' on) (rw v'.same v'.distinct, c'.1)
        ])
]

-- Asked for n providers, n at least 1, FindProvidersAsync sends no provider twice, and at most n,
-- however the channels of the two DHTs interleave and whenever the context ends.
pub find_providers_async-Distinct :
    (n : ℕ) (inputs : List Input)
    → 0 < n
    → let m = find_providers_async (pos n) inputs in
      Distinct (map info_id m.out) × (length m.out ≤ n)
unfolding find_providers_async
find_providers_async-Distinct zero inputs h = absurd (omega (arith, h))
find_providers_async-Distinct (suc n) inputs h =
    merge_keeps (suc n) (new_merge (pos (suc n))) inputs (record { same = refl; distinct = tt })
      (ap pos (omega arith), omega arith)

dedup_keeps :
    (seen rest : List Addr)
    → Distinct seen
    → Distinct (dedup seen rest)
      × ((a : Addr) → contains (dedup seen rest) a ≡ (contains seen a || contains rest a))
unfolding dedup
dedup_keeps seen [] d = (d, λ a. ground arith)
dedup_keeps seen (b ∷ rest) d = elim (Bool-cases (contains seen b)) [
  | inl h ↦
      let (d', k) = dedup_keeps seen rest d in
      simp h (
        d',
        λ a. elim (Bool-cases (b == a)) [
          | inl s ↦ let same : b ≡ a = ground arith in ground (arith, k a)
          | inr s ↦ ground (arith, k a)
        ],
      )
  | inr h ↦
      let (d', k) = dedup_keeps (b ∷ seen) rest (h, d) in simp h (d', λ a. ground (arith, k a))
]

combined_contains :
    (wan lan : List Addr) (a : Addr)
    → contains (combine_addrs wan lan) a ≡ (contains wan a || contains lan a)
combined_contains [] lan a = refl
combined_contains (b ∷ wan) [] a = ground arith
combined_contains (b ∷ wan) (c ∷ lan) a =
    let (d, k) = dedup_keeps [] (b ∷ wan) tt in
    let (d', k') = dedup_keeps (dedup [] (b ∷ wan)) (c ∷ lan) d in
    k' a ∙ ap (λ x. x || contains (c ∷ lan) a) (k a)

combined-Distinct :
    (wan lan : List Addr) → Distinct wan → Distinct lan → Distinct (combine_addrs wan lan)
combined-Distinct [] lan d e = e
combined-Distinct (b ∷ wan) [] d e = d
combined-Distinct (b ∷ wan) (c ∷ lan) d e =
    (dedup_keeps (dedup [] (b ∷ wan)) (c ∷ lan) (dedup_keeps [] (b ∷ wan) tt).0).0

joined-none : (wan lan : Option ℕ) → (joined wan lan ≡ []) ↔ ((wan ≡ none) ⊎ (lan ≡ none))
unfolding combine_errors
joined-none none lan = (λ h. inl refl, λ h. refl)
joined-none (some a) none = (λ h. inr refl, λ h. refl)
joined-none (some a) (some b) = (
  λ h. absurd (elim (Bool-cases (a == b)) [
    | inl s ↦ ground arith
    | inr s ↦ elim (Bool-cases (a == 0)) [
      | inl z ↦ ground arith
      | inr z ↦ elim (Bool-cases (b == 0)) [ inl y ↦ ground arith | inr y ↦ ground arith ]
    ]
  ]),
  λ h. absurd (elim h [ inl n ↦ ground arith | inr n ↦ ground arith ]),
)

-- When neither DHT returns an address twice, FindPeer returns each address that one of the two returns, once,
-- and no other; and it returns no error exactly when one of the two returns none.
pub find_peer-Distinct :
    (p : PeerId) (wan lan : List Addr) (wan_err lan_err : Option ℕ)
    → Distinct wan
    → Distinct lan
    → let (info, errs) = find_peer p wan lan wan_err lan_err in
      ((a : Addr) → contains info.addrs a ≡ (contains wan a || contains lan a))
      × Distinct info.addrs
      × ((errs ≡ []) ↔ ((wan_err ≡ none) ⊎ (lan_err ≡ none)))
unfolding find_peer
find_peer-Distinct p wan lan wan_err lan_err d e =
    (λ a. combined_contains wan lan a, combined-Distinct wan lan d e, joined-none wan_err lan_err)
