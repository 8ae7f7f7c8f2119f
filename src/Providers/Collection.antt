-- ===== src/Providers/Collection.antt =====
-- records/providers_manager.go: what the goroutine of `run` keeps over all of its events, and the
-- collection of expired records.
use go_libp2p_kad_dht.Prelude.{
  ℕ, ◌==◌, ltb, Option, none, some, List, [], ◌∷◌, Bool, true, false, ◌⊎◌, ◌≡◌, refl, sym, ◌∙◌, ap,
  inl, inr, arith, contains, Bool-cases, Option-cases, All, All-map, length, subst, some_inj,
}
use go_libp2p_kad_dht.Prelude.Maps.{
  lookup, insert, lookup-insert, lookup-delete, UniqueKeys, insert-UniqueKeys,
}
use go_libp2p_kad_dht.Qpeerset.{PeerId}
use go_libp2p_kad_dht.Providers.{
  ProviderSet, new_provider_set, set_val, Env, Datastore, GcRound, ProviderManager, load_entries,
  load_provider_set, entries_under, mk_prov_key_for, handle_get_provs, handle_new_prov,
  get_provider_set_for_key, keep_loaded, add_prov, write_provider_entry, touch, skip_key,
  is_expired, collect, next_result, in_round, handle_gc_result, handle_gc_timer, Event, new_prov,
  get_provs, gc_result, gc_timer, evicted, handle_event,
}
use go_libp2p_kad_dht.Providers.Sets.{IsListed, set_val-IsListed, new-IsListed}
use go_libp2p_kad_dht.Providers.Loads.{CacheListed, load_entries_lists}
use go_libp2p_kad_dht.Providers.Removals.{Shrunk, load_entries-Shrunk, collect-Shrunk}

-- The result is to be skipped, or its record is gone or as the query saw it.
abbrev pub IsCurrent : List ℕ → Datastore → ℕ × ℕ → Type 0
IsCurrent skip ds x =
    (contains skip x.0 ≡ true) ⊎ ((lookup x.0 ds ≡ none) ⊎ (lookup x.0 ds ≡ some x.1))

abbrev pub RoundCurrent : Option GcRound → Datastore → Type 0
RoundCurrent none ds = Unit
RoundCurrent (some g) ds = All (IsCurrent g.gc_skip ds) g.results

-- What the goroutine keeps.
pub record IsKept (pm : ProviderManager) : Type 0 where
  pub listed : CacheListed pm
  pub unique : UniqueKeys pm.dstore
  pub current : RoundCurrent pm.gc pm.dstore

RoundCurrent-Shrunk :
    (o : Option GcRound) (before after : Datastore)
    → Shrunk before after
    → RoundCurrent o before
    → RoundCurrent o after
RoundCurrent-Shrunk none before after s h = tt
RoundCurrent-Shrunk (some g) before after s h =
    All-map g.results
      (λ x c. elim c [
        | inl k ↦ inl k
        | inr m ↦ elim (s.kept x.0) [
          | inl n ↦ inr (inl n)
          | inr same ↦ inr (elim m [ inl n ↦ inl (same ∙ n) | inr k ↦ inr (same ∙ k) ])
        ]
      ])
      h

insert_current :
    (o : Option GcRound) (ds : Datastore) (dk b : ℕ)
    → RoundCurrent o ds
    → RoundCurrent (skip_key dk o) (insert dk b ds)
insert_current none ds dk b h = tt
insert_current (some g) ds dk b h =
    All-map g.results
      (λ x c. elim (Bool-cases (dk == x.0)) [
        | inl s ↦ inl (ground arith)
        | inr s ↦ let same = lookup-insert ds dk b x.0 in ground arith
      ])
      h

touch-IsListed :
    (pm : ProviderManager) (k : ℕ) (p : PeerId) (now : ℕ) (o : Option ProviderSet)
    → CacheListed pm
    → lookup k pm.cache ≡ o
    → (j : ℕ) (ps : ProviderSet) → lookup j (touch k p now pm.cache o) ≡ some ps
    → IsListed ps
touch-IsListed pm k p now none v h j ps e = v j ps e
touch-IsListed pm k p now (some old) v h j ps e =
    let at_j = lookup-insert pm.cache k (set_val old p now) j in
    elim (Bool-cases (k == j)) [
      | inl s ↦
          let same : set_val old p now ≡ ps = ground arith in
          rw (← same) (set_val-IsListed old p now (v k old h))
      | inr s ↦ v j ps (ground arith)
    ]

handle_new_prov-IsKept :
    (e : Env) (pm : ProviderManager) (k : ℕ) (p : PeerId) (now : ℕ)
    → IsKept pm
    → IsKept (handle_new_prov e pm k p now)
unfolding handle_new_prov add_prov write_provider_entry
handle_new_prov-IsKept e pm k p now v = elim (Bool-cases (e.put_fails (mk_prov_key_for e k p))) [
  | inl f ↦ rw f (record {
    listed = touch-IsListed pm k p now (lookup k pm.cache) v.listed refl;
    unique = v.unique;
    current = v.current;
  })
  | inr f ↦ rw f (record {
    listed = touch-IsListed pm k p now (lookup k pm.cache) v.listed refl;
    unique = insert-UniqueKeys (mk_prov_key_for e k p) (e.put_varint now) pm.dstore v.unique;
    current = insert_current pm.gc pm.dstore (mk_prov_key_for e k p) (e.put_varint now) v.current;
  })
]

keep_loaded-IsKept :
    (pm : ProviderManager) (k : ℕ) (ps : ProviderSet) (ds : Datastore)
    → IsKept pm
    → IsListed ps
    → Shrunk pm.dstore ds
    → IsKept (keep_loaded pm k (some (ps, ds))).1
keep_loaded-IsKept pm k ps ds v l s = elim (Bool-cases (ltb 0 (length ps.providers))) [
  | inl h ↦ rw h (record {
    listed = λ j qs e. elim (Bool-cases (k == j)) [
      | inl t ↦
          let at_j = lookup-insert pm.cache k ps j in
          let same : ps ≡ qs = ground arith in rw (← same) l
      | inr t ↦ let at_j = lookup-insert pm.cache k ps j in v.listed j qs (ground arith)
    ];
    unique = s.unique v.unique;
    current = RoundCurrent-Shrunk pm.gc pm.dstore ds s v.current;
  })
  | inr h ↦ rw h (record {
    listed = v.listed;
    unique = s.unique v.unique;
    current = RoundCurrent-Shrunk pm.gc pm.dstore ds s v.current;
  })
]

handle_get_provs-IsKept :
    (e : Env) (now : ℕ) (pm : ProviderManager) (k : ℕ)
    → IsKept pm
    → IsKept (handle_get_provs e now pm k).1
unfolding handle_get_provs get_provider_set_for_key load_provider_set
handle_get_provs-IsKept e now pm k v = elim (Option-cases (lookup k pm.cache)) [
  | inr (ps, h) ↦ rw h v
  | inl h ↦ elim (Bool-cases (e.query_fails k)) [
    | inl f ↦ rw (h, f) v
    | inr f ↦
        let es = entries_under e k pm.dstore in
        let loaded = load_entries e now new_provider_set pm.dstore es in
        rw (h, f)
          (keep_loaded-IsKept pm k loaded.0 loaded.1 v
            (load_entries_lists e now new_provider_set pm.dstore es new-IsListed).0
            (load_entries-Shrunk e now new_provider_set pm.dstore es))
  ]
]

next_result-IsKept :
    (e : Env) (pm : ProviderManager) (g : GcRound) (es : List (ℕ × ℕ))
    → CacheListed pm
    → UniqueKeys pm.dstore
    → All (IsCurrent g.gc_skip pm.dstore) es
    → IsKept (next_result e pm g es)
next_result-IsKept e pm g [] l u h = record { listed = l; unique = u; current = tt }
next_result-IsKept e pm g ((dk, b) ∷ rest) l u h =
    let s = collect-Shrunk e pm.dstore g dk b in
    record {
      listed = l;
      unique = s.unique u;
      current =
          RoundCurrent-Shrunk (some (record g { results = rest })) pm.dstore
            (collect e pm.dstore g dk b) s h.1;
    }

in_round-IsKept :
    (e : Env) (pm : ProviderManager) (o : Option GcRound)
    → CacheListed pm
    → UniqueKeys pm.dstore
    → pm.gc ≡ o
    → RoundCurrent o pm.dstore
    → IsKept (in_round e pm o)
in_round-IsKept e pm none l u same h = record {
  listed = l;
  unique = u;
  current = subst (λ o. RoundCurrent o pm.dstore) (sym same) tt;
}
in_round-IsKept e pm (some g) l u same h = next_result-IsKept e pm g g.results l u h

snapshot_current :
    (ds : Datastore) → UniqueKeys ds → All (λ (x : ℕ × ℕ). lookup x.0 ds ≡ some x.1) ds
unfolding lookup
snapshot_current [] u = tt
snapshot_current ((j, v) ∷ ds) u =
    (ground arith, All-map ds (λ x h. ground arith) (snapshot_current ds u.1))

handle_gc_timer-IsKept :
    (pm : ProviderManager) (now : ℕ) (failed : Bool)
    → IsKept pm
    → IsKept (handle_gc_timer pm now failed)
unfolding handle_gc_timer lookup
handle_gc_timer-IsKept pm now true v = record {
  listed = λ k ps h. absurd (ground arith);
  unique = v.unique;
  current = v.current;
}
handle_gc_timer-IsKept pm now false v = record {
  listed = λ k ps h. absurd (ground arith);
  unique = v.unique;
  current = All-map pm.dstore (λ x h. inr (inr h)) (snapshot_current pm.dstore v.unique);
}

-- Every event keeps what the goroutine relies on: the cached sets list each provider of their maps, no
-- record stands twice, and each result that a round of collection has yet to look at is marked to be
-- skipped, or its record is gone or still as the round's query saw it.
pub handle_event-IsKept :
    (e : Env) (pm : ProviderManager) (ev : Event) → IsKept pm → IsKept (handle_event e pm ev)
unfolding handle_event handle_gc_result
handle_event-IsKept e pm (new_prov k p now) v = handle_new_prov-IsKept e pm k p now v
handle_event-IsKept e pm (get_provs k now) v = handle_get_provs-IsKept e now pm k v
handle_event-IsKept e pm gc_result v = in_round-IsKept e pm pm.gc v.listed v.unique refl v.current
handle_event-IsKept e pm (gc_timer now failed) v = handle_gc_timer-IsKept pm now failed v
handle_event-IsKept e pm (evicted k) v = record {
  listed = λ j ps h. elim (Bool-cases (k == j)) [
    | inl s ↦ absurd (ground (arith, lookup-delete k j pm.cache))
    | inr s ↦ v.listed j ps (ground (arith, lookup-delete k j pm.cache))
  ];
  unique = v.unique;
  current = v.current;
}

collect_spares :
    (e : Env) (ds : Datastore) (g : GcRound) (j c dk b : ℕ)
    → IsCurrent g.gc_skip ds (j, c)
    → lookup dk ds ≡ some b
    → is_expired e g.gc_time (e.varint b) ≡ false
    → lookup dk (collect e ds g j c) ≡ some b
collect_spares e ds g j c dk b cur h x = elim (Bool-cases (j == dk)) [
  | inr s ↦ ground (arith, lookup-delete j dk ds)
  | inl s ↦ elim cur [
    | inl k ↦ ground arith
    | inr (inl n) ↦ let same : j ≡ dk = ground arith in absurd (ground arith)
    | inr (inr m) ↦
        let same : j ≡ dk = ground arith in
        let got : c ≡ b = some_inj c b (sym m ∙ (ap (λ i. lookup i ds) same ∙ h)) in
        rw got (elim (Bool-cases (e.read_fails j)) [
          | inl r ↦ rw r h
          | inr r ↦ elim (Bool-cases (contains g.gc_skip j)) [
            | inl k ↦ rw (r, k) h
            | inr k ↦ rw (r, k, x) h
          ]
        ])
  ]
]

next_result_spares :
    (e : Env) (pm : ProviderManager) (g : GcRound) (es : List (ℕ × ℕ)) (dk b : ℕ)
    → All (IsCurrent g.gc_skip pm.dstore) es
    → lookup dk pm.dstore ≡ some b
    → is_expired e g.gc_time (e.varint b) ≡ false
    → lookup dk (next_result e pm g es).dstore ≡ some b
next_result_spares e pm g [] dk b h found x = found
next_result_spares e pm g ((j, c) ∷ rest) dk b h found x =
    collect_spares e pm.dstore g j c dk b h.0 found x

-- A round of collection never removes a record that is not expired at the time of the round, whatever was
-- written to the store since the round's query.
pub handle_gc_result_spares :
    (e : Env) (pm : ProviderManager) (g : GcRound) (dk b : ℕ)
    → IsKept pm
    → pm.gc ≡ some g
    → lookup dk pm.dstore ≡ some b
    → is_expired e g.gc_time (e.varint b) ≡ false
    → lookup dk (handle_gc_result e pm).dstore ≡ some b
unfolding handle_gc_result
handle_gc_result_spares e pm g dk b v same found x = rw same (
    next_result_spares e pm g g.results dk b (subst (λ o. RoundCurrent o pm.dstore) same v.current)
      found x)
