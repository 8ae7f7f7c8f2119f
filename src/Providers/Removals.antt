-- ===== src/Providers/Removals.antt =====
-- records/providers_manager.go: the steps that only remove records from the datastore.
use go_libp2p_kad_dht.Prelude.{
  ℕ, ◌==◌, ltb, ◌-◌, Option, none, some, List, [], ◌∷◌, ◌⊎◌, ◌≡◌, refl, ◌∙◌, inl, inr, arith,
  contains, Bool-cases,
}
use go_libp2p_kad_dht.Prelude.Maps.{lookup, lookup-delete, UniqueKeys, delete-UniqueKeys}
use go_libp2p_kad_dht.Qpeerset.{PeerId}
use go_libp2p_kad_dht.Providers.{
  ProviderSet, Env, Datastore, GcRound, drop_entry, load_entry, load_named, load_timed,
  load_entries, is_expired, collect,
}

-- Nothing but removals of entries.
pub record Shrunk (before after : Datastore) : Type 0 where
  pub kept : (dk : ℕ) → (lookup dk after ≡ none) ⊎ (lookup dk after ≡ lookup dk before)
  pub unique : UniqueKeys before → UniqueKeys after

pub Shrunk-refl : (ds : Datastore) → Shrunk ds ds
Shrunk-refl ds = record { kept = λ dk. inr refl; unique = λ u. u }

Shrunk-trans : {a b c : Datastore} → Shrunk a b → Shrunk b c → Shrunk a c
Shrunk-trans s t = record {
  kept = λ dk. elim (t.kept dk) [
    | inl n ↦ inl n
    | inr m ↦ elim (s.kept dk) [ inl n ↦ inl (m ∙ n) | inr k ↦ inr (m ∙ k) ]
  ];
  unique = λ u. t.unique (s.unique u);
}

drop_entry-Shrunk : (e : Env) (ds : Datastore) (dk : ℕ) → Shrunk ds (drop_entry e ds dk)
drop_entry-Shrunk e ds dk = elim (Bool-cases (e.delete_fails dk)) [
  | inl h ↦ rw h (Shrunk-refl ds)
  | inr h ↦ rw h (record {
    kept = λ j. elim (Bool-cases (dk == j)) [
      | inl s ↦ inl (ground (arith, lookup-delete dk j ds))
      | inr s ↦ inr (ground (arith, lookup-delete dk j ds))
    ];
    unique = delete-UniqueKeys dk ds;
  })
]

load_named-Shrunk :
    (e : Env) (out : ProviderSet) (ds : Datastore) (dk t : ℕ) (o : Option PeerId)
    → Shrunk ds (load_named e out ds dk t o).1
load_named-Shrunk e out ds dk t none = drop_entry-Shrunk e ds dk
load_named-Shrunk e out ds dk t (some p) = Shrunk-refl ds

load_timed-Shrunk :
    (e : Env) (now : ℕ) (out : ProviderSet) (ds : Datastore) (dk : ℕ) (o : Option ℕ)
    → Shrunk ds (load_timed e now out ds dk o).1
load_timed-Shrunk e now out ds dk none = drop_entry-Shrunk e ds dk
load_timed-Shrunk e now out ds dk (some t) = elim (Bool-cases (ltb e.provide_validity (now - t))) [
  | inl h ↦ rw h (drop_entry-Shrunk e ds dk)
  | inr h ↦ rw h (load_named-Shrunk e out ds dk t (e.decode_base32 (e.last dk)))
]

load_entry-Shrunk :
    (e : Env) (now : ℕ) (out : ProviderSet) (ds : Datastore) (dk b : ℕ)
    → Shrunk ds (load_entry e now out ds dk b).1
load_entry-Shrunk e now out ds dk b = elim (Bool-cases (e.read_fails dk)) [
  | inl h ↦ rw h (Shrunk-refl ds)
  | inr h ↦ rw h (load_timed-Shrunk e now out ds dk (e.varint b))
]

pub load_entries-Shrunk :
    (e : Env) (now : ℕ) (out : ProviderSet) (ds : Datastore) (es : List (ℕ × ℕ))
    → Shrunk ds (load_entries e now out ds es).1
unfolding load_entries
load_entries-Shrunk e now out ds [] = Shrunk-refl ds
load_entries-Shrunk e now out ds ((dk, b) ∷ rest) =
    let step = load_entry e now out ds dk b in
    Shrunk-trans (load_entry-Shrunk e now out ds dk b)
      (load_entries-Shrunk e now step.0 step.1 rest)

pub collect-Shrunk :
    (e : Env) (ds : Datastore) (g : GcRound) (dk b : ℕ) → Shrunk ds (collect e ds g dk b)
collect-Shrunk e ds g dk b = elim (Bool-cases (e.read_fails dk)) [
  | inl h ↦ rw h (Shrunk-refl ds)
  | inr h ↦ elim (Bool-cases (contains g.gc_skip dk)) [
    | inl k ↦ rw (h, k) (Shrunk-refl ds)
    | inr k ↦ elim (Bool-cases (is_expired e g.gc_time (e.varint b))) [
      | inl x ↦ rw (h, k, x) (drop_entry-Shrunk e ds dk)
      | inr x ↦ rw (h, k, x) (Shrunk-refl ds)
    ]
  ]
]
