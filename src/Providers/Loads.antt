-- ===== src/Providers/Loads.antt =====
-- records/providers_manager.go: loadProviderSet and the reply to GetProviders.
use go_libp2p_kad_dht.Prelude.{
  ℕ, ◌==◌, ltb, ◌-◌, Option, none, some, List, [], ◌∷◌, Bool, false, ◌||◌, ◌&&◌, not, ◌≡◌, refl,
  ◌∙◌, ap, inl, inr, arith, contains, Bool-cases,
}
use go_libp2p_kad_dht.Prelude.Maps.{lookup}
use go_libp2p_kad_dht.Qpeerset.{PeerId}
use go_libp2p_kad_dht.Providers.{
  ProviderSet, new_provider_set, Env, Datastore, ProviderManager, load_entry, load_named,
  load_timed, load_entries, load_provider_set, entries_under, handle_get_provs,
  get_provider_set_for_key, keep_loaded, providers_of,
}
use go_libp2p_kad_dht.Providers.Sets.{IsListed, contains-set_val, set_val-IsListed, new-IsListed}

-- The time parses, and is not over.
abbrev pub is_live : Env → ℕ → Option ℕ → Bool
is_live e now none = false
is_live e now (some t) = not (ltb e.provide_validity (now - t))

abbrev pub is_named : Option PeerId → PeerId → Bool
is_named none q = false
is_named (some p) q = p == q

-- The entry can be read, is live, and carries the name of the peer.
abbrev pub gives : Env → ℕ → PeerId → ℕ → ℕ → Bool
gives e now q dk b =
    not (e.read_fails dk)
    && (is_live e now (e.varint b) && is_named (e.decode_base32 (e.last dk)) q)

-- Some entry of the list does.
abbrev pub given : Env → ℕ → PeerId → List (ℕ × ℕ) → Bool
given e now q [] = false
given e now q ((dk, b) ∷ rest) = gives e now q dk b || given e now q rest

load_named_lists :
    (e : Env) (out : ProviderSet) (ds : Datastore) (dk t : ℕ) (o : Option PeerId)
    → IsListed out
    → IsListed (load_named e out ds dk t o).0
      × ((q : PeerId)
          → contains (load_named e out ds dk t o).0.providers q
            ≡ (is_named o q || contains out.providers q))
load_named_lists e out ds dk t none v = (v, λ q. refl)
load_named_lists e out ds dk t (some p) v =
    (set_val-IsListed out p t v, λ q. contains-set_val out p t q v)

load_timed_lists :
    (e : Env) (now : ℕ) (out : ProviderSet) (ds : Datastore) (dk : ℕ) (o : Option ℕ)
    → IsListed out
    → IsListed (load_timed e now out ds dk o).0
      × ((q : PeerId)
          → contains (load_timed e now out ds dk o).0.providers q ≡ (
              (is_live e now o && is_named (e.decode_base32 (e.last dk)) q)
              || contains out.providers q))
load_timed_lists e now out ds dk none v = (v, λ q. refl)
load_timed_lists e now out ds dk (some t) v = elim (Bool-cases (ltb e.provide_validity (now - t))) [
  | inl h ↦ rw h (v, λ q. refl)
  | inr h ↦ rw h (load_named_lists e out ds dk t (e.decode_base32 (e.last dk)) v)
]

load_entry_lists :
    (e : Env) (now : ℕ) (out : ProviderSet) (ds : Datastore) (dk b : ℕ)
    → IsListed out
    → IsListed (load_entry e now out ds dk b).0
      × ((q : PeerId)
          → contains (load_entry e now out ds dk b).0.providers q
            ≡ (gives e now q dk b || contains out.providers q))
load_entry_lists e now out ds dk b v = elim (Bool-cases (e.read_fails dk)) [
  | inl h ↦ rw h (v, λ q. refl)
  | inr h ↦ rw h (load_timed_lists e now out ds dk (e.varint b) v)
]

pub load_entries_lists :
    (e : Env) (now : ℕ) (out : ProviderSet) (ds : Datastore) (es : List (ℕ × ℕ))
    → IsListed out
    → IsListed (load_entries e now out ds es).0
      × ((q : PeerId)
          → contains (load_entries e now out ds es).0.providers q
            ≡ (given e now q es || contains out.providers q))
unfolding load_entries
load_entries_lists e now out ds [] v = (v, λ q. refl)
load_entries_lists e now out ds ((dk, b) ∷ rest) v =
    let (v1, f) = load_entry_lists e now out ds dk b v in
    let step = load_entry e now out ds dk b in
    let (v2, g) = load_entries_lists e now step.0 step.1 rest v1 in
    (v2, λ q. ground (arith, f q, g q))

-- The sets in the cache list exactly the peers of their maps.
abbrev pub CacheListed : ProviderManager → Type 0
CacheListed pm = (k : ℕ) (ps : ProviderSet) → lookup k pm.cache ≡ some ps → IsListed ps

kept_reply :
    (pm : ProviderManager) (k : ℕ) (ps : ProviderSet) (ds : Datastore)
    → providers_of (keep_loaded pm k (some (ps, ds))).0 ≡ ps.providers
kept_reply pm k ps ds = ground arith

-- For a key that is not cached, and a query that succeeds, the reply lists exactly the peers that a live,
-- readable entry under the key names.
pub handle_get_provs_iff :
    (e : Env) (now : ℕ) (pm : ProviderManager) (k : ℕ) (q : PeerId)
    → lookup k pm.cache ≡ none
    → e.query_fails k ≡ false
    → contains (handle_get_provs e now pm k).0 q ≡ given e now q (entries_under e k pm.dstore)
unfolding handle_get_provs get_provider_set_for_key load_provider_set
handle_get_provs_iff e now pm k q h f =
    let loaded = load_entries e now new_provider_set pm.dstore (entries_under e k pm.dstore) in
    let (v, lists) =
      load_entries_lists e now new_provider_set pm.dstore (entries_under e k pm.dstore)
        new-IsListed in
    rw (h, f)
      (ap (λ ps. contains ps q) (kept_reply pm k loaded.0 loaded.1) ∙ ground (arith, lists q))
