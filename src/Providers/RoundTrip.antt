-- ===== src/Providers/RoundTrip.antt =====
-- records/providers_manager.go: GetProviders after AddProvider.
use go_libp2p_kad_dht.Prelude.{
  ℕ, ◌==◌, ◌-◌, ◌≤◌, none, some, List, [], ◌∷◌, Bool, true, false, ◌≡◌, refl, ◌∙◌, ap, inl, inr,
  arith, contains, Bool-cases, Option-cases, if_true, if_false, select,
}
use go_libp2p_kad_dht.Prelude.Maps.{lookup, insert, lookup-insert_self}
use go_libp2p_kad_dht.Qpeerset.{PeerId}
use go_libp2p_kad_dht.Providers.{
  ProviderSet, set_val, Env, ProviderManager, entries_under, mk_prov_key_for, handle_get_provs,
  handle_new_prov, get_provider_set_for_key, add_prov, write_provider_entry, touch, skip_key,
}
use go_libp2p_kad_dht.Providers.Sets.{contains-set_val}
use go_libp2p_kad_dht.Providers.Loads.{gives, given, CacheListed, handle_get_provs_iff}

-- What the encodings of keys and times promise: a base32 name has no separator, so that it is the part of a
-- joined key behind the last one, and the joined key stands under its first part.
pub record IsCodec (e : Env) : Type 0 where
  pub named : (p : PeerId) → e.decode_base32 (e.base32 p) ≡ some p
  pub split : (a : ℕ) (p : PeerId) → e.last (e.join a (e.base32 p)) ≡ e.base32 p
  pub prefixed : (a : ℕ) (p : PeerId) → e.under a (e.join a (e.base32 p)) ≡ true
  pub timed : (t : ℕ) → e.varint (e.put_varint t) ≡ some t

lookup-select :
    (test : ℕ × ℕ → Bool) (dk b : ℕ) (m : List (ℕ × ℕ))
    → test (dk, b) ≡ true
    → lookup dk m ≡ some b
    → lookup dk (select test m) ≡ some b
unfolding lookup
lookup-select test dk b [] t h = h
lookup-select test dk b ((j, v) ∷ m) t h = elim (Bool-cases (j == dk)) [
  | inl s ↦
      let same : j ≡ dk = ground arith in
      let got : v ≡ b = ground arith in
      rw (same, got) (rw t (if_true (dk == dk) _ _ (ground arith)))
  | inr s ↦
      let ih = lookup-select test dk b m t (ground arith) in
      elim (Bool-cases (test (j, v))) [
        | inl k ↦ rw k (if_false (j == dk) _ _ s ∙ ih)
        | inr k ↦ rw k ih
      ]
]

given_found :
    (e : Env) (now : ℕ) (q : PeerId) (dk b : ℕ) (es : List (ℕ × ℕ))
    → lookup dk es ≡ some b
    → gives e now q dk b ≡ true
    → given e now q es ≡ true
unfolding lookup
given_found e now q dk b [] h g = absurd (ground arith)
given_found e now q dk b ((j, v) ∷ es) h g = elim (Bool-cases (j == dk)) [
  | inl s ↦
      let same : j ≡ dk = ground arith in
      let got : v ≡ b = ground arith in rw (same, got) (rw g refl)
  | inr s ↦ ground (arith, given_found e now q dk b es (ground arith) g)
]

fresh_gives :
    (e : Env) (now later k : ℕ) (p : PeerId)
    → IsCodec e
    → e.read_fails (mk_prov_key_for e k p) ≡ false
    → later - now ≤ e.provide_validity
    → gives e later p (mk_prov_key_for e k p) (e.put_varint now) ≡ true
fresh_gives e now later k p c r h = simp (r, c.timed, c.split, c.named) (ground arith)

-- The manager after a provider record is written.
abbrev written : Env → ProviderManager → ℕ → PeerId → ℕ → ProviderManager
written e pm k p now = record {
  cache = touch k p now pm.cache (lookup k pm.cache);
  dstore = insert (mk_prov_key_for e k p) (e.put_varint now) pm.dstore;
  gc = skip_key (mk_prov_key_for e k p) pm.gc;
}

handle_new_prov_writes :
    (e : Env) (pm : ProviderManager) (k : ℕ) (p : PeerId) (now : ℕ)
    → e.put_fails (mk_prov_key_for e k p) ≡ false
    → handle_new_prov e pm k p now ≡ written e pm k p now
unfolding handle_new_prov add_prov write_provider_entry
handle_new_prov_writes e pm k p now h = simp h

cached_reply :
    (e : Env) (now : ℕ) (pm : ProviderManager) (k : ℕ) (ps : ProviderSet)
    → lookup k pm.cache ≡ some ps
    → (handle_get_provs e now pm k).0 ≡ ps.providers
unfolding handle_get_provs get_provider_set_for_key
cached_reply e now pm k ps h = rw h

-- After a provider record was written, and while it is no older than the validity, a request for the key
-- whose query and reads do not fail lists the provider, whether the key was cached or not.
pub handle_get_provs-handle_new_prov :
    (e : Env) (pm : ProviderManager) (k : ℕ) (p : PeerId) (now later : ℕ)
    → IsCodec e
    → CacheListed pm
    → e.put_fails (mk_prov_key_for e k p) ≡ false
    → e.query_fails k ≡ false
    → e.read_fails (mk_prov_key_for e k p) ≡ false
    → later - now ≤ e.provide_validity
    → contains (handle_get_provs e later (handle_new_prov e pm k p now) k).0 p ≡ true
handle_get_provs-handle_new_prov e pm k p now later c v w f r h =
    rw (handle_new_prov_writes e pm k p now w) (elim (Option-cases (lookup k pm.cache)) [
      | inl n ↦
          let pm' = written e pm k p now in
          let uncached : lookup k pm'.cache ≡ none = rw n n in
          let dk = mk_prov_key_for e k p in
          let there : lookup dk pm'.dstore ≡ some (e.put_varint now) =
            lookup-insert_self pm.dstore dk (e.put_varint now) in
          handle_get_provs_iff e later pm' k p uncached f
          ∙ given_found e later p dk (e.put_varint now) (entries_under e k pm'.dstore)
              (lookup-select _ dk (e.put_varint now) pm'.dstore (c.prefixed _ _) there)
              (fresh_gives e now later k p c r h)
      | inr (ps, s) ↦
          let pm' = written e pm k p now in
          let cached : lookup k pm'.cache ≡ some (set_val ps p now) =
            rw s (lookup-insert_self pm.cache k (set_val ps p now)) in
          ap (λ (l : List PeerId). contains l p)
            (cached_reply e later pm' k (set_val ps p now) cached)
          ∙ (contains-set_val ps p now p (v k ps s) ∙ ground arith)
    ])
