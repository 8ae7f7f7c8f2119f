-- ===== src/PublicKeys/Matching.antt =====
-- GetPublicKey of records.go: whose key it returns.
use go_libp2p_kad_dht.Prelude.{
  ℕ, ◌==◌, if◌then◌else◌, Option, none, some, Bool, true, false, ◌⊎◌, ◌≡◌, refl, ◌∙◌, ap, inl, inr,
  arith, Bool-cases,
}
use go_libp2p_kad_dht.Qpeerset.{PeerId}
use go_libp2p_kad_dht.Routing.Searching.{GetResult, got, not_found, get_ended, get_value}
use go_libp2p_kad_dht.Routing.Validated.{get_value_valid}
use go_libp2p_kad_dht.PublicKeys.{
  KeyResult, public_key, key_error, KeySources, DhtSearch, from_get, unmarshalled, from_value,
  get_public_key_from_dht, if_matches, matched, local_or, get_public_key_from_node, first_key,
  get_public_key,
}

-- The validator of public keys, as documented: a value is valid for the record key of a peer only if it is
-- a public key of that peer.
abbrev pub IsPublicKeyValidator : KeySources → Type 0
IsPublicKeyValidator e =
    (p : PeerId) (b k : ℕ)
    → e.store.valid (e.pk_key p) b ≡ true
    → e.unmarshal b ≡ some k
    → e.id_of k ≡ some p

-- An error, or the key of the peer, or the one that the peerstore has for it.
abbrev pub IsKeyOf : KeySources → PeerId → KeyResult → Type 0
IsKeyOf e p (public_key k) = (e.pub_key p ≡ some k) ⊎ (e.id_of k ≡ some p)
IsKeyOf e p (key_error x) = Unit

local_or-IsKeyOf :
    (e : KeySources) (p : PeerId) (next : KeyResult)
    → IsKeyOf e p next
    → IsKeyOf e p (local_or (e.pub_key p) next)
local_or-IsKeyOf e p next h = by_store (e.pub_key p) refl
  where
    by_store : (o : Option ℕ) → e.pub_key p ≡ o → IsKeyOf e p (local_or o next)
    by_store none q = h
    by_store (some k) q = inl q

dht-IsKeyOf :
    (e : KeySources) (s : DhtSearch) (p : PeerId)
    → IsPublicKeyValidator e
    → IsKeyOf e p (get_public_key_from_dht e s p)
unfolding get_public_key_from_dht
dht-IsKeyOf e s p t = by_value result refl
  where
    result : GetResult
    result =
        get_value e.store e.datastore e.self e.nil_value (e.pk_key p) 1 s.sent s.delivered s.events
          s.context_error

    by_key :
        (b : ℕ)
        → result ≡ got b
        → (o : Option ℕ) → e.unmarshal b ≡ o
        → IsKeyOf e p (unmarshalled e o)
    by_key b v none u = tt
    by_key b v (some k) u = inr (
        t p b k
          (get_value_valid e.store e.datastore e.self e.nil_value (e.pk_key p) 1 s.sent s.delivered
            s.events s.context_error b v)
          u)

    by_value : (v : GetResult) → result ≡ v → IsKeyOf e p (from_get e v)
    by_value get_ended v = tt
    by_value not_found v = tt
    by_value (got b) v = by_key b v (e.unmarshal b) refl

matched-IsKeyOf : (e : KeySources) (p : PeerId) (r : KeyResult) → IsKeyOf e p (matched e p r)
matched-IsKeyOf e p (key_error x) = tt
matched-IsKeyOf e p (public_key k) = by_id (e.id_of k) refl
  where
    by_id : (o : Option PeerId) → e.id_of k ≡ o → IsKeyOf e p (if_matches e p k o)
    by_id none i = tt
    by_id (some q) i = elim (Bool-cases (q == p)) [
      | inl s ↦ let same : q ≡ p = ground arith in rw s (inr (i ∙ ap some same))
      | inr s ↦ rw s tt
    ]

first_key-IsKeyOf :
    (e : KeySources) (p : PeerId) (a b : KeyResult)
    → IsKeyOf e p a
    → IsKeyOf e p b
    → IsKeyOf e p (first_key a b)
unfolding first_key
first_key-IsKeyOf e p (public_key k) b h l = h
first_key-IsKeyOf e p (key_error x) b h l = l

-- Whichever of the two answers comes first, whatever the peer itself and the peers of the search answer, and
-- however the search ends: GetPublicKey returns an error, or the key that the peerstore has for the peer, or
-- a public key whose ID is the peer, when the validator lets only such keys through.
pub get_public_key-IsKeyOf :
    (e : KeySources) (s : DhtSearch) (enable_values node_first : Bool) (p : PeerId)
    → IsPublicKeyValidator e
    → IsKeyOf e p (get_public_key e s enable_values node_first p)
unfolding get_public_key get_public_key_from_node
get_public_key-IsKeyOf e s false node_first p t = tt
get_public_key-IsKeyOf e s true node_first p t = local_or-IsKeyOf e p _ (in_order node_first)
  where
    node : IsKeyOf e p (get_public_key_from_node e p)
    node = local_or-IsKeyOf e p _ (matched-IsKeyOf e p (from_value e (e.ask_peer p)))

    in_order :
        (b : Bool)
        → IsKeyOf e p (
            if b
            then first_key (get_public_key_from_node e p) (get_public_key_from_dht e s p)
            else first_key (get_public_key_from_dht e s p) (get_public_key_from_node e p))
    in_order true = first_key-IsKeyOf e p _ _ node (dht-IsKeyOf e s p t)
    in_order false = first_key-IsKeyOf e p _ _ (dht-IsKeyOf e s p t) node
