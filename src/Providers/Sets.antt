-- ===== src/Providers/Sets.antt =====
-- provider_set.go, and the loop of loadProviderSet: which providers a set lists.
use go_libp2p_kad_dht.Prelude.{
  contains-append, ℕ, ◌==◌, Option, none, some, List, [], ◌∷◌, Bool, true, false, ◌||◌, ◌≡◌, refl,
  arith, contains,
}
use go_libp2p_kad_dht.Prelude.Maps.{lookup, lookup-insert}
use go_libp2p_kad_dht.Qpeerset.{PeerId}
use go_libp2p_kad_dht.Providers.{ProviderSet, new_provider_set, append_unless_found, set_val}

abbrev pub is_found {ℓ} : {A : Type ℓ} → Option A → Bool
is_found none = false
is_found (some a) = true

-- The list of a set has exactly the peers of its map.
abbrev pub IsListed : ProviderSet → Type 0
IsListed ps = (p : PeerId) → contains ps.providers p ≡ is_found (lookup p ps.set)

appended :
    (o : Option ℕ) (ps : List PeerId) (p q : PeerId)
    → contains ps p ≡ is_found o
    → contains (append_unless_found o ps p) q ≡ ((p == q) || contains ps q)
appended none ps p q h = ground (arith, contains-append ps (p ∷ []) q)
appended (some t) ps p q h = ground arith

pub contains-set_val :
    (ps : ProviderSet) (p : PeerId) (t : ℕ) (q : PeerId)
    → IsListed ps
    → contains (set_val ps p t).providers q ≡ ((p == q) || contains ps.providers q)
unfolding set_val
contains-set_val ps p t q h = appended (lookup p ps.set) ps.providers p q (h p)

pub set_val-IsListed :
    (ps : ProviderSet) (p : PeerId) (t : ℕ) → IsListed ps → IsListed (set_val ps p t)
unfolding set_val
set_val-IsListed ps p t h q =
    ground
      (arith, appended (lookup p ps.set) ps.providers p q (h p), lookup-insert ps.set p t q, h q)

pub new-IsListed : IsListed new_provider_set
unfolding lookup
new-IsListed p = refl
