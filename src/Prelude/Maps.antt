-- ===== src/Prelude/Maps.antt =====
-- Go maps with number keys, as association lists in which the first entry of a key counts.
use Prim.Native.Nat.{ℕ}
use mathlib.Core.Path.{◌≡◌, refl}
use mathlib.Core.List.{List, [], ◌∷◌}
use mathlib.Core.Option.{Option, none, some}
use native.Mathlib.Omega.{arith}
use go_libp2p_kad_dht.Prelude.Tests.{◌==◌, if◌then◌else◌}

module _ {ℓ} {V : Type ℓ} where
  unfoldable pub lookup : ℕ → List (ℕ × V) → Option V
  lookup k [] = none
  lookup k ((j, v) ∷ entries) = if j == k then some v else lookup k entries

  unfoldable pub insert : ℕ → V → List (ℕ × V) → List (ℕ × V)
  insert k v [] = (k, v) ∷ []
  insert k v ((j, old) ∷ entries) =
      if j == k then (k, v) ∷ entries else (j, old) ∷ insert k v entries

  unfoldable pub delete : ℕ → List (ℕ × V) → List (ℕ × V)
  delete k [] = []
  delete k ((j, old) ∷ entries) =
      let rest = delete k entries in if j == k then rest else (j, old) ∷ rest

  pub lookup-insert :
      (entries : List (ℕ × V)) (k : ℕ) (v : V) (j : ℕ)
      → lookup j (insert k v entries) ≡ (if k == j then some v else lookup j entries)
  unfolding lookup insert
  lookup-insert [] k v j = refl
  lookup-insert ((other, old) ∷ entries) k v j = ground (arith, lookup-insert entries k v j)

  pub lookup-insert_self :
      (entries : List (ℕ × V)) (k : ℕ) (v : V) → lookup k (insert k v entries) ≡ some v
  lookup-insert_self entries k v = ground (arith, lookup-insert entries k v k)

  pub lookup-delete :
      (k j : ℕ) (entries : List (ℕ × V))
      → lookup j (delete k entries) ≡ (if k == j then none else lookup j entries)
  unfolding lookup delete
  lookup-delete k j [] = ground arith
  lookup-delete k j ((other, old) ∷ entries) = ground (arith, lookup-delete k j entries)

  -- No key stands twice.
  abbrev pub UniqueKeys : List (ℕ × V) → Type ℓ
  UniqueKeys [] = Unit
  UniqueKeys ((k, v) ∷ entries) = (lookup k entries ≡ none) × UniqueKeys entries

  pub insert-UniqueKeys :
      (k : ℕ) (v : V) (entries : List (ℕ × V))
      → UniqueKeys entries
      → UniqueKeys (insert k v entries)
  unfolding insert lookup
  insert-UniqueKeys k v [] u = (refl, tt)
  insert-UniqueKeys k v ((j, old) ∷ entries) u =
      ground (arith, insert-UniqueKeys k v entries, lookup-insert entries k v j)

  pub delete-UniqueKeys :
      (k : ℕ) (entries : List (ℕ × V)) → UniqueKeys entries → UniqueKeys (delete k entries)
  unfolding delete
  delete-UniqueKeys k [] u = tt
  delete-UniqueKeys k ((j, old) ∷ entries) u =
      ground (arith, delete-UniqueKeys k entries, lookup-delete k j entries)
