-- ===== src/Common/Map.antt =====
-- A Go map with string keys: an association list that keeps one entry for each key.
-- The order in which `range` visits the entries is not that of the list; it is a parameter where a
-- loop ranges over a map.
pub mod Keys
use Prim.Native.String.{String}
use mathlib.Core.Path.{◌≡◌, refl}
use mathlib.Core.Option.{Option, none, some}
use mathlib.Core.List.{List, [], ◌∷◌}
use native.Mathlib.Omega.{arith}
use jack_service.Common.Tests.{if◌then◌else◌}
use jack_service.Common.Text.{◌==◌, eq_iff}

abbrev pub Map {ℓ} : Type ℓ → Type ℓ
Map V = List (String × V)

module _ {ℓ} {V : Type ℓ} where
  -- m[k]
  unfoldable pub lookup : String → Map V → Option V
  lookup k [] = none
  lookup k ((j, v) ∷ m) = if j == k then some v else lookup k m

  -- delete(m, k)
  unfoldable pub delete : String → Map V → Map V
  delete k [] = []
  delete k ((j, v) ∷ m) = let rest = delete k m in if j == k then rest else (j, v) ∷ rest

  -- m[k] = v
  unfoldable pub insert : String → V → Map V → Map V
  insert k v m = (k, v) ∷ delete k m

  -- for _, v := range l { m[key(v)] = v }
  unfoldable pub index_by : (V → String) → List V → Map V → Map V
  unfolding insert
  index_by key [] m = m
  index_by key (v ∷ l) m = index_by key l (insert (key v) v m)

  abbrev pub values : Map V → List V
  values [] = []
  values ((k, v) ∷ m) = v ∷ values m

  pub lookup-delete :
      (k j : String) (m : Map V) → lookup j (delete k m) ≡ (if k == j then none else lookup j m)
  unfolding lookup delete
  lookup-delete k j [] = ground arith
  lookup-delete k j ((i, v) ∷ m) =
      ground (arith, lookup-delete k j m, eq_iff i k, eq_iff i j, eq_iff k j)

  pub lookup-insert :
      (k j : String) (v : V) (m : Map V)
      → lookup j (insert k v m) ≡ (if k == j then some v else lookup j m)
  unfolding insert lookup
  lookup-insert k j v m = simp lookup-delete (ground arith)

  -- Deleting an absent key changes nothing.
  pub delete-of_lookup-none : (k : String) (m : Map V) → lookup k m ≡ none → delete k m ≡ m
  unfolding lookup delete
  delete-of_lookup-none k [] h = refl
  delete-of_lookup-none k ((j, v) ∷ m) h = ground (arith, delete-of_lookup-none k m)

  -- A new key that is deleted again leaves the map as it was.
  pub delete-insert :
      (k : String) (v : V) (m : Map V) → lookup k m ≡ none → delete k (insert k v m) ≡ m
  unfolding insert delete lookup
  delete-insert k v m h =
      ground (arith, eq_iff k k, delete-of_lookup-none k m, delete-of_lookup-none k (delete k m))
