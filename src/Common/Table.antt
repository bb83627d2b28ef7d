-- ===== src/Common/Table.antt =====
-- A Go map with string keys, as an association list in which a write replaces the old entry.
use mathlib.Core.Path.{◌≡◌, refl}
use mathlib.Core.Option.{Option, none, some}
use mathlib.Core.List.{List, [], ◌∷◌}
use native.Mathlib.Omega.{arith}
use mgl03_homekit_bridge.Common.Tests.{if◌then◌else◌}
use mgl03_homekit_bridge.Common.Text.{Bytes, eq_bytes, eq_bytes_iff, eq_bytes_refl}

module _ {ℓ} {V : Type ℓ} where
  -- `v, ok := m[k]`
  unfoldable pub lookup : Bytes → List (Bytes × V) → Option V
  lookup k [] = none
  lookup k ((j, v) ∷ m) = if eq_bytes j k then some v else lookup k m

  -- `m[k] = v`
  unfoldable pub insert : Bytes → V → List (Bytes × V) → List (Bytes × V)
  insert k v [] = (k, v) ∷ []
  insert k v ((j, w) ∷ m) = if eq_bytes j k then (k, v) ∷ m else (j, w) ∷ insert k v m

  -- `delete(m, k)`
  unfoldable pub delete : Bytes → List (Bytes × V) → List (Bytes × V)
  delete k [] = []
  delete k ((j, w) ∷ m) = if eq_bytes j k then delete k m else (j, w) ∷ delete k m

  pub lookup-insert :
      (j k : Bytes) (v : V) (m : List (Bytes × V))
      → lookup j (insert k v m) ≡ (if eq_bytes k j then some v else lookup j m)
  unfolding lookup insert
  lookup-insert j k v [] = refl
  lookup-insert j k v ((i, w) ∷ m) =
      ground (arith, eq_bytes_iff k j, eq_bytes_iff i k, eq_bytes_iff i j, lookup-insert j k v m)

  pub lookup-delete :
      (j k : Bytes) (m : List (Bytes × V))
      → lookup j (delete k m) ≡ (if eq_bytes k j then none else lookup j m)
  unfolding lookup delete
  lookup-delete j k [] = ground arith
  lookup-delete j k ((i, w) ∷ m) =
      ground (arith, eq_bytes_iff k j, eq_bytes_iff i k, eq_bytes_iff i j, lookup-delete j k m)

  pub lookup-insert_self :
      (k : Bytes) (v : V) (m : List (Bytes × V)) → lookup k (insert k v m) ≡ some v
  lookup-insert_self k v m = simp (lookup-insert, eq_bytes_refl)

  -- The later of two writes to a key counts.
  pub insert_twice :
      (k : Bytes) (v w : V) (m : List (Bytes × V)) → insert k w (insert k v m) ≡ insert k w m
  unfolding insert
  insert_twice k v w [] = rw (eq_bytes_refl k) refl
  insert_twice k v w ((i, x) ∷ m) = ground (arith, eq_bytes_refl k, insert_twice k v w m)
