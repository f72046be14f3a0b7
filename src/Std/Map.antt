-- ===== src/Std/Map.antt =====
-- `HashMap<String, V>` as an association list with text keys. Nothing depends on its order.

use neon_core_atlas.Prelude.{if◌then◌else◌, ◌≡◌, Option, none, some, List, [], ◌∷◌, arith}
use neon_core_atlas.Std.Bytes.{bytes_eq, bytes_eq_iff}
use neon_core_atlas.Std.Text.{Text}

module _ {V : Type 0} where
  unfoldable pub lookup : Text → List (Text × V) → Option V
  lookup k [] = none
  lookup k ((j, v) ∷ m) = if bytes_eq j k then some v else lookup k m

  -- `remove`
  unfoldable pub remove : Text → List (Text × V) → List (Text × V)
  remove k [] = []
  remove k ((j, v) ∷ m) = if bytes_eq j k then remove k m else (j, v) ∷ remove k m

  -- `insert`, and a write through `get_mut`
  unfoldable pub insert : Text → V → List (Text × V) → List (Text × V)
  unfolding remove
  insert k v m = (k, v) ∷ remove k m

  pub lookup-remove :
      (k j : Text) (m : List (Text × V))
      → lookup j (remove k m) ≡ (if bytes_eq k j then none else lookup j m)
  unfolding lookup remove
  lookup-remove k j [] = ground arith
  lookup-remove k j ((i, v) ∷ m) =
      ground (arith, lookup-remove k j m, bytes_eq_iff k j, bytes_eq_iff i k, bytes_eq_iff i j)

  pub lookup-insert :
      (k j : Text) (v : V) (m : List (Text × V))
      → lookup j (insert k v m) ≡ (if bytes_eq k j then some v else lookup j m)
  unfolding lookup insert
  lookup-insert k j v m = ground (arith, lookup-remove k j m)
