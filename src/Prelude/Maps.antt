-- ===== src/Prelude/Maps.antt =====
-- Go maps with text keys as association lists with one entry for each key, and Go sets of texts as
-- lists. The order of the entries stands for one run of Go's `range`.
use Prim.Native.String.{String}
use mathlib.Core.Path.{◌≡◌, refl}
use mathlib.Core.Bool.{Bool, false, ◌||◌}
use mathlib.Core.Option.{Option, none, some}
use mathlib.Core.List.{List, [], ◌∷◌}
use native.Mathlib.Omega.{arith}
use text.Mathlib.Text.{◌==◌}
use text.Mathlib.TextEquality.{eq_iff}
use backstop_core.Prelude.Tests.{if◌then◌else◌}

module _ {ℓ} {V : Type ℓ} where
  -- `v, ok := m[k]`
  unfoldable pub lookup : String → List (String × V) → Option V
  lookup k [] = none
  lookup k ((j, v) ∷ m) = if j == k then some v else lookup k m

  -- `m[k] = v`
  unfoldable pub put : String → V → List (String × V) → List (String × V)
  put k v [] = (k, v) ∷ []
  put k v ((j, w) ∷ m) = if j == k then (j, v) ∷ m else (j, w) ∷ put k v m

  pub lookup-put :
      (k j : String) (v : V) (m : List (String × V))
      → lookup j (put k v m) ≡ (if k == j then some v else lookup j m)
  unfolding lookup put
  lookup-put k j v [] = refl
  lookup-put k j v ((i, w) ∷ m) =
      ground (arith, eq_iff i k, eq_iff i j, eq_iff k j, lookup-put k j v m)

-- `delete(m, k)`
unfoldable pub erase {ℓ} : {V : Type ℓ} → String → List (String × V) → List (String × V)
erase k [] = []
erase {V} k ((j, v) ∷ m) = let rest = erase {V = V} k m in if j == k then rest else (j, v) ∷ rest

pub lookup-erase {ℓ} :
    {V : Type ℓ} (k j : String) (m : List (String × V))
    → lookup j (erase k m) ≡ (if k == j then none else lookup j m)
unfolding lookup erase
lookup-erase k j [] = ground arith
lookup-erase k j ((i, w) ∷ m) =
    ground (arith, eq_iff i k, eq_iff i j, eq_iff k j, lookup-erase k j m)

-- `_, ok := set[k]`
unfoldable pub member : String → List String → Bool
member k [] = false
member k (x ∷ xs) = x == k || member k xs
