-- ===== src/Prelude/Dict.antt =====
-- Go's maps as association lists: at most one entry for a key, a write replaces.
use mathlib.Core.Path.{◌≡◌, refl}
use mathlib.Core.List.{List, [], ◌∷◌}
use mathlib.Core.Option.{Option, none, some}
use native.Mathlib.Omega.{arith}
use mittnite.Prelude.Tests.{Eq, ◌==◌, if◌then◌else◌}

module _ {ℓ κ} {K : Type ℓ} {V : Type κ} ⦃e : Eq K⦄ where
  unfoldable pub lookup : K → List (K × V) → Option V
  lookup key [] = none
  lookup key ((j, held) ∷ rest) = if j == key then some held else lookup key rest

  unfoldable pub erase : K → List (K × V) → List (K × V)
  erase key [] = []
  erase key ((j, held) ∷ entries) =
      let rest = erase key entries in if j == key then rest else (j, held) ∷ rest

  unfoldable pub insert : K → V → List (K × V) → List (K × V)
  insert key value [] = (key, value) ∷ []
  insert key value ((j, held) ∷ rest) =
      if j == key then (key, value) ∷ rest else (j, held) ∷ insert key value rest

  pub lookup-erase :
      (key other : K) (entries : List (K × V))
      → lookup other (erase key entries) ≡ (if key == other then none else lookup other entries)
  unfolding lookup erase
  lookup-erase key other [] = ground arith
  lookup-erase key other ((i, held) ∷ rest) = ground (
    arith,
    e.same_iff key other,
    e.same_iff i key,
    e.same_iff i other,
    lookup-erase key other rest,
  )

  pub lookup-insert :
      (key other : K) (value : V) (entries : List (K × V))
      → lookup other (insert key value entries)
        ≡ (if key == other then some value else lookup other entries)
  unfolding lookup insert
  lookup-insert key other value [] = refl
  lookup-insert key other value ((i, held) ∷ rest) = ground (
    arith,
    e.same_iff i other,
    e.same_iff i key,
    e.same_iff key other,
    lookup-insert key other value rest,
  )
