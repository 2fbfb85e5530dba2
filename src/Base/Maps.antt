-- ===== src/Base/Maps.antt =====
-- A Go map with string keys, as an association list in the order in which `range` would visit it.
use Prim.Native.String.{String}
use mathlib.Core.Path.{◌≡◌, refl}
use mathlib.Core.Logic.{◌≢◌, ◌⊎◌}
use mathlib.Core.Option.{Option, none, some}
use mathlib.Core.List.{List, [], ◌∷◌}
use text.Mathlib.Text.{◌==◌}
use text.Mathlib.TextEquality.{eq_iff}
use text.Mathlib.TextPositions.{eq_refl}
use native.Mathlib.Omega.{arith}
use review_workflow.Base.Tests.{if◌then◌else◌}

pub String-cases : (a b : String) → (a ≡ b) ⊎ (a ≢ b)
String-cases a b = ground (arith, eq_iff a b)

abbrev pub Dict {ℓ} : Type ℓ → Type ℓ
Dict V = List (String × V)

module _ {ℓ} {V : Type ℓ} where
  -- `v, ok := m[k]`
  unfoldable pub lookup : String → Dict V → Option V
  lookup wanted [] = none
  lookup wanted ((key, value) ∷ rest) =
      let later = lookup wanted rest in if key == wanted then some value else later

  -- `m[k] = v`
  unfoldable pub insert : String → V → Dict V → Dict V
  insert added new [] = (added, new) ∷ []
  insert added new ((key, old) ∷ rest) =
      let later = insert added new rest in
      if key == added then (added, new) ∷ rest else (key, old) ∷ later

  unfoldable pub values : Dict V → List V
  values [] = []
  values ((k, v) ∷ m) = v ∷ values m

  pub lookup-insert :
      (added wanted : String) (new : V) (dict : Dict V)
      → lookup wanted (insert added new dict)
        ≡ (if added == wanted then some new else lookup wanted dict)
  unfolding insert lookup
  lookup-insert added wanted new [] = refl
  lookup-insert added wanted new ((key, old) ∷ rest) = ground (
    arith,
    lookup-insert added wanted new rest,
    eq_iff key wanted,
    eq_iff key added,
    eq_iff added wanted,
  )

  pub lookup-insert_self : (k : String) (v : V) (m : Dict V) → lookup k (insert k v m) ≡ some v
  lookup-insert_self k v m = simp (lookup-insert, eq_refl)

  pub lookup-insert_ne :
      (k j : String) (v : V) (m : Dict V) → k ≢ j → lookup j (insert k v m) ≡ lookup j m
  lookup-insert_ne k j v m apart = ground (arith, lookup-insert k j v m, eq_iff k j)

  pub lookup-cons_ne :
      (k j : String) (v : V) (m : Dict V) → k ≢ j → lookup j ((k, v) ∷ m) ≡ lookup j m
  unfolding lookup
  lookup-cons_ne k j v m apart = ground (arith, eq_iff k j)

  pub lookup-cons_self : (k : String) (v : V) (m : Dict V) → lookup k ((k, v) ∷ m) ≡ some v
  unfolding lookup
  lookup-cons_self k v m = ground (arith, eq_iff k k)
