-- ===== src/Common/StringMap.antt =====
-- A Go map with string keys as an association list. Iteration order is never relied on.
use mathlib.Core.Path.{◌≡◌, refl}
use mathlib.Core.List.{List, [], ◌∷◌}
use mathlib.Core.Option.{Option, none, some}
use native.Mathlib.Omega.{arith}
use cursor_switch.Common.Tests.{if◌then◌else◌}
use cursor_switch.Common.Text.{Text, ◌==◌, text_eq_iff}

abbrev pub StringMap {ℓ} : Type ℓ → Type ℓ
StringMap V = List (Text × V)

module _ {ℓ} {V : Type ℓ} where
  -- `m[key]`
  unfoldable pub lookup : Text → StringMap V → Option V
  lookup key [] = none
  lookup key (entry ∷ rest) = if entry.0 == key then some entry.1 else lookup key rest

  -- `delete(m, key)`
  unfoldable pub delete : Text → StringMap V → StringMap V
  delete key [] = []
  delete key (entry ∷ rest) =
      let kept = delete key rest in if entry.0 == key then kept else entry ∷ kept

  -- `m[key] = value`
  unfoldable pub insert : Text → V → StringMap V → StringMap V
  insert key value [] = (key, value) ∷ []
  insert key value (entry ∷ rest) =
      let changed = insert key value rest in
      if entry.0 == key then (key, value) ∷ rest else entry ∷ changed

  pub lookup-delete :
      (key other : Text) (m : StringMap V)
      → lookup other (delete key m) ≡ (if key == other then none else lookup other m)
  unfolding lookup delete
  lookup-delete key other [] = ground arith
  lookup-delete key other (entry ∷ rest) = ground (
    arith,
    lookup-delete key other rest,
    text_eq_iff entry.0 key,
    text_eq_iff entry.0 other,
    text_eq_iff key other,
  )

  pub lookup-insert :
      (key other : Text) (value : V) (m : StringMap V)
      → lookup other (insert key value m) ≡ (if key == other then some value else lookup other m)
  unfolding lookup insert
  lookup-insert key other value [] = refl
  lookup-insert key other value (entry ∷ rest) = ground (
    arith,
    lookup-insert key other value rest,
    text_eq_iff entry.0 key,
    text_eq_iff entry.0 other,
    text_eq_iff key other,
  )

unfoldable pub map_values {ℓ} : {V W : Type ℓ} → (V → W) → StringMap V → StringMap W
map_values f [] = []
map_values f ((k, v) ∷ m) = (k, f v) ∷ map_values f m
