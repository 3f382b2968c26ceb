-- ===== src/Base/Dict.antt =====
-- Python's `dict` with number keys: an association list in insertion order, each key once.
use Prim.Native.Nat.{ℕ}
use mathlib.Core.Path.{◌≡◌}
use native.Mathlib.Omega.{arith}
use mathlib.Core.Option.{Option, none, some}
use mathlib.Core.List.{List, [], ◌∷◌}
use sc_adat_appliance.Base.Tests.{◌==◌, if◌then◌else◌}

module _ {ℓ} {A : Type ℓ} where
  -- `d.get(key)`
  unfoldable pub get : ℕ → List (ℕ × A) → Option A
  get k [] = none
  get k ((j, v) ∷ rest) = let later = get k rest in if j == k then some v else later

  -- `d[key] = value`
  unfoldable pub put : ℕ → A → List (ℕ × A) → List (ℕ × A)
  put k v [] = (k, v) ∷ []
  put k v ((j, w) ∷ rest) =
      let later = put k v rest in if j == k then (k, v) ∷ rest else (j, w) ∷ later

  -- `d.pop(key, None)`, for the dictionary that is left.
  unfoldable pub pop : ℕ → List (ℕ × A) → List (ℕ × A)
  pop k [] = []
  pop k ((j, w) ∷ rest) = let later = pop k rest in if j == k then rest else (j, w) ∷ later

-- `d.get(key, default)`
abbrev pub or_default {ℓ} : {A : Type ℓ} → A → Option A → A
or_default d none = d
or_default d (some a) = a

-- A dictionary with one key.
module _ {ℓ} {A : Type ℓ} (k : ℕ) (v w : A) where
  pub get_one : get k ((k, v) ∷ []) ≡ some v
  unfolding get
  get_one = ground arith

  pub put_one : put k w ((k, v) ∷ []) ≡ (k, w) ∷ []
  unfolding put
  put_one = ground arith

  pub pop_one : pop k ((k, v) ∷ []) ≡ []
  unfolding pop
  pop_one = ground arith
