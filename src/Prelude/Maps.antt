-- ===== src/Prelude/Maps.antt =====
-- std::map with text keys: an association list in the order of its keys.
use Prim.Native.String.{String, compare}
use mathlib.Core.Path.{◌≡◌}
use mathlib.Core.Bool.{Bool}
use mathlib.Core.Option.{Option, none, some}
use mathlib.Core.List.{List, [], ◌∷◌}
use native.Mathlib.Omega.{arith}
use text.Mathlib.Text.{◌==◌, is_lt}
use text.Mathlib.TextEquality.{eq_iff}
use rockchip_android_system.Prelude.Tests.{if◌then◌else◌}

abbrev pub precedes : String → String → Bool
precedes s t = is_lt (compare s t)

module _ {ℓ} {V : Type ℓ} where
  -- `m.find(k)`.
  unfoldable pub find : String → List (String × V) → Option V
  find k [] = none
  find k ((j, v) ∷ m) = if j == k then some v else find k m

  -- `m[k] = v` at a key that is not there.
  unfoldable pub insert : String → V → List (String × V) → List (String × V)
  insert k v [] = (k, v) ∷ []
  insert k v ((j, w) ∷ m) =
      if j == k
      then (k, v) ∷ m
      else if precedes k j
      then (k, v) ∷ (j, w) ∷ m
      else (j, w) ∷ insert k v m

  -- A write through a reference to the value at `k`.
  unfoldable pub update : String → V → List (String × V) → List (String × V)
  update k v [] = []
  update k v ((j, w) ∷ m) = if j == k then (j, v) ∷ m else (j, w) ∷ update k v m

  -- `m.erase(k)`.
  unfoldable pub erase : String → List (String × V) → List (String × V)
  erase k [] = []
  erase k ((j, w) ∷ m) = if j == k then m else (j, w) ∷ erase k m

  pub find-insert_self :
      (k : String) (v : V) (m : List (String × V)) → find k (insert k v m) ≡ some v
  unfolding find insert
  find-insert_self k v [] = ground (arith, eq_iff k k)
  find-insert_self k v ((j, w) ∷ m) = ground (arith, eq_iff k k, eq_iff j k, find-insert_self k v m)

  abbrev pub keys : List (String × V) → List String
  keys [] = []
  keys ((k, v) ∷ m) = k ∷ keys m
