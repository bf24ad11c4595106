-- ===== src/Base/Dict.antt =====
-- Go's maps with string keys, as association lists. A loop over a map takes the entries in the
-- list's order.
use Prim.Native.String.{String}
use mathlib.Core.Path.{◌≡◌, refl}
use mathlib.Core.Logic.{◌↔◌}
use mathlib.Core.Bool.{Bool, true}
use mathlib.Core.Option.{Option, none, some}
use mathlib.Core.List.{List, [], ◌∷◌}
use native.Mathlib.Omega.{arith}
use text.Mathlib.Text.{◌==◌}
use text.Mathlib.TextEquality.{eq_iff}
use nsq.Base.Tests.{if◌then◌else◌}

abbrev pub same : String → String → Bool
same a b = a == b

pub same_iff : (a b : String) → (same a b ≡ true) ↔ (a ≡ b)
same_iff = eq_iff

abbrev pub Dict : Type 0 → Type 0
Dict V = List (String × V)

module _ {V : Type 0} where
  unfoldable pub get : String → Dict V → Option V
  get k [] = none
  get k ((j, v) ∷ m) = if same j k then some v else get k m

  unfoldable pub delete : String → Dict V → Dict V
  delete k [] = []
  delete k ((j, v) ∷ m) = if same j k then delete k m else (j, v) ∷ delete k m

  unfoldable pub put : String → V → Dict V → Dict V
  put k v m = (k, v) ∷ delete k m

  unfoldable pub keys : Dict V → List String
  keys [] = []
  keys ((k, v) ∷ m) = k ∷ keys m

  unfoldable pub values : Dict V → List V
  values [] = []
  values ((k, v) ∷ m) = v ∷ values m

  unfoldable pub map_values : (V → V) → Dict V → Dict V
  map_values f [] = []
  map_values f ((k, v) ∷ m) = (k, f v) ∷ map_values f m

  pub get-delete :
      (k j : String) (m : Dict V) → get j (delete k m) ≡ (if same k j then none else get j m)
  unfolding get delete
  get-delete k j [] = ground arith
  get-delete k j ((i, v) ∷ m) = ground (arith, eq_iff k j, eq_iff i k, eq_iff i j, get-delete k j m)

  pub get-put :
      (k j : String) (v : V) (m : Dict V)
      → get j (put k v m) ≡ (if same k j then some v else get j m)
  unfolding get put
  get-put k j v m = ground (arith, get-delete k j m)

  abbrev pub apply : (V → V) → Option V → Option V
  apply f none = none
  apply f (some v) = some (f v)

  pub get-map_values :
      (f : V → V) (k : String) (m : Dict V) → get k (map_values f m) ≡ apply f (get k m)
  unfolding get map_values
  get-map_values f k [] = refl
  get-map_values f k ((i, v) ∷ m) = ground (arith, get-map_values f k m)
