-- ===== src/Base/Map.antt =====
-- Go's maps with integer keys, as association lists. `insert` replaces, and a loop over a map takes
-- the entries in the list's order.
use Prim.Native.Nat.{ℕ}
use mathlib.Core.Path.{◌≡◌}
use mathlib.Core.Option.{Option, none, some}
use mathlib.Core.List.{List, [], ◌∷◌}
use native.Mathlib.Omega.{arith}
use mathlib.Core.Logic.{◌⊎◌, inl, inr}
use nsq.Base.Tests.{◌==◌, if◌then◌else◌, Bool-cases}

abbrev pub Map : Type 0 → Type 0
Map V = List (ℕ × V)

abbrev pub Has : ℕ → List ℕ → Type 0
Has k [] = ⊥
Has k (j ∷ js) = (k ≡ j) ⊎ Has k js

module _ {V : Type 0} where
  unfoldable pub find : ℕ → Map V → Option V
  find k [] = none
  find k ((j, v) ∷ m) = if j == k then some v else find k m

  unfoldable pub erase : ℕ → Map V → Map V
  erase k [] = []
  erase k ((j, v) ∷ m) = if j == k then erase k m else (j, v) ∷ erase k m

  unfoldable pub insert : ℕ → V → Map V → Map V
  insert k v m = (k, v) ∷ erase k m

  pub find-erase : (k j : ℕ) (m : Map V) → find j (erase k m) ≡ (if k == j then none else find j m)
  unfolding find erase
  find-erase k j [] = ground arith
  find-erase k j ((i, v) ∷ m) = ground (arith, find-erase k j m)

  pub find-insert :
      (k j : ℕ) (v : V) (m : Map V) → find j (insert k v m) ≡ (if k == j then some v else find j m)
  unfolding find insert
  find-insert k j v m = ground (arith, find-erase k j m)

  unfoldable pub keys : Map V → List ℕ
  keys [] = []
  keys ((k, v) ∷ m) = k ∷ keys m

  -- A key that is found is among the keys.
  pub keys_complete : (k : ℕ) (v : V) (m : Map V) → find k m ≡ some v → Has k (keys m)
  unfolding find keys
  keys_complete k v [] e = cc
  keys_complete k v ((j, u) ∷ m) e = elim (Bool-cases (j == k)) [
    | inl same ↦ inl (ground arith)
    | inr other ↦ inr (keys_complete k v m (rw other at e))
  ]
