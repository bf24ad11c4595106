-- ===== src/Channel/Flight/Count.antt =====
-- Maps with distinct keys, and the number of deferred messages among the pointers of such a map.
use nsq.Base.{
  ℕ, ◌+◌, ◌≡◌, refl, ap, arith, none, some, [], ◌∷◌, ◌==◌, if◌then◌else◌, Bool-cases, inl, inr,
  ==_iff,
}
use nsq.Base.Map.{Map, find, insert, erase, find-erase}
use nsq.Channel.Flight.{MessageState, is_deferred}

module _ {V : Type 0} where
  abbrev pub IsDistinct : Map V → Type 0
  IsDistinct [] = Unit {0}
  IsDistinct ((k, v) ∷ m) = (find k m ≡ none) × IsDistinct m

  pub erase-IsDistinct : (k : ℕ) (m : Map V) → IsDistinct m → IsDistinct (erase k m)
  unfolding erase
  erase-IsDistinct k [] d = d
  erase-IsDistinct k ((j, v) ∷ m) d = elim (Bool-cases (j == k)) [
    | inl same ↦ rw same (erase-IsDistinct k m d.1)
    | inr other ↦ rw other (ground (arith, find-erase k j m, d.0), erase-IsDistinct k m d.1)
  ]

  pub insert-IsDistinct : (k : ℕ) (v : V) (m : Map V) → IsDistinct m → IsDistinct (insert k v m)
  unfolding insert
  insert-IsDistinct k v m d = (ground (arith, find-erase k k m), erase-IsDistinct k m d)

  -- Erasing a key that is not there changes nothing.
  pub erase_absent : (k : ℕ) (m : Map V) → find k m ≡ none → erase k m ≡ m
  unfolding erase find
  erase_absent k [] e = refl
  erase_absent k ((j, v) ∷ m) e = elim (Bool-cases (j == k)) [
    | inl same ↦ absurd (ground arith)
    | inr other ↦ rw other (ap (λ n. (j, v) ∷ n) (erase_absent k m (rw other at e)))
  ]

-- One for a deferred message.
abbrev pub weight : MessageState → ℕ
weight m = if is_deferred m then 1 else 0

unfoldable pub deferred_in : (ℕ → MessageState) → Map ℕ → ℕ
deferred_in cells [] = 0
deferred_in cells ((k, p) ∷ m) = weight (cells p) + deferred_in cells m

-- A message that leaves the map takes its own count away.
pub deferred_in-erase :
    (cells : ℕ → MessageState) (k p : ℕ) (m : Map ℕ)
    → IsDistinct m
    → find k m ≡ some p
    → deferred_in cells m ≡ weight (cells p) + deferred_in cells (erase k m)
unfolding deferred_in erase find
deferred_in-erase cells k p [] d e = cc
deferred_in-erase cells k p ((j, q) ∷ m) d e = elim (Bool-cases (j == k)) [
  | inl same ↦
      let gone : erase k m ≡ m = erase_absent k m (ground (arith, d.0)) in
      let it : q ≡ p = ground arith in rw (same, gone, it) refl
  | inr other ↦ rw other (omega (arith, deferred_in-erase cells k p m d.1 (rw other at e)))
]

-- The count reads only the messages in the map.
pub deferred_in-same :
    (cells cells' : ℕ → MessageState) (m : Map ℕ)
    → IsDistinct m
    → ((k p : ℕ) → find k m ≡ some p → weight (cells p) ≡ weight (cells' p))
    → deferred_in cells m ≡ deferred_in cells' m
unfolding deferred_in find
deferred_in-same cells cells' [] d same = refl
deferred_in-same cells cells' ((j, q) ∷ m) d same =
    let head : weight (cells q) ≡ weight (cells' q) = same j q (rw ((==_iff j j).1 refl) refl) in
    let rest = deferred_in-same cells cells' m d.1 (λ k p e. same k p (ground (arith, d.0))) in
    rw (head, rest) refl

pub deferred_in-insert :
    (cells : ℕ → MessageState) (k p : ℕ) (m : Map ℕ)
    → find k m ≡ none
    → deferred_in cells (insert k p m) ≡ weight (cells p) + deferred_in cells m
unfolding deferred_in insert
deferred_in-insert cells k p m e = rw (erase_absent k m e) refl
