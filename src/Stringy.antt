-- ===== src/Stringy.antt =====
-- internal/stringy/slice.go: slices of strings as sets. A string is a value of any type with a test
-- for equality.
mod Tests
use nsq.Base.Members.{In, IsUnique, In-last, last-IsUnique}
use nsq.Base.{
  ℕ, ◌≡◌, ◌≢◌, ◌⊎◌, ◌↔◌, inl, inr, refl, sym, ◌∙◌, Bool, true, false, List, [], ◌∷◌, ◌++◌,
  if◌then◌else◌, Bool-cases,
}

module _ {A : Type 0} where
  module _ (same : A → A → Bool) where
    -- The search for an entry, which Add, Union and Uniq each write out.
    unfoldable pub found : A → List A → Bool
    found a [] = false
    found a (existing ∷ s) = let rest = found a s in if same a existing then true else rest

    unfoldable pub add : List A → A → List A
    add s a = if found a s then s else s ++ (a ∷ [])

    unfoldable pub union : List A → List A → List A
    union s [] = s
    union s (entry ∷ a) = union (if found entry s then s else s ++ (entry ∷ [])) a

    -- Uniq is the loop of Union, from the empty slice.
    unfoldable pub uniq : List A → List A
    uniq s = union [] s

    module _ (law : (x y : A) → (same x y ≡ true) ↔ (x ≡ y)) where
      found_sound : (a : A) (s : List A) → found a s ≡ true → In a s
      unfolding found
      found_sound a [] e = absurd (cc e)
      found_sound a (y ∷ s) e = elim (Bool-cases (same a y)) [
        | inl here ↦ inl ((law a y).0 here)
        | inr later ↦ inr (found_sound a s (rw later at e))
      ]

      found_complete : (a : A) (s : List A) → In a s → found a s ≡ true
      unfolding found
      found_complete a [] h = elim h [ ]
      found_complete a (y ∷ s) (inl e) = rw ((law a y).1 e) refl
      found_complete a (y ∷ s) (inr h) = elim (Bool-cases (same a y)) [
        | inl here ↦ rw here refl
        | inr later ↦ rw later (found_complete a s h)
      ]

      -- Add keeps the entries unique, and adds the one given and no other.
      pub add_correct :
          (s : List A) (a : A)
          → IsUnique s
          → IsUnique (add s a) × ((x : A) → In x (add s a) ↔ (In x s ⊎ (x ≡ a)))
      unfolding add
      add_correct s a u = elim (Bool-cases (found a s)) [
        | inl old ↦ rw old (u, λ x. (λ h. inl h, old_back x (found_sound a s old)))
        | inr new ↦
            rw new (last-IsUnique a s u (λ h. cc (found_complete a s h, new)), λ x. In-last x a s)
      ]
        where
          old_back : (x : A) → In a s → In x s ⊎ (x ≡ a) → In x s
          old_back x here (inl h) = h
          old_back x here (inr e) = rw e here

      -- Union keeps the entries unique, if those of the first slice are, and has the entries of both.
      pub union_correct :
          (s a : List A)
          → IsUnique s
          → IsUnique (union s a) × ((x : A) → In x (union s a) ↔ (In x s ⊎ In x a))
      unfolding union add
      union_correct s [] u = (u, λ x. (λ h. inl h, back x))
        where
          back : (x : A) → In x s ⊎ In x [] → In x s
          back x (inl h) = h
          back x (inr h) = elim h [ ]
      union_correct s (entry ∷ a) u =
          let (u1, has1) = add_correct s entry u in
          let (u2, has2) = union_correct (add s entry) a u1 in
          (
            u2,
            λ x. (
              λ h. elim ((has2 x).0 h) [
                | inl q ↦ elim ((has1 x).0 q) [ inl p ↦ inl p | inr e ↦ inr (inl e) ]
                | inr q ↦ inr (inr q)
              ],
              λ h. elim h [
                | inl p ↦ (has2 x).1 (inl ((has1 x).1 (inl p)))
                | inr q ↦ elim q [
                  | inl e ↦ (has2 x).1 (inl ((has1 x).1 (inr e)))
                  | inr r ↦ (has2 x).1 (inr r)
                ]
              ],
            ),
          )

      -- Uniq has the entries of the slice, each once.
      pub uniq_correct : (s : List A) → IsUnique (uniq s) × ((x : A) → In x (uniq s) ↔ In x s)
      unfolding uniq
      uniq_correct s =
          let (u, has) = union_correct [] s tt in
          (
            u,
            λ x. (λ h. elim ((has x).0 h) [ inl q ↦ absurd q | inr q ↦ q ], λ h. (has x).1 (inr h)),
          )
