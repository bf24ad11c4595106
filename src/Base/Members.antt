-- ===== src/Base/Members.antt =====
-- Membership, and what a filter and a test over a list find.
use mathlib.Core.Path.{◌≡◌, refl, sym, ap, ◌∙◌}
use mathlib.Core.Logic.{◌⊎◌, ◌↔◌, inl, inr}
use mathlib.Core.Bool.{Bool, true, false}
use mathlib.Core.List.{List, [], ◌∷◌, ◌++◌}
use nsq.Base.Tests.{if◌then◌else◌, Bool-cases}

module _ {A : Type 0} where
  abbrev pub In : A → List A → Type 0
  In x [] = ⊥
  In x (y ∷ s) = (x ≡ y) ⊎ In x s

  abbrev pub IsUnique : List A → Type 0
  IsUnique [] = Unit {0}
  IsUnique (y ∷ s) = (¬ In y s) × IsUnique s

  pub In-last : (x a : A) (s : List A) → In x (s ++ (a ∷ [])) ↔ (In x s ⊎ (x ≡ a))
  In-last x a s = (there s, back s)
    where
      there : (s : List A) → In x (s ++ (a ∷ [])) → In x s ⊎ (x ≡ a)
      there [] (inl e) = inr e
      there [] (inr h) = elim h [ ]
      there (y ∷ s) (inl e) = inl (inl e)
      there (y ∷ s) (inr h) = elim (there s h) [ inl q ↦ inl (inr q) | inr e ↦ inr e ]

      back : (s : List A) → In x s ⊎ (x ≡ a) → In x (s ++ (a ∷ []))
      back [] (inl h) = elim h [ ]
      back [] (inr e) = inl e
      back (y ∷ s) (inl (inl e)) = inl e
      back (y ∷ s) (inl (inr h)) = inr (back s (inl h))
      back (y ∷ s) (inr e) = inr (back s (inr e))

  pub last-IsUnique : (a : A) (s : List A) → IsUnique s → ¬ In a s → IsUnique (s ++ (a ∷ []))
  last-IsUnique a [] u new = (λ h. h, tt)
  last-IsUnique a (y ∷ s) u new = (
    λ h. elim ((In-last y a s).0 h) [ inl q ↦ u.0 q | inr e ↦ new (inl (sym e)) ],
    last-IsUnique a s u.1 (λ h. new (inr h)),
  )

  -- The entries that pass a test, and whether there is one.
  unfoldable pub filter : (A → Bool) → List A → List A
  filter p [] = []
  filter p (x ∷ xs) = let rest = filter p xs in if p x then x ∷ rest else rest

  unfoldable pub exists : (A → Bool) → List A → Bool
  exists p [] = false
  exists p (x ∷ xs) = let rest = exists p xs in if p x then true else rest

  filtered : (p : A → Bool) (x : A) (xs : List A) → In x (filter p xs) → In x xs × (p x ≡ true)
  unfolding filter
  filtered p x [] h = elim h [ ]
  filtered p x (y ∷ ys) h = elim (Bool-cases (p y)) [
    | inl on ↦
        let h' : In x (y ∷ filter p ys) = rw on at h in
        elim h' [
          | inl e ↦ (inl e, rw e on)
          | inr m ↦ let (m', e) = filtered p x ys m in (inr m', e)
        ]
    | inr off ↦ let (m, e) = filtered p x ys (rw off at h) in (inr m, e)
  ]

  passed : (p : A → Bool) (x : A) (xs : List A) → In x xs → p x ≡ true → In x (filter p xs)
  unfolding filter
  passed p x [] h e = h
  passed p x (y ∷ ys) (inl q) e = let on : p y ≡ true = ap p (sym q) ∙ e in rw on (inl q)
  passed p x (y ∷ ys) (inr h) e = elim (Bool-cases (p y)) [
    | inl on ↦ rw on (inr (passed p x ys h e))
    | inr off ↦ rw off (passed p x ys h e)
  ]

  pub In-filter :
      (p : A → Bool) (x : A) (xs : List A) → In x (filter p xs) ↔ (In x xs × (p x ≡ true))
  In-filter p x xs = (filtered p x xs, λ h. passed p x xs h.0 h.1)

  pub filter-IsUnique : (p : A → Bool) (xs : List A) → IsUnique xs → IsUnique (filter p xs)
  unfolding filter
  filter-IsUnique p [] u = u
  filter-IsUnique p (x ∷ xs) u = elim (Bool-cases (p x)) [
    | inl on ↦ rw on (λ h. u.0 ((In-filter p x xs).0 h).0, filter-IsUnique p xs u.1)
    | inr off ↦ rw off (filter-IsUnique p xs u.1)
  ]

  pub exists_sound :
      (p : A → Bool) (xs : List A) → exists p xs ≡ true → (x : A) × In x xs × (p x ≡ true)
  unfolding exists
  exists_sound p [] h = absurd (cc h)
  exists_sound p (x ∷ xs) h = elim (Bool-cases (p x)) [
    | inl on ↦ (x, inl refl, on)
    | inr off ↦ let (y, m, e) = exists_sound p xs (rw off at h) in (y, inr m, e)
  ]

  pub none_pass : (p : A → Bool) (xs : List A) (x : A) → exists p xs ≡ false → In x xs → p x ≡ false
  unfolding exists
  none_pass p [] x h m = elim m [ ]
  none_pass p (y ∷ ys) x h m = elim (Bool-cases (p y)) [
    | inl on ↦ absurd (cc (rw on at h))
    | inr off ↦ elim m [ inl e ↦ rw e off | inr m' ↦ none_pass p ys x (rw off at h) m' ]
  ]
