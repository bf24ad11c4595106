-- ===== src/Registration/Producers/Correct.antt =====
-- RemoveTopicProducer takes out one registration, and keeps the others in some order.
use Prim.Native.String.{String}
use mathlib.Core.List.Perm
use mathlib.Core.List.{Perm}
use nsq.Base.{
  ◌≡◌, ◌≢◌, inl, inr, refl, sym, Bool, true, false, List, [], ◌∷◌, if◌then◌else◌, Bool-cases,
}
use nsq.Base.Dict.{same, same_iff, get}
use nsq.Base.Members.{exists}
use nsq.Registration.{TopicProducerReg, RegistrationDb, or_empty}
use nsq.Registration.Channels.Correct.{or_empty-put_or_delete}
use nsq.Registration.Producers.{
  is_reg, last_of, but_last, overwrite, swap_out, remove_topic_producer,
}

module _ {A : Type 0} where
  -- The first that passes is `x`; `before` has the others in their order.
  abbrev pub without_first : (A → Bool) → List A → List A
  without_first p [] = []
  without_first p (x ∷ xs) = let rest = without_first p xs in if p x then xs else x ∷ rest

  no_first : (p : A → Bool) (xs : List A) → exists p xs ≡ false → without_first p xs ≡ xs
  unfolding exists
  no_first p [] h = refl
  no_first p (x ∷ xs) h = elim (Bool-cases (p x)) [
    | inl on ↦ absurd (cc (rw on at h))
    | inr off ↦ rw (off, no_first p xs (rw off at h)) refl
  ]

  last_first : (x : A) (xs : List A) → Perm (last_of x xs ∷ but_last (x ∷ xs)) (x ∷ xs)
  last_first x [] = Perm.refl _
  last_first x (y ∷ xs) = Perm.trans (Perm.swap _ _ _) (Perm.cons x (last_first y xs))

  but_last-overwrite :
      (p : A → Bool) (v x y : A) (ys : List A)
      → but_last (x ∷ overwrite p v (y ∷ ys)) ≡ x ∷ but_last (overwrite p v (y ∷ ys))
  but_last-overwrite p v x y ys = elim (Bool-cases (p y)) [
    | inl on ↦ rw on refl
    | inr off ↦ rw off refl
  ]

  swap_out_perm :
      (p : A → Bool) (xs : List A) → exists p xs ≡ true → Perm (swap_out p xs) (without_first p xs)
  unfolding exists
  swap_out_perm p [] h = Perm.refl _
  swap_out_perm p (x ∷ []) h = elim (Bool-cases (p x)) [
    | inl on ↦ rw on (Perm.refl _)
    | inr off ↦ absurd (cc (rw off at h))
  ]
  swap_out_perm p (x ∷ y ∷ ys) h = elim (Bool-cases (p x)) [
    | inl on ↦ rw on (last_first y ys)
    | inr off ↦
        let rest = swap_out_perm p (y ∷ ys) (rw off at h) in
        let keep : but_last (x ∷ overwrite p (last_of y ys) (y ∷ ys)) ≡ x ∷ swap_out p (y ∷ ys) =
          but_last-overwrite p (last_of y ys) x y ys in
        rw (off, keep) (Perm.cons x rest)
  ]

abbrev pub producers : String → RegistrationDb → List TopicProducerReg
producers topic db = or_empty (get topic db.registration_topic_map)

-- RemoveTopicProducer. If no registration of the topic has the partition and the node it returns
-- false and changes nothing. Otherwise it returns true, the topic has, in some order, its
-- registrations less the first such, and those of every other topic stay.
pub remove_topic_producer_correct :
    (topic pid id : String) (db : RegistrationDb)
    → (let p = is_reg pid id in
        let (db', removed) = remove_topic_producer topic pid id db in
        (removed ≡ exists p (producers topic db))
        × (removed ≡ false → db' ≡ db)
        × Perm (producers topic db') (without_first p (producers topic db))
        × ((t : String) → t ≢ topic → producers t db' ≡ producers t db))
unfolding remove_topic_producer
remove_topic_producer_correct topic pid id db =
    let p = is_reg pid id in
    let m = db.registration_topic_map in
    let old = producers topic db in
    let same_topic : same topic topic ≡ true = (same_iff topic topic).1 refl in
    elim (Bool-cases (exists p old)) [
      | inr none_there ↦
          rw none_there
            (refl, λ e. refl, rw (no_first p old none_there) (Perm.refl _), λ t ne. refl)
      | inl one_there ↦ rw one_there (
        refl,
        λ e. absurd (cc e),
        rw (or_empty-put_or_delete topic topic (swap_out p old) m, same_topic)
            (swap_out_perm p old one_there),
        λ t ne. rw (or_empty-put_or_delete topic t (swap_out p old) m, other t ne) refl,
      )
    ]
  where
    other : (t : String) → t ≢ topic → same topic t ≡ false
    other t ne = elim (Bool-cases (same topic t)) [
      | inl e ↦ absurd (ne (sym ((same_iff topic t).0 e)))
      | inr e ↦ e
    ]
