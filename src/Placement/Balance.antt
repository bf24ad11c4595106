-- ===== src/Placement/Balance.antt =====
-- The rows of nodes that an ordered topic's partitions get.
use Prim.Native.String.{String}
use nsq.Base.{
  ℕ, zero, suc, ◌+◌, ◌≤◌, ◌<◌, ◌≡◌, refl, sym, ap, subst, ◌∙◌, arith, true, false, some, List, [],
  ◌∷◌, length, get_elem?, ltb, ◌⊎◌, ◌↔◌, inl, inr, Bool-cases,
}
use nsq.Base.Bytes.{ok}
use nsq.Base.Dict.{same, same_iff}
use nsq.Base.Members.{In, IsUnique, exists, exists_sound, none_pass}
use nsq.Placement.{
  less, insert_sorted, sort, row, rows, rebalanced_from_names, rebalanced, nodes_of,
}

-- The test for membership decides it.
pub in_list : (n : String) (names : List String) → exists (same n) names ≡ true → In n names
in_list n names e =
    let (x, m, q) = exists_sound (same n) names e in
    subst (λ y. In y names) (sym ((same_iff n x).0 q)) m

pub not_in_list : (n : String) (names : List String) → exists (same n) names ≡ false → ¬ In n names
not_in_list n names e m = cc ((same_iff n n).1 refl, none_pass (same n) names n e m)

pub get_elem?-rows :
    (names : List String) (replica i count k : ℕ)
    → k < count
    → get_elem? (rows names replica i count) k ≡ some (row names (i + k) replica)
unfolding rows
get_elem?-rows names replica i zero k below = absurd (omega (arith, below))
get_elem?-rows names replica i (suc count) zero below =
    ap (λ j. some (row names j replica)) (omega arith)
get_elem?-rows names replica i (suc count) (suc k) below =
    get_elem?-rows names replica (i + 1) count k (omega (arith, below))
    ∙ ap (λ j. some (row names j replica)) (omega arith)

pub rebalanced_enough :
    (partition_num replica : ℕ) (nodes : List String)
    → replica ≤ length nodes
    → rebalanced partition_num replica nodes ≡ ok (rows (sort nodes) replica 0 partition_num)
unfolding rebalanced rebalanced_from_names
rebalanced_enough partition_num replica nodes enough =
    let fits : ltb (length nodes) replica ≡ false = ground (arith, enough) in rw fits refl

pub nodes_of-rows :
    (names : List String) (replica count partition : ℕ)
    → partition < count
    → nodes_of partition (rows names replica 0 count) ≡ ok (row names partition replica)
nodes_of-rows names replica count partition below =
    rw (get_elem?-rows names replica 0 count partition below)
      (ap (λ j. ok (row names j replica)) (omega arith))

-- Sorting keeps the names, each of them once.
In-insert_sorted :
    (a x : String) (xs : List String) → In a (insert_sorted x xs) ↔ ((a ≡ x) ⊎ In a xs)
In-insert_sorted a x [] = (λ h. h, λ h. h)
In-insert_sorted a x (y ∷ ys) = elim (Bool-cases (less y x)) [
  | inl on ↦ rw on (
    λ h. elim h [
      | inl e ↦ inr (inl e)
      | inr m ↦ elim ((In-insert_sorted a x ys).0 m) [ inl e ↦ inl e | inr r ↦ inr (inr r) ]
    ],
    λ h. elim h [
      | inl e ↦ inr ((In-insert_sorted a x ys).1 (inl e))
      | inr (inl e) ↦ inl e
      | inr (inr m) ↦ inr ((In-insert_sorted a x ys).1 (inr m))
    ],
  )
  | inr off ↦ rw off (λ h. h, λ h. h)
]

insert_sorted-IsUnique :
    (x : String) (xs : List String) → ¬ In x xs → IsUnique xs → IsUnique (insert_sorted x xs)
insert_sorted-IsUnique x [] new u = (new, u)
insert_sorted-IsUnique x (y ∷ ys) new u = elim (Bool-cases (less y x)) [
  | inl on ↦ rw on (
    λ m. elim ((In-insert_sorted y x ys).0 m) [ inl e ↦ new (inl (sym e)) | inr r ↦ u.0 r ],
    insert_sorted-IsUnique x ys (λ m. new (inr m)) u.1,
  )
  | inr off ↦ rw off (new, u)
]

length-insert_sorted :
    (x : String) (xs : List String) → length (insert_sorted x xs) ≡ suc (length xs)
length-insert_sorted x [] = refl
length-insert_sorted x (y ∷ ys) = elim (Bool-cases (less y x)) [
  | inl on ↦ rw on (ap suc (length-insert_sorted x ys))
  | inr off ↦ rw off refl
]

pub In-sort : (a : String) (xs : List String) → In a (sort xs) ↔ In a xs
In-sort a [] = (λ h. h, λ h. h)
In-sort a (x ∷ xs) = (
  λ h. elim ((In-insert_sorted a x (sort xs)).0 h) [
    | inl e ↦ inl e
    | inr m ↦ inr ((In-sort a xs).0 m)
  ],
  λ h.
      (In-insert_sorted a x (sort xs)).1
        (elim h [ inl e ↦ inl e | inr m ↦ inr ((In-sort a xs).1 m) ]),
)

pub sort-IsUnique : (xs : List String) → IsUnique xs → IsUnique (sort xs)
sort-IsUnique [] u = u
sort-IsUnique (x ∷ xs) u =
    insert_sorted-IsUnique x (sort xs) (λ m. u.0 ((In-sort x xs).0 m)) (sort-IsUnique xs u.1)

pub length-sort : (xs : List String) → length (sort xs) ≡ length xs
length-sort [] = refl
length-sort (x ∷ xs) = length-insert_sorted x (sort xs) ∙ ap suc (length-sort xs)
