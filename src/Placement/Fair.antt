-- ===== src/Placement/Fair.antt =====
-- The rows hold distinct nodes, and the nodes lead as many partitions as one another, up to one.
use Prim.Native.String.{String}
use native.Mathlib.Nat.{mod-lt, zero-div, zero-mod}
use nsq.Base.{
  ℕ, zero, suc, ◌+◌, ◌%◌, ◌≤◌, ◌<◌, ◌≡◌, inl, inr, refl, sym, ap, subst, ◌∙◌, arith, true, List, [],
  ◌∷◌, length, get_or, ◌==◌, if◌then◌else◌, Bool-cases,
}
use nsq.Base.Bytes.{ok}
use nsq.Base.Dict.{same, same_iff}
use nsq.Base.Members.{In, IsUnique}
use nsq.Placement.{sort, row, rows, rebalanced, nodes_of}
use nsq.Placement.Balance.{rebalanced_enough, nodes_of-rows, In-sort, sort-IsUnique, length-sort}
use nsq.Placement.Cycle.{passed, passed-step, passed_close, remainders_differ}

In-get_or : (names : List String) (k : ℕ) → k < length names → In (get_or names k "") names
In-get_or [] k below = absurd (omega (arith, below))
In-get_or (x ∷ xs) zero below = inl refl
In-get_or (x ∷ xs) (suc k) below = inr (In-get_or xs k (omega (arith, below)))

index_of :
    (x : String) (names : List String)
    → In x names
    → (k : ℕ) × (k < length names) × (get_or names k "" ≡ x)
index_of x [] m = elim m [ ]
index_of x (y ∷ ys) (inl e) = (0, omega arith, sym e)
index_of x (y ∷ ys) (inr m) =
    let (k, below, e) = index_of x ys m in (suc k, omega (arith, below), e)

get_or_injective :
    (names : List String) (j k : ℕ)
    → IsUnique names
    → j < length names
    → k < length names
    → get_or names j "" ≡ get_or names k ""
    → j ≡ k
get_or_injective [] j k u lj lk e = absurd (omega (arith, lj))
get_or_injective (x ∷ xs) zero zero u lj lk e = refl
get_or_injective (x ∷ xs) zero (suc k) u lj lk e =
    absurd (u.0 (subst (λ y. In y xs) (sym e) (In-get_or xs k (omega (arith, lk)))))
get_or_injective (x ∷ xs) (suc j) zero u lj lk e =
    absurd (u.0 (subst (λ y. In y xs) e (In-get_or xs j (omega (arith, lj)))))
get_or_injective (x ∷ xs) (suc j) (suc k) u lj lk e =
    ap suc (get_or_injective xs j k u.1 (omega (arith, lj)) (omega (arith, lk)) e)

In-row :
    (x : String) (names : List String) (i count : ℕ)
    → In x (row names i count)
    → (d : ℕ) × (d < count) × (x ≡ get_or names ((i + d) % length names) "")
unfolding row
In-row x names i zero m = elim m [ ]
In-row x names i (suc count) (inl e) =
    (0, omega arith, e ∙ ap (λ j. get_or names (j % length names) "") (omega arith))
In-row x names i (suc count) (inr m) =
    let (d, below, e) = In-row x names (i + 1) count m in
    (suc d, omega (arith, below), e ∙ ap (λ j. get_or names (j % length names) "") (omega arith))

row-IsUnique :
    (names : List String) (i count : ℕ)
    → IsUnique names
    → count ≤ length names
    → IsUnique (row names i count)
unfolding row
row-IsUnique names i zero u enough = tt
row-IsUnique names i (suc count) u enough = (
  λ m.
      let (d, below, e) = In-row _ names (i + 1) count m in
      remainders_differ (length names) i d (omega (arith, below, enough)) (
        get_or_injective names _ _ u (mod-lt i (omega (arith, enough)))
          (mod-lt (i + 1 + d) (omega (arith, enough))) e),
  row-IsUnique names (i + 1) count u (omega (arith, enough)),
)

length-row : (names : List String) (i count : ℕ) → length (row names i count) ≡ count
unfolding row
length-row names i zero = refl
length-row names i (suc count) = ap suc (length-row names (i + 1) count)

pub In-row_sort :
    (x : String) (nodes : List String) (i count : ℕ)
    → count ≤ length nodes
    → In x (row (sort nodes) i count)
    → In x nodes
In-row_sort x nodes i count enough m =
    let names = sort nodes in
    let (d, below, e) = In-row x names i count m in
    let at : (i + d) % length names < length names =
      mod-lt (i + d) (omega (arith, below, enough, length-sort nodes)) in
    (In-sort x nodes).0 (subst (λ y. In y names) (sym e) (In-get_or names _ at))

-- With distinct nodes, and as many as there are to be replicas: every partition gets as many
-- nodes as it is to have replicas, all distinct and all of them current.
pub rebalanced_correct :
    (partition_num replica : ℕ) (nodes : List String)
    → IsUnique nodes
    → replica ≤ length nodes
    → (all : List (List String)) × (rebalanced partition_num replica nodes ≡ ok all)
      × ((p : ℕ)
          → p < partition_num
          → (ns : List String) × (nodes_of p all ≡ ok ns)
            × (length ns ≡ replica)
            × IsUnique ns
            × ((x : String) → In x ns → In x nodes))
rebalanced_correct partition_num replica nodes u enough =
    let names = sort nodes in
    let fits : replica ≤ length names = omega (arith, enough, length-sort nodes) in
    (
      rows names replica 0 partition_num,
      rebalanced_enough partition_num replica nodes enough,
      λ p below. (
        row names p replica,
        nodes_of-rows names replica partition_num p below,
        length-row names p replica,
        row-IsUnique names p replica (sort-IsUnique nodes u) fits,
        λ x m. In-row_sort x nodes p replica enough m,
      ),
    )

-- How many of the partitions a node leads: the first of a partition's nodes is the leader.
unfoldable pub leads : String → List (List String) → ℕ
leads n [] = 0
leads n ([] ∷ all) = leads n all
leads n ((m ∷ ns) ∷ all) = let rest = leads n all in if same n m then 1 + rest else rest

leads-rows :
    (names : List String) (k replica i count : ℕ)
    → IsUnique names
    → k < length names
    → leads (get_or names k "") (rows names (suc replica) i count) + passed (length names) k i
      ≡ passed (length names) k (i + count)
unfolding leads rows row
leads-rows names k replica i zero u below =
    let still : passed (length names) k i ≡ passed (length names) k (i + 0) =
      ap (passed (length names) k) (omega arith) in
    omega (arith, still)
leads-rows names k replica i (suc count) u below =
    let rest = leads-rows names k replica (i + 1) count u below in
    let step = passed-step (length names) k i below in
    let move : passed (length names) k (i + 1 + count) ≡ passed (length names) k (i + suc count) =
      ap (passed (length names) k) (omega arith) in
    elim (Bool-cases (same (get_or names k "") (get_or names (i % length names) ""))) [
      | inl on ↦ rw on (
          let here : k ≡ i % length names =
            get_or_injective names k _ u below (mod-lt i (omega (arith, below)))
              ((same_iff _ _).0 on) in
          let counted : ◌≡◌ {A = ℕ} (if k == i % length names then 1 else 0) 1 =
            ground (arith, here) in
          omega (arith, rest, move, step, counted))
      | inr off ↦ rw off (
          let counted : ◌≡◌ {A = ℕ} (if k == i % length names then 1 else 0) 0 =
            elim (Bool-cases (k == i % length names)) [
              | inl on ↦
                  absurd (cc ((same_iff _ _).1 (ap (λ j. get_or names j "") (is_same k _ on)), off))
              | inr apart ↦ rw apart refl
            ] in
          omega (arith, rest, move, step, counted))
    ]
  where
    is_same : (a b : ℕ) → a == b ≡ true → a ≡ b
    is_same a b e = ground (arith, e)

-- With distinct nodes, and as many as there are to be replicas, of which there are some: no node leads more
-- than one partition more than another node does.
pub rebalanced_is_fair :
    (partition_num replica : ℕ) (nodes : List String)
    → IsUnique nodes
    → 0 < replica
    → replica ≤ length nodes
    → (all : List (List String)) × (rebalanced partition_num replica nodes ≡ ok all)
      × ((a b : String) → In a nodes → In b nodes → leads a all ≤ leads b all + 1)
rebalanced_is_fair partition_num zero nodes u some_replica enough =
    absurd (omega (arith, some_replica))
rebalanced_is_fair partition_num (suc replica) nodes u some_replica enough = (
  all,
  rebalanced_enough partition_num (suc replica) nodes enough,
  λ a b ma mb.
      let (j, lj, ea) = index_of a names ((In-sort a nodes).1 ma) in
      let (k, lk, eb) = index_of b names ((In-sort b nodes).1 mb) in
      let pa = leads-rows names j replica 0 partition_num (sort-IsUnique nodes u) lj in
      let pb = leads-rows names k replica 0 partition_num (sort-IsUnique nodes u) lk in
      let none_before : passed (length names) k 0 ≡ 0 =
        rw (zero-div (length names), zero-mod (length names)) (ground arith) in
      subst (λ x. leads x all ≤ leads b all + 1) ea
        (subst (λ y. leads (get_or names j "") all ≤ leads y all + 1) eb
          (omega
            (arith, pa, pb, none_before, passed_close (length names) j k (0 + partition_num)))),
)
  where
    names : List String
    names = sort nodes

    all : List (List String)
    all = rows names (suc replica) 0 partition_num
