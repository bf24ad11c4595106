-- ===== src/Placement/Change.antt =====
-- Which node joins an ordered topic, and which one leaves it.
use Prim.Native.String.{String}
use nsq.Base.{
  ℕ, ◌≤◌, ◌<◌, ◌≡◌, ◌≢◌, ◌⊎◌, inl, inr, refl, sym, subst, Bool, true, false, List, [], ◌∷◌, length,
  Option, none, some, if◌then◌else◌, Bool-cases,
}
use nsq.Base.Bytes.{Outcome, ok, err}
use nsq.Base.Dict.{same, same_iff}
use nsq.Base.Members.{In, exists}
use nsq.Placement.{
  PlaceError, TopicInfo, node_unavailable, sort, row, first_unwanted, decide_unwanted_of_ordered,
  is_current, most_loaded_step, most_loaded, decide_unwanted_isr_node, first_allowed,
  alloc_node_for_ordered_topic,
}
use nsq.Placement.Balance.{rebalanced_enough, nodes_of-rows, in_list, not_in_list}
use nsq.Placement.Fair.{In-row_sort}

-- The nodes that the topic's partition should be on.
abbrev pub wanted : TopicInfo → List String → List String
wanted t nodes = row (sort nodes) t.partition t.replica

-- The node that leaves the ISR: one of its replicas that is not the leader and should not be there,
-- or the empty name when there is none.
pub data Leaves (leader : String) (valid isr : List String) : String → Type 0 where
  leaves : {n : String} → In n isr → n ≢ leader → ¬ In n valid → Leaves leader valid isr n
  all_stay : ((r : String) → In r isr → (r ≡ leader) ⊎ In r valid) → Leaves leader valid isr ""

one_more :
    {leader n x : String} {valid isr : List String}
    → (x ≡ leader) ⊎ In x valid
    → Leaves leader valid isr n
    → Leaves leader valid (x ∷ isr) n
one_more s (leaves m away out) = leaves (inr m) away out
one_more {leader} {x = x} {valid} s (all_stay f) =
    all_stay
      (λ r m. elim m [ inl e ↦ subst (λ y. (y ≡ leader) ⊎ In y valid) (sym e) s | inr q ↦ f r q ])

first_unwanted-Leaves :
    (leader : String) (valid isr : List String)
    → Leaves leader valid isr (first_unwanted leader valid isr)
unfolding first_unwanted
first_unwanted-Leaves leader valid [] = all_stay (λ r m. absurd m)
first_unwanted-Leaves leader valid (n ∷ isr) = elim (Bool-cases (same n leader)) [
  | inl leads ↦
      rw leads
        (one_more (inl ((same_iff n leader).0 leads)) (first_unwanted-Leaves leader valid isr))
  | inr follows ↦ elim (Bool-cases (exists (same n) valid)) [
    | inl fits ↦
        rw (follows, fits)
          (one_more (inr (in_list n valid fits)) (first_unwanted-Leaves leader valid isr))
    | inr off ↦
        rw (follows, off)
          (leaves (inl refl) (λ q. cc ((same_iff n leader).1 q, follows)) (not_in_list n valid off))
  ]
]

-- The node that joins: one of those wanted that is not excluded, or the error when there is none.
pub data Joins (exclude valid : List String) : Outcome PlaceError String → Type 0 where
  joins : {n : String} → In n valid → ¬ In n exclude → Joins exclude valid (ok n)
  all_excluded :
      ((r : String) → In r valid → In r exclude) → Joins exclude valid (err node_unavailable)

passed_over :
    {exclude ns : List String} {n : String} {o : Outcome PlaceError String}
    → In n exclude
    → Joins exclude ns o
    → Joins exclude (n ∷ ns) o
passed_over out (joins m free) = joins (inr m) free
passed_over {exclude} out (all_excluded f) =
    all_excluded (λ r m. elim m [ inl e ↦ subst (λ y. In y exclude) (sym e) out | inr q ↦ f r q ])

first_allowed-Joins :
    (exclude ns : List String)
    → ((x : String) → In x ns → x ≢ "")
    → Joins exclude ns (first_allowed exclude ns)
first_allowed-Joins exclude [] named = all_excluded (λ r m. absurd m)
first_allowed-Joins exclude (n ∷ ns) named = elim (Bool-cases (exists (same n) exclude)) [
  | inl out ↦ rw out (
      passed_over (in_list n exclude out) (first_allowed-Joins exclude ns (λ x m. named x (inr m))))
  | inr free ↦ elim (Bool-cases (same n "")) [
    | inl empty ↦ absurd (named n (inl refl) ((same_iff n "").0 empty))
    | inr filled ↦ rw (free, filled) (joins (inl refl) (not_in_list n exclude free))
  ]
]

-- The nodes have names and are at least as many as the topic wants replicas, and the partition is one of
-- the topic's: the node allocated is one that the partition should be on and is not excluded,
-- and the error is returned only when all of those are excluded.
pub alloc_node_for_ordered_topic_correct :
    (t : TopicInfo) (exclude nodes : List String)
    → ((x : String) → In x nodes → x ≢ "")
    → t.replica ≤ length nodes
    → t.partition < t.partition_num
    → Joins exclude (wanted t nodes) (alloc_node_for_ordered_topic t exclude nodes)
unfolding alloc_node_for_ordered_topic
alloc_node_for_ordered_topic_correct t exclude nodes named enough below =
    let all = rebalanced_enough t.partition_num t.replica nodes enough in
    let ns = nodes_of-rows (sort nodes) t.replica t.partition_num t.partition below in
    rw (all, ns)
      (first_allowed-Joins exclude (wanted t nodes)
        (λ x m. named x (In-row_sort x nodes t.partition t.replica enough m)))

decide_unwanted_of_ordered-Leaves :
    (t : TopicInfo) (nodes : List String)
    → t.replica ≤ length nodes
    → t.partition < t.partition_num
    → (n : String) × (decide_unwanted_of_ordered t nodes ≡ ok n)
      × Leaves t.leader (wanted t nodes) t.isr n
unfolding decide_unwanted_of_ordered
decide_unwanted_of_ordered-Leaves t nodes enough below =
    let all = rebalanced_enough t.partition_num t.replica nodes enough in
    let ns = nodes_of-rows (sort nodes) t.replica t.partition_num t.partition below in
    (_, rw (all, ns) refl, first_unwanted-Leaves t.leader (wanted t nodes) t.isr)

module _ {F : Type 0} (less_load : F → F → Bool) (max_load : F) (load : String → Option F)
    (last_log_id : String → Option ℕ) where
  -- No node, or a replica that is current and is not the leader.
  abbrev pub MayLeave : TopicInfo → List String → String → Type 0
  MayLeave t nodes n = (n ≡ "") ⊎ (In n t.isr × (is_current nodes n ≡ true) × (n ≢ t.leader))

  most_loaded-MayLeave :
      (t : TopicInfo) (nodes isr : List String) (max : F) (unwanted : String)
      → ((x : String) → In x isr → In x t.isr)
      → MayLeave t nodes unwanted
      → MayLeave t nodes
          (most_loaded less_load max_load load last_log_id t.leader nodes isr max unwanted)
  unfolding most_loaded
  most_loaded-MayLeave t nodes [] max unwanted within here = here
  most_loaded-MayLeave t nodes (n ∷ isr) max unwanted within here =
      elim (Bool-cases (same n t.leader)) [
        | inl leads ↦
            rw leads (most_loaded-MayLeave t nodes isr max unwanted (λ x m. within x (inr m)) here)
        | inr follows ↦ elim (Bool-cases (is_current nodes n)) [
          | inl current ↦
              rw (follows, current)
                (most_loaded-MayLeave t nodes isr _ _ (λ x m. within x (inr m))
                  (next (load n)
                    (within n (inl refl), current, λ q. cc ((same_iff n t.leader).1 q, follows))))
          | inr gone ↦ rw (follows, gone) here
        ]
      ]
    where
      next :
          (o : Option F)
          → In n t.isr × (is_current nodes n ≡ true) × (n ≢ t.leader)
          → MayLeave t nodes
              (most_loaded_step less_load max_load load last_log_id n o max unwanted).1
      next none fit = here
      next (some lf) fit = elim (Bool-cases (less_load max lf)) [
        | inl more ↦ rw more (inr fit)
        | inr less ↦ rw less here
      ]

  -- For an ordered topic, there are as many nodes as it wants replicas, and the partition is one of
  -- its partitions. Then the choice does not panic. For an ordered topic it is a replica of the ISR that is not the
  -- leader and that the partition should not be on, or the empty name when there is no such
  -- replica; for another topic it is empty or a replica of the ISR that is current and is not the leader.
  pub decide_unwanted_isr_node_correct :
      (no_load : F) (t : TopicInfo) (nodes : List String)
      → (t.ordered_multi ≡ true → (t.replica ≤ length nodes) × (t.partition < t.partition_num))
      → (n : String) × (decide_unwanted_isr_node less_load max_load load last_log_id no_load t nodes
          ≡ ok n)
        × (t.ordered_multi ≡ true → Leaves t.leader (wanted t nodes) t.isr n)
        × (t.ordered_multi ≡ false → MayLeave t nodes n)
  unfolding decide_unwanted_isr_node
  decide_unwanted_isr_node_correct no_load t nodes placed = by_kind t.ordered_multi refl
    where
      by_kind :
          (o : Bool)
          → t.ordered_multi ≡ o
          → (n : String) × ((if o
                then decide_unwanted_of_ordered t nodes
                else ok (
                    most_loaded less_load max_load load last_log_id t.leader nodes t.isr no_load
                      ""))
              ≡ ok n)
            × (t.ordered_multi ≡ true → Leaves t.leader (wanted t nodes) t.isr n)
            × (t.ordered_multi ≡ false → MayLeave t nodes n)
      by_kind true e =
          let (n, q, w) = decide_unwanted_of_ordered-Leaves t nodes (placed e).0 (placed e).1 in
          (n, q, λ on. w, λ off. absurd (cc (e, off)))
      by_kind false e = (
        _,
        refl,
        λ on. absurd (cc (e, on)),
        λ off. most_loaded-MayLeave t nodes t.isr no_load "" (λ x m. m) (inl refl),
      )
