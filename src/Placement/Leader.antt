-- ===== src/Placement/Leader.antt =====
-- The replica that becomes the leader has the newest log.
mod Search
use Prim.Native.String.{String}
use nsq.Base.{
  ℕ, ◌≤◌, ◌<◌, ◌≡◌, ◌≢◌, ◌⊎◌, ◌↔◌, inl, inr, refl, sym, ap, subst, ◌∙◌, arith, Bool, true, false,
  ◌&&◌, ◌||◌, not, Option, none, some, List, [], ◌∷◌, ◌++◌, length, ltb, ◌==◌, if◌then◌else◌,
  Bool-cases,
}
use nsq.Base.Bytes.{Outcome, ok, err}
use nsq.Base.Dict.{same, same_iff}
use nsq.Base.Members.{In, In-last, exists}
use nsq.Placement.Balance.{rebalanced_enough, nodes_of-rows, in_list}
use nsq.Placement.{
  PlaceError, no_leader_can_be_elected, TopicInfo, row, sort, is_current, compare_log, consider,
  newest_loop, by_load_of, by_load, elected, choose_by_load, choose_new_leader_from_isr,
  first_newest, or_first, choose_by_place, choose_new_leader_from_isr_for_ordered_topic,
}
use nsq.Placement.Leader.Search.{IsEligible, IsNewest, IsBest, searched, member-IsBest}

and_left : (a b : Bool) → a && b ≡ true → a ≡ true
and_left true b e = refl
and_left false b e = e

module _ {F : Type 0} (less_load : F → F → Bool) (max_load : F) (load : String → Option F)
    (last_log_id : String → Option ℕ) (t : TopicInfo) (nodes : List String) where
  -- How an election ends: with such a replica, or with the error when no replica can be chosen.
  pub data Elects : Outcome PlaceError (String × ℕ) → Type 0 where
    chosen :
        {l : String} {id : ℕ}
        → IsBest less_load max_load load last_log_id t nodes l id
        → Elects (ok (l, id))
    nobody :
        ((r : String)
          → In r t.isr
          → IsEligible less_load max_load load last_log_id t nodes r
          → last_log_id r ≡ none)
        → Elects (err no_leader_can_be_elected)

  -- A name that is taken from a list, if there is one.
  abbrev pub IsPicked : List String → String → Type 0
  IsPicked names n = ((names ≡ []) × (n ≡ "")) ⊎ (In n names × (n ≢ ""))

  elected-Elects :
      (newest : List String) (id : ℕ) (n : String)
      → IsNewest less_load max_load load last_log_id t nodes (λ x. In x t.isr) newest id
      → IsPicked newest n
      → Elects (elected n id)
  elected-Elects newest id n v (inl (empty, q)) =
      let off : same n "" ≡ true = (same_iff n "").1 q in
      rw off (nobody (λ r m fit. unanswered r m fit (last_log_id r) refl))
    where
      unanswered :
          (r : String)
          → In r t.isr
          → IsEligible less_load max_load load last_log_id t nodes r
          → (o : Option ℕ) → last_log_id r ≡ o
          → last_log_id r ≡ none
      unanswered r m fit none e = e
      unanswered r m fit (some c) e = absurd (v.found r c m fit e empty)
  elected-Elects newest id n v (inr (m, named)) = elim (Bool-cases (same n "")) [
    | inl on ↦ absurd (named ((same_iff n "").0 on))
    | inr off ↦ rw off (chosen (member-IsBest less_load max_load load last_log_id t nodes v n m))
  ]

  abbrev go_by_load : List String → String → String
  go_by_load = by_load less_load max_load load last_log_id

  by_load_from :
      (all rs : List String) (n : String)
      → ((r : String) → In r rs → In r all × (r ≢ ""))
      → In n all × (n ≢ "")
      → In (go_by_load rs n) all × (go_by_load rs n ≢ "")
  unfolding by_load
  by_load_from all [] n within here = here
  by_load_from all (r ∷ rs) n within here =
      by_load_from all rs _ (λ x m. within x (inr m)) (next (load r))
    where
      next :
          (o : Option F)
          → (let m = by_load_of less_load max_load load last_log_id r o n in In m all × (m ≢ ""))
      next none = here
      next (some lf) = elim (Bool-cases (same n "" || less_load lf max_load)) [
        | inl on ↦ rw on (within r (inl refl))
        | inr off ↦ rw off here
      ]

  choose_by_load-IsPicked :
      (newest : List String)
      → ((r : String) → In r newest → (r ≢ "") × (load r ≢ none))
      → IsPicked newest (choose_by_load less_load max_load load last_log_id newest)
  unfolding by_load
  choose_by_load-IsPicked [] fine = inl (refl, refl)
  choose_by_load-IsPicked (r ∷ []) fine = inr (inl refl, (fine r (inl refl)).0)
  choose_by_load-IsPicked (r ∷ q ∷ rs) fine = inr (start (load r) refl)
    where
      start :
          (o : Option F)
          → load r ≡ o
          → (let n = go_by_load (q ∷ rs) (by_load_of less_load max_load load last_log_id r o "") in
              In n (r ∷ q ∷ rs) × (n ≢ ""))
      start none e = absurd ((fine r (inl refl)).1 e)
      start (some lf) e =
          by_load_from (r ∷ q ∷ rs) (q ∷ rs) r (λ x m. (inr m, (fine x (inr m)).0))
            (inl refl, (fine r (inl refl)).0)

  first_newest-In :
      (newest ns : List String)
      → (let n = first_newest t.leader newest ns in (n ≡ "") ⊎ In n newest)
  first_newest-In newest [] = inl refl
  first_newest-In newest (n ∷ ns) = elim (Bool-cases (same n t.leader)) [
    | inl leads ↦ rw leads (first_newest-In newest ns)
    | inr follows ↦ elim (Bool-cases (exists (same n) newest && not (same n ""))) [
      | inl on ↦ rw (follows, on) (inr (in_list n newest (and_left _ _ on)))
      | inr off ↦ rw (follows, off) (first_newest-In newest ns)
    ]
  ]

  or_first-IsPicked :
      (n r : String) (rs : List String)
      → (n ≡ "") ⊎ In n (r ∷ rs)
      → r ≢ ""
      → In (or_first n r) (r ∷ rs) × (or_first n r ≢ "")
  or_first-IsPicked n r rs from named = elim (Bool-cases (same n "")) [
    | inl on ↦ rw on (inl refl, named)
    | inr off ↦
        subst (λ c. In c (r ∷ rs) × (c ≢ "")) (ap (λ b. if b then r else n) (sym off))
          (picked from (λ q. cc ((same_iff n "").1 q, off)))
  ]
    where
      picked : {n : String} → (n ≡ "") ⊎ In n (r ∷ rs) → n ≢ "" → In n (r ∷ rs) × (n ≢ "")
      picked (inl e) filled = absurd (filled e)
      picked (inr m) filled = (m, filled)

  choose_by_place-IsPicked :
      (newest : List String)
      → ((r : String) → In r newest → r ≢ "")
      → t.replica ≤ length nodes
      → t.partition < t.partition_num
      → (n : String) × (choose_by_place less_load max_load load last_log_id t nodes newest ≡ ok n)
        × IsPicked newest n
  choose_by_place-IsPicked [] named enough below = ("", refl, inl (refl, refl))
  choose_by_place-IsPicked (r ∷ []) named enough below =
      (r, refl, inr (inl refl, named r (inl refl)))
  choose_by_place-IsPicked (r ∷ q ∷ rs) named enough below =
      let all = rebalanced_enough t.partition_num t.replica nodes enough in
      let ns = nodes_of-rows (sort nodes) t.replica t.partition_num t.partition below in
      let n = first_newest t.leader (r ∷ q ∷ rs) (row (sort nodes) t.partition t.replica) in
      (
        or_first n r,
        rw (all, ns) refl,
        inr (or_first-IsPicked n r (q ∷ rs) (first_newest-In _ _) (named r (inl refl))),
      )

  choose_new_leader_from_isr_for_ordered_topic_correct :
      ((r : String) → In r t.isr → r ≢ "")
      → t.replica ≤ length nodes
      → t.partition < t.partition_num
      → Elects
          (choose_new_leader_from_isr_for_ordered_topic less_load max_load load last_log_id t nodes)
  unfolding choose_new_leader_from_isr_for_ordered_topic
  choose_new_leader_from_isr_for_ordered_topic_correct named enough below =
      let (n, e, pick) =
        choose_by_place-IsPicked _
          (λ r m. named r ((searched less_load max_load load last_log_id t nodes).from r m).0)
          enough below in
      rw e (elected-Elects _ _ n (searched less_load max_load load last_log_id t nodes) pick)

  -- The replicas have names. For an ordered topic, there are as many nodes as it wants replicas, and
  -- the partition is one of its partitions; otherwise each replica answers its load. Then the
  -- choice does not panic. It returns a replica of the ISR that is current, is not the old leader and has a
  -- log id as great as that of any other such replica, with that id; the error is
  -- returned only when no such replica answers its log id.
  pub choose_new_leader_from_isr_correct :
      ((r : String) → In r t.isr → r ≢ "")
      → (t.ordered_multi ≡ true → (t.replica ≤ length nodes) × (t.partition < t.partition_num))
      → (t.ordered_multi ≡ false → (r : String) → In r t.isr → load r ≢ none)
      → Elects (choose_new_leader_from_isr less_load max_load load last_log_id t nodes)
  unfolding choose_new_leader_from_isr
  choose_new_leader_from_isr_correct named placed loaded = by_kind t.ordered_multi refl
    where
      by_kind :
          (o : Bool)
          → t.ordered_multi ≡ o
          → Elects (
              let (newest, id) =
                newest_loop less_load max_load load last_log_id t nodes t.isr ([], 0) in
              if o
              then choose_new_leader_from_isr_for_ordered_topic less_load max_load load last_log_id
                  t nodes
              else elected (choose_by_load less_load max_load load last_log_id newest) id)
      by_kind true e =
          choose_new_leader_from_isr_for_ordered_topic_correct named (placed e).0 (placed e).1
      by_kind false e =
          elected-Elects _ _ _ (searched less_load max_load load last_log_id t nodes) (
            choose_by_load-IsPicked _ (λ r m.
              let i = ((searched less_load max_load load last_log_id t nodes).from r m).0 in
              (named r i, loaded e r i)))
