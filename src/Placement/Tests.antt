-- ===== src/Placement/Tests.antt =====
-- Runs of the placement on a cluster of three nodes.
use Prim.Native.String.{String}
use nsq.Base.{
  ℕ, ◌≡◌, ◌≢◌, ◌≤◌, ◌<◌, ◌+◌, length, refl, sym, ap, subst, inl, inr, arith, true, false, Option,
  none, some, List, [], ◌∷◌, ltb, if◌then◌else◌,
}
use nsq.Base.Bytes.{ok}
use nsq.Base.Dict.{same}
use nsq.Base.Members.{In, IsUnique, exists}
use nsq.Placement.{
  TopicInfo, rebalanced_from_names, rebalanced, rows, row, nodes_of, first_unwanted,
  decide_unwanted_of_ordered, most_loaded, newest_loop, by_load, decide_unwanted_isr_node,
  alloc_node_for_ordered_topic, choose_new_leader_from_isr,
  choose_new_leader_from_isr_for_ordered_topic,
}
use nsq.Placement.Leader.{Elects, choose_new_leader_from_isr_correct}
use nsq.Placement.Fair.{rebalanced_correct, leads, rebalanced_is_fair}
use nsq.Placement.Change.{
  wanted, Leaves, Joins, MayLeave, alloc_node_for_ordered_topic_correct,
  decide_unwanted_isr_node_correct,
}

abbrev current : List String
current = "c" ∷ "a" ∷ "b" ∷ []

abbrev info : TopicInfo
info = record {
  partition = 1;
  partition_num = 4;
  replica = 2;
  ordered_multi = true;
  leader = "a";
  isr = "a" ∷ "c" ∷ "b" ∷ [];
}

-- The nodes b and c have the newest log.
abbrev log_of : String → Option ℕ
log_of n = if same n "a" then some 9 else some 7

-- The node c is loaded most.
abbrev load_of : String → Option ℕ
load_of n = if same n "c" then some 50 else some 3

placed :
    rebalanced 4 2 current
    ≡ ok (("a" ∷ "b" ∷ []) ∷ ("b" ∷ "c" ∷ []) ∷ ("c" ∷ "a" ∷ []) ∷ ("a" ∷ "b" ∷ []) ∷ [])
unfolding rebalanced rebalanced_from_names rows row
placed = refl

unwanted : decide_unwanted_isr_node ltb 1000 load_of log_of 0 info current ≡ ok ""
unfolding decide_unwanted_isr_node decide_unwanted_of_ordered rebalanced rebalanced_from_names rows
    first_unwanted exists row
unwanted = refl

allocated : alloc_node_for_ordered_topic info ("a" ∷ "b" ∷ []) current ≡ ok "c"
unfolding alloc_node_for_ordered_topic rebalanced rebalanced_from_names rows row exists
allocated = refl

leader_by_place :
    choose_new_leader_from_isr_for_ordered_topic ltb 1000 load_of log_of info current ≡ ok ("b", 7)
unfolding choose_new_leader_from_isr_for_ordered_topic newest_loop exists rebalanced
    rebalanced_from_names rows row
leader_by_place = refl

abbrev unordered : TopicInfo
unordered = record info { ordered_multi = false; isr = "a" ∷ "b" ∷ "c" ∷ [] }

-- The choice by load: the last of the two, though the first is loaded less.
loaded_most : choose_new_leader_from_isr ltb 1000 load_of log_of unordered current ≡ ok ("c", 7)
unfolding choose_new_leader_from_isr newest_loop exists by_load
loaded_most = refl

-- The node b is named to leave, though the next replica is lost.
lost : decide_unwanted_isr_node ltb 1000 load_of log_of 0 unordered ("a" ∷ "b" ∷ []) ≡ ok "b"
unfolding decide_unwanted_isr_node most_loaded exists
lost = refl

abbrev IsFine : String → Type 0
IsFine x = (x ≢ "") × (load_of x ≢ none)

a : IsFine "a"
a = (λ q. cc, λ q. cc q)

b : IsFine "b"
b = (λ q. cc, λ q. cc q)

c : IsFine "c"
c = (λ q. cc, λ q. cc q)

fine : (r : String) → In r info.isr → IsFine r
fine r (inl e) = subst IsFine (sym e) a
fine r (inr (inl e)) = subst IsFine (sym e) c
fine r (inr (inr (inl e))) = subst IsFine (sym e) b
fine r (inr (inr (inr none_left))) = elim none_left [ ]

choose_new_leader_from_isr_correct_example :
    Elects ltb 1000 load_of log_of info current
      (choose_new_leader_from_isr ltb 1000 load_of log_of info current)
choose_new_leader_from_isr_correct_example =
    choose_new_leader_from_isr_correct ltb 1000 load_of log_of info current (λ r m. (fine r m).0)
      (λ e. (omega arith, omega arith)) (λ e r m. (fine r m).1)

current-IsUnique : IsUnique current
current-IsUnique = (
  λ m. elim m [
    | inl e ↦ cc (ap (same "c") e)
    | inr (inl e) ↦ cc (ap (same "c") e)
    | inr (inr none_left) ↦ none_left
  ],
  (λ m. elim m [ inl e ↦ cc (ap (same "a") e) | inr none_left ↦ none_left ], (λ m. m, tt)),
)

named : (x : String) → In x current → x ≢ ""
named x (inl e) = subst (λ y. y ≢ "") (sym e) c.0
named x (inr (inl e)) = subst (λ y. y ≢ "") (sym e) a.0
named x (inr (inr (inl e))) = subst (λ y. y ≢ "") (sym e) b.0
named x (inr (inr (inr none_left))) = elim none_left [ ]

rebalanced_correct_example :
    (all : List (List String)) × (rebalanced 4 2 current ≡ ok all)
    × ((p : ℕ)
        → p < 4
        → (ns : List String) × (nodes_of p all ≡ ok ns)
          × (length ns ≡ 2)
          × IsUnique ns
          × ((x : String) → In x ns → In x current))
rebalanced_correct_example = rebalanced_correct 4 2 current current-IsUnique (omega arith)

rebalanced_is_fair_example :
    (all : List (List String)) × (rebalanced 4 2 current ≡ ok all)
    × ((a b : String) → In a current → In b current → leads a all ≤ leads b all + 1)
rebalanced_is_fair_example =
    rebalanced_is_fair 4 2 current current-IsUnique (omega arith) (omega arith)

alloc_node_for_ordered_topic_correct_example :
    Joins
      ("a" ∷ "b" ∷ [])
      (wanted info current)
      (alloc_node_for_ordered_topic info ("a" ∷ "b" ∷ []) current)
alloc_node_for_ordered_topic_correct_example =
    alloc_node_for_ordered_topic_correct info ("a" ∷ "b" ∷ []) current named (omega arith)
      (omega arith)

decide_unwanted_isr_node_correct_example :
    (n : String) × (decide_unwanted_isr_node ltb 1000 load_of log_of 0 info current ≡ ok n)
    × (info.ordered_multi ≡ true → Leaves info.leader (wanted info current) info.isr n)
    × (info.ordered_multi ≡ false → MayLeave ltb 1000 load_of log_of info current n)
decide_unwanted_isr_node_correct_example =
    decide_unwanted_isr_node_correct ltb 1000 load_of log_of 0 info current
      (λ e. (omega arith, omega arith))
