-- ===== src/Placement.antt =====
-- consistence/data_placement_mgr.go: which nodes hold the partitions of an ordered topic, and which
-- replica becomes the leader. Nodes are known by their names; of the map of the current nodes
-- only its keys are used. What the nodes answer (the id of their last commit log, their load) is a
-- parameter, `none` for an error; a load is a float64, of any type with a comparison.
pub mod Balance
pub mod Change
pub mod Cycle
pub mod Fair
pub mod Leader
mod Tests
use Prim.Native.Nat.{Ordering}
use Prim.Native.String.{String, compare}
use nsq.Base.{
  ℕ, zero, suc, ◌+◌, ◌%◌, Bool, true, false, ◌&&◌, ◌||◌, not, Option, none, some, List, [], ◌∷◌,
  ◌++◌, length, get_elem?, get_or, ltb, ◌==◌, if◌then◌else◌,
}
use nsq.Base.Bytes.{Outcome, ok, err, panic, ◌>>=◌}
use nsq.Base.Dict.{same}
use nsq.Base.Members.{exists}

pub data PlaceError : Type 0 where
  node_unavailable : PlaceError
  no_leader_can_be_elected : PlaceError

-- TopicPartitionMetaInfo, the fields that are used here.
pub record TopicInfo : Type 0 where
  pub partition : ℕ
  pub partition_num : ℕ
  pub replica : ℕ
  pub ordered_multi : Bool
  pub leader : String
  pub isr : List String

-- sort.Sort on SortableStrings
abbrev pub less : String → String → Bool
less a b = elim (compare a b) [ Ordering.lt ↦ true | _ ↦ false ]

abbrev pub insert_sorted : String → List String → List String
insert_sorted x [] = x ∷ []
insert_sorted x (y ∷ ys) =
    let rest = insert_sorted x ys in if less y x then y ∷ rest else x ∷ y ∷ ys

abbrev pub sort : List String → List String
sort [] = []
sort (x ∷ xs) = insert_sorted x (sort xs)

-- The nodes of one partition: `count` of them, from the index `i` on, round the list.
unfoldable pub row : List String → (i count : ℕ) → List String
row names i zero = []
row names i (suc count) = get_or names (i % length names) "" ∷ row names (i + 1) count

-- The nodes of the partitions from `i` on.
unfoldable pub rows : List String → (replica i count : ℕ) → List (List String)
rows names replica i zero = []
rows names replica i (suc count) = row names i replica ∷ rows names replica (i + 1) count

-- getRebalancedOrderedTopicPartitionsFromNameList
unfoldable pub rebalanced_from_names :
    (partition_num replica : ℕ) → List String → Outcome PlaceError (List (List String))
rebalanced_from_names partition_num replica names =
    if ltb (length names) replica
    then err node_unavailable
    else ok (rows (sort names) replica 0 partition_num)

-- getRebalancedOrderedTopicPartitions
unfoldable pub rebalanced :
    (partition_num replica : ℕ) → List String → Outcome PlaceError (List (List String))
rebalanced partition_num replica nodes =
    if ltb (length nodes) replica
    then err node_unavailable
    else rebalanced_from_names partition_num replica nodes

-- partitionNodes[topicInfo.Partition], which panics out of range.
abbrev pub or_panic : Option (List String) → Outcome PlaceError (List String)
or_panic none = panic
or_panic (some ns) = ok ns

abbrev pub nodes_of : ℕ → List (List String) → Outcome PlaceError (List String)
nodes_of partition all = or_panic (get_elem? all partition)

-- An error leaves the name empty.
abbrev pub or_no_name :
    Outcome PlaceError (List (List String))
    → (List (List String) → Outcome PlaceError String)
    → Outcome PlaceError String
or_no_name (ok all) go = go all
or_no_name (err e) go = ok ""
or_no_name panic go = panic

abbrev pub is_current : List String → String → Bool
is_current nodes n = exists (same n) nodes

-- The first of the ISR that is not the leader and not one of the partition's nodes.
unfoldable pub first_unwanted : String → List String → List String → String
first_unwanted leader valid [] = ""
first_unwanted leader valid (n ∷ isr) =
    let rest = first_unwanted leader valid isr in
    if same n leader then rest else if exists (same n) valid then rest else n

-- decideUnwantedISRNode, for an ordered topic.
unfoldable pub decide_unwanted_of_ordered : TopicInfo → List String → Outcome PlaceError String
decide_unwanted_of_ordered t nodes =
    or_no_name (rebalanced t.partition_num t.replica nodes)
      (λ all. nodes_of t.partition all >>= λ valid. ok (first_unwanted t.leader valid t.isr))

abbrev pub first_allowed : List String → List String → Outcome PlaceError String
first_allowed exclude [] = err node_unavailable
first_allowed exclude (n ∷ ns) =
    let rest = first_allowed exclude ns in
    if exists (same n) exclude then rest else if same n "" then err node_unavailable else ok n

-- allocNodeForOrderedTopic, with the nodes that getExcludeNodesForTopic excludes.
unfoldable pub alloc_node_for_ordered_topic :
    TopicInfo → List String → List String → Outcome PlaceError String
alloc_node_for_ordered_topic t exclude nodes = rebalanced t.partition_num t.replica nodes >>= λ all.
    nodes_of t.partition all >>= λ ns. first_allowed exclude ns

-- The first of the partition's nodes that is not the leader and has the newest log.
abbrev pub first_newest : String → List String → List String → String
first_newest leader newest [] = ""
first_newest leader newest (n ∷ ns) =
    let rest = first_newest leader newest ns in
    if same n leader then rest else if exists (same n) newest && not (same n "") then n else rest

abbrev pub or_first : String → String → String
or_first chosen r = if same chosen "" then r else chosen

abbrev pub elected : String → ℕ → Outcome PlaceError (String × ℕ)
elected chosen id = if same chosen "" then err no_leader_can_be_elected else ok (chosen, id)

-- One replica, in the search for those with the newest log.
abbrev pub compare_log : String → Option ℕ → List String × ℕ → List String × ℕ
compare_log r none (newest, id) = (newest, id)
compare_log r (some cid) (newest, id) =
    if ltb id cid
    then (r ∷ [], cid)
    else if cid == id
    then (newest ++ (r ∷ []), id)
    else (newest, id)

module _ {F : Type 0} (less_load : F → F → Bool) (max_load : F) (load : String → Option F)
    (last_log_id : String → Option ℕ) where
  abbrev pub consider : TopicInfo → List String → String → List String × ℕ → List String × ℕ
  consider t nodes r acc =
      if not (is_current nodes r)
      then acc
      else if same r t.leader
      then acc
      else compare_log r (last_log_id r) acc

  unfoldable pub newest_loop :
      TopicInfo → List String → List String → List String × ℕ → List String × ℕ
  newest_loop t nodes [] acc = acc
  newest_loop t nodes (r ∷ isr) acc = newest_loop t nodes isr (consider t nodes r acc)

  -- The choice by load. `minLF` is compared with, and not changed.
  abbrev pub by_load_of : String → Option F → String → String
  by_load_of r none chosen = chosen
  by_load_of r (some lf) chosen = if same chosen "" || less_load lf max_load then r else chosen

  unfoldable pub by_load : List String → String → String
  by_load [] chosen = chosen
  by_load (r ∷ rs) chosen = by_load rs (by_load_of r (load r) chosen)

  abbrev pub choose_by_load : List String → String
  choose_by_load [] = by_load [] ""
  choose_by_load (r ∷ []) = r
  choose_by_load (r ∷ q ∷ rs) = by_load (r ∷ q ∷ rs) ""

  abbrev pub choose_by_place : TopicInfo → List String → List String → Outcome PlaceError String
  choose_by_place t nodes [] = ok ""
  choose_by_place t nodes (r ∷ []) = ok r
  choose_by_place t nodes (r ∷ q ∷ rs) =
      or_no_name (rebalanced t.partition_num t.replica nodes) (λ all.
        nodes_of t.partition all >>= λ ns. ok (or_first (first_newest t.leader (r ∷ q ∷ rs) ns) r))

  -- chooseNewLeaderFromISRForOrderedTopic
  unfoldable pub choose_new_leader_from_isr_for_ordered_topic :
      TopicInfo → List String → Outcome PlaceError (String × ℕ)
  choose_new_leader_from_isr_for_ordered_topic t nodes =
      let (newest, id) = newest_loop t nodes t.isr ([], 0) in
      choose_by_place t nodes newest >>= λ chosen. elected chosen id

  -- chooseNewLeaderFromISR
  unfoldable pub choose_new_leader_from_isr :
      TopicInfo → List String → Outcome PlaceError (String × ℕ)
  choose_new_leader_from_isr t nodes =
      let (newest, id) = newest_loop t nodes t.isr ([], 0) in
      if t.ordered_multi
      then choose_new_leader_from_isr_for_ordered_topic t nodes
      else elected (choose_by_load newest) id

  -- A replica that is not there ends the search, with the node found so far.
  abbrev pub most_loaded_step : String → Option F → F → String → F × String
  most_loaded_step n none max unwanted = (max, unwanted)
  most_loaded_step n (some lf) max unwanted = if less_load max lf then (lf, n) else (max, unwanted)

  unfoldable pub most_loaded : String → List String → List String → F → String → String
  most_loaded leader nodes [] max unwanted = unwanted
  most_loaded leader nodes (n ∷ isr) max unwanted =
      let (max', unwanted') = most_loaded_step n (load n) max unwanted in
      let skipped = most_loaded leader nodes isr max unwanted in
      let rest = most_loaded leader nodes isr max' unwanted' in
      if same n leader then skipped else if is_current nodes n then rest else unwanted

  -- decideUnwantedISRNode, with the load `no_load` that is 0.
  unfoldable pub decide_unwanted_isr_node :
      (no_load : F) → TopicInfo → List String → Outcome PlaceError String
  decide_unwanted_isr_node no_load t nodes =
      if t.ordered_multi
      then decide_unwanted_of_ordered t nodes
      else ok (most_loaded t.leader nodes t.isr no_load "")
