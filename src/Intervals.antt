-- ===== src/Intervals.antt =====
-- nsqd/segment_tree.go: IntervalHash, the channel's record of what was confirmed out of order.
-- Offsets are file offsets, so they are natural numbers here; they stay far below 2 ^ 63.
pub mod Sound
pub mod Exact
pub mod Lower
pub mod Overlap
mod Tests
use nsq.Base.{
  ℕ, ◌+◌, ◌/◌, Bool, true, false, ◌&&◌, Option, none, some, List, [], ◌∷◌, length, ltb, leb, ◌==◌,
  if◌then◌else◌,
}
use nsq.Base.Map.{Map, find, insert, erase, keys}

-- queueInterval
pub record Interval : Type 0 where
  pub start : ℕ
  pub end : ℕ
  pub end_cnt : ℕ

-- `elems` has each interval under both of its ends.
pub record IntervalHash : Type 0 where
  pub elems : Map Interval
  pub history_msg : Map ℕ

unfoldable pub new_interval_hash : IntervalHash
new_interval_hash = record { elems = []; history_msg = [] }

-- The variables minStart, maxEnd and maxEndCnt, widened by an interval that was found.
unfoldable pub widen : Interval → Interval → Interval
widen qi n =
    let n1 = if ltb qi.start n.start then record n { start = qi.start } else n in
    if ltb n.end qi.end then record n1 { end = qi.end; end_cnt = qi.end_cnt } else n1

-- `delete(self.elems, qi.Start()); delete(self.elems, qi.End())`
unfoldable pub remove_ends : Interval → Map Interval → Map Interval
remove_ends qi m = erase qi.end (erase qi.start m)

unfoldable pub absorb : Option Interval → Interval × Map Interval → Interval × Map Interval
absorb none s = s
absorb (some qi) (n, m) = (widen qi n, remove_ends qi m)

unfoldable pub add_or_merge : Interval → IntervalHash → Interval × IntervalHash
add_or_merge inter h =
    let (n1, m1) = absorb (find inter.start h.elems) (inter, h.elems) in
    let (n2, m2) = absorb (find n1.end m1) (n1, m1) in
    (
      n2,
      record {
        elems = insert n2.end n2 (insert n2.start n2 m2);
        history_msg = insert inter.start inter.end h.history_msg;
      },
    )

-- Len
unfoldable pub len : IntervalHash → ℕ
len h = length h.elems / 2

abbrev delete_if_same : Option Interval → Interval → Map Interval → Map Interval
delete_if_same none inter m = m
delete_if_same (some qi) inter m =
    if qi.start == inter.start && qi.end == inter.end then remove_ends qi m else m

unfoldable pub delete_interval : Interval → IntervalHash → IntervalHash
delete_interval inter h = record h {
  elems = delete_if_same (find inter.start h.elems) inter h.elems;
}

abbrev visit : (Interval → Bool) → Option Interval → Map Interval × ℕ → Map Interval × ℕ
visit test none s = s
visit test (some v) (m, cnt) = if test v then (remove_ends v m, cnt + 1) else (m, cnt)

-- A loop over a map that deletes while it runs: an entry deleted before its turn is not visited.
-- The count is of the visits that deleted an interval, with both of its ends.
unfoldable pub delete_loop : (Interval → Bool) → List ℕ → Map Interval × ℕ → Map Interval × ℕ
delete_loop test [] s = s
delete_loop test (k ∷ ks) s = delete_loop test ks (visit test (find k s.0) s)

unfoldable pub history_loop : ℕ → List (ℕ × ℕ) → Map ℕ → Map ℕ
history_loop low [] m = m
history_loop low ((s, e) ∷ rest) m =
    history_loop low rest (if leb e low && ltb s low then erase s m else m)

unfoldable pub delete_lower : ℕ → IntervalHash → IntervalHash × ℕ
delete_lower low h =
    let (elems, cnt) = delete_loop (λ v. leb v.end low) (keys h.elems) (h.elems, 0) in
    (record { elems = elems; history_msg = history_loop low h.history_msg h.history_msg }, cnt)

unfoldable pub delete_range : Interval → IntervalHash → IntervalHash
delete_range inter h = record h {
  elems =
      (delete_loop (λ v. leb inter.start v.start && leb v.end inter.end) (keys h.elems)
        (h.elems, 0)).0;
}

abbrev covers_from_start : Option Interval → Interval → Bool
covers_from_start none inter = false
covers_from_start (some qi) inter = leb inter.end qi.end

abbrev covers_to_end : Option Interval → Interval → Bool
covers_to_end none inter = false
covers_to_end (some qi) inter = leb qi.start inter.start

abbrev covers_history : Option ℕ → Interval → Bool
covers_history none inter = false
covers_history (some e) inter = leb inter.end e

unfoldable pub is_complete_overlap : Interval → IntervalHash → Bool
is_complete_overlap inter h =
    if covers_from_start (find inter.start h.elems) inter
    then true
    else if covers_to_end (find inter.end h.elems) inter
    then true
    else covers_history (find inter.start h.history_msg) inter

-- `found` is false when some interval starts below `low`
unfoldable pub lowest_scan : ℕ → List (ℕ × Interval) → Bool
lowest_scan low [] = true
lowest_scan low ((k, v) ∷ rest) =
    let more = lowest_scan low rest in if ltb v.start low then false else more

abbrev lowest_of : Option Interval → ℕ → Map Interval → Option Interval
lowest_of none low m = none
lowest_of (some qi) low m = if qi.start == low && lowest_scan low m then some qi else none

unfoldable pub is_lowest_at : ℕ → IntervalHash → Option Interval
unfolding lowest_scan
is_lowest_at low h = lowest_of (find low h.elems) low h.elems
