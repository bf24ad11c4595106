-- ===== src/CommitLog.antt =====
-- consistence/commitlog.go: the position of an entry of a topic's commit log, as its number in the
-- whole log or as a segment and an offset there. An entry has 48 bytes (binary.Size of
-- CommitLogData). The sizes of the segments' files are a parameter, `none` when os.Stat fails.
pub mod Append
mod RoundTrip
mod Tests
use nsq.Base.{
  ℕ, zero, suc, ◌+◌, ◌-◌, ◌*◌, ◌/◌, ◌%◌, Bool, ◌&&◌, ◌||◌, Option, none, some, ltb, ◌==◌,
  if◌then◌else◌,
}
use nsq.Base.Bytes.{Outcome, ok, err, ◌>>=◌}

pub data LogError : Type 0 where
  no_file : LogError
  segment_size_invalid : LogError
  out_of_bound : LogError
  offset_invalid : LogError
  less_than_segment_start : LogError

-- LogStartInfo
pub record StartInfo : Type 0 where
  pub segment_start_count : ℕ
  pub segment_start_index : ℕ
  pub segment_start_offset : ℕ

-- TopicCommitLogMgr, the fields that are used here.
pub record LogMgr : Type 0 where
  pub log_start_info : StartInfo
  pub current_start : ℕ
  pub current_count : ℕ

abbrev pub count_of_size : Option ℕ → Outcome LogError ℕ
count_of_size none = err no_file
count_of_size (some size) = if size % 48 == 0 then ok (size / 48) else err segment_size_invalid

-- Where the search for an entry stops: in a segment that was rotated, or with some entries to go.
pub data Stop : Type 0 where
  found : (seg offset : ℕ) → Stop
  ended : (count seg offset : ℕ) → Stop

module _ (sizes : ℕ → Option ℕ) where
  -- getCommitLogCountFromFile
  abbrev pub count_from_file : ℕ → Outcome LogError ℕ
  count_from_file i = count_of_size (sizes i)

  -- The loop over the segments before the one asked for, and the test after it. The number of
  -- entries counted is not below the number that the start offset passes over, so the difference is not negative.
  unfoldable pub count_loop : (i left count start offset : ℕ) → Outcome LogError ℕ
  count_loop i zero count start offset =
      if ltb offset start then err offset_invalid else ok (count + (offset - start) / 48)
  count_loop i (suc left) count start offset =
      count_from_file i >>= λ n. count_loop (i + 1) left (count + n - start / 48) 0 offset

  -- ConvertToCountIndex
  unfoldable pub convert_to_count_index : LogMgr → (start offset : ℕ) → Outcome LogError ℕ
  convert_to_count_index mgr start offset =
      let info = mgr.log_start_info in
      if ltb mgr.current_start start
      then err out_of_bound
      else if ltb 0 (offset % 48)
      then err offset_invalid
      else if ltb start info.segment_start_index
          || (start == info.segment_start_index && ltb offset info.segment_start_offset)
      then err less_than_segment_start
      else count_loop info.segment_start_index (start - info.segment_start_index)
          info.segment_start_count info.segment_start_offset offset

  -- The loop over the segments that were rotated, `left` of them.
  unfoldable pub offset_loop : (left count seg offset : ℕ) → Outcome LogError Stop
  offset_loop zero count seg offset = ok (ended count seg offset)
  offset_loop (suc left) count seg offset =
      if ltb 0 count
      then (count_from_file seg >>= λ n.
          (if ltb (count + offset / 48) n
            then ok (found seg (offset + count * 48))
            else offset_loop left (count + offset / 48 - n) (seg + 1) 0))
      else ok (ended count seg offset)

-- After the loop. In the segment that is being written, the source also flushes its buffer.
abbrev pub stop_at : LogMgr → Stop → Outcome LogError (ℕ × ℕ)
stop_at mgr (found seg offset) = ok (seg, offset)
stop_at mgr (ended count seg offset) =
    if seg == mgr.current_start && ltb 0 count
    then if ltb mgr.current_count (count + offset / 48)
      then err out_of_bound
      else ok (seg, offset + count * 48)
    else ok (seg, offset)

-- ConvertToOffsetIndex
unfoldable pub convert_to_offset_index : (ℕ → Option ℕ) → LogMgr → ℕ → Outcome LogError (ℕ × ℕ)
convert_to_offset_index sizes mgr count =
    let info = mgr.log_start_info in
    if ltb count info.segment_start_count
    then err less_than_segment_start
    else offset_loop sizes (mgr.current_start - info.segment_start_index)
        (count - info.segment_start_count) info.segment_start_index info.segment_start_offset
      >>= stop_at mgr
