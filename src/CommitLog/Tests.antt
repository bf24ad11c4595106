-- ===== src/CommitLog/Tests.antt =====
-- A log that starts at the third entry of its second segment, and one that is appended to.
use nsq.Base.{ℕ, zero, suc, ◌*◌, ◌≤◌, ◌≡◌, refl, arith, Option, some, true, false, [], ◌∷◌}
use nsq.Base.Bytes.{ok, err}
use nsq.CommitLog.{
  LogMgr, out_of_bound, less_than_segment_start, offset_invalid, count_loop, convert_to_count_index,
  offset_loop, convert_to_offset_index,
}
use nsq.CommitLog.Append.{
  LogData, LogFiles, FileSystem, wrong_id, flush_commit_logs, rotate, rotate_if_full, keep_entry,
  append_commit_log,
}
use nsq.CommitLog.Append.Correct
use nsq.CommitLog.Append.Correct.{Appends, append_commit_log_correct}
use nsq.CommitLog.RoundTrip.{IsLog, convert_to_count_index-convert_to_offset_index}

abbrev entries : ℕ → ℕ
entries zero = 9
entries (suc zero) = 4
entries (suc (suc i)) = 3

abbrev sizes : ℕ → Option ℕ
sizes i = some (entries i * 48)

abbrev mgr : LogMgr
mgr = record {
  log_start_info = record {
    segment_start_count = 5;
    segment_start_index = 1;
    segment_start_offset = 96;
  };
  current_start = 3;
  current_count = 4;
}

in_second : convert_to_offset_index sizes mgr 9 ≡ ok (2, 96)
unfolding convert_to_offset_index offset_loop
in_second = refl

in_current : convert_to_offset_index sizes mgr 14 ≡ ok (3, 192)
unfolding convert_to_offset_index offset_loop
in_current = refl

past_end : convert_to_offset_index sizes mgr 15 ≡ err out_of_bound
unfolding convert_to_offset_index offset_loop
past_end = refl

before_start : convert_to_count_index sizes mgr 1 48 ≡ err less_than_segment_start
unfolding convert_to_count_index
before_start = refl

inside_entry : convert_to_count_index sizes mgr 2 50 ≡ err offset_invalid
unfolding convert_to_count_index
inside_entry = refl

counted : convert_to_count_index sizes mgr 2 96 ≡ ok 9
unfolding convert_to_count_index count_loop
counted = refl

mgr-IsLog : IsLog sizes entries mgr 2
mgr-IsLog = record {
  start_le = omega arith;
  rotated = (refl, (refl, tt));
  at_entry = refl;
  counted = omega arith;
  in_first = omega arith;
}

convert_to_count_index-convert_to_offset_index_example :
    (seg row : ℕ) × (convert_to_offset_index sizes mgr 9 ≡ ok (seg, row * 48))
    × (convert_to_count_index sizes mgr seg (row * 48) ≡ ok 9)
    × (seg ≤ 3)
convert_to_count_index-convert_to_offset_index_example =
    convert_to_count_index-convert_to_offset_index sizes entries mgr 2 mgr-IsLog 9 (omega arith)
      (omega arith)

abbrev entry : ℕ → LogData
entry id = record {
  log_id = id;
  epoch = 1;
  last_msg_log_id = id;
  msg_offset = 0;
  msg_size = 10;
  msg_cnt = 1;
  msg_num = 1;
}

-- A full current file, with a full buffer.
abbrev files : LogFiles
files = record {
  n_log_id = 8;
  p_log_id = 7;
  rotated = [];
  file = entry 3 ∷ [];
  committed_logs = entry 7 ∷ [];
  capacity = 1;
  current_start = 0;
  current_count = 2000000;
}

abbrev working : FileSystem
working = record { renames = true; opens = true; saves = true; writes = true }

after :
    Correct.entries (append_commit_log working files (entry 9) false).1
    ≡ entry 3 ∷ entry 7 ∷ entry 9 ∷ []
unfolding append_commit_log rotate_if_full rotate flush_commit_logs keep_entry
after = refl

-- The entry is refused, since its id is the last one's.
refused : (append_commit_log working files (entry 7) false).0 ≡ wrong_id
unfolding append_commit_log
refused = refl

append_commit_log_correct_example :
    (let r = append_commit_log working files (entry 9) false in
      Appends files (entry 9) r × Correct.IsLog r.1)
append_commit_log_correct_example =
    append_commit_log_correct working files (entry 9) false
      (omega arith, (omega arith, (omega arith, omega arith)))
