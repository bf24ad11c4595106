-- ===== src/CommitLog/Append.antt =====
-- consistence/commitlog.go: the entries of a topic's commit log, in files and in a buffer, and the
-- operations that add to them. What the file system does is an argument; a write is taken to be
-- done or refused as a whole. A file is the list of its entries.
pub mod Correct
use nsq.Base.{
  ℕ, zero, suc, ◌+◌, ◌-◌, ◌*◌, Bool, true, false, List, [], ◌∷◌, ◌++◌, length, ltb, leb, ◌==◌,
  if◌then◌else◌,
}

-- CommitLogData
pub record LogData : Type 0 where
  pub log_id : ℕ
  pub epoch : ℕ
  pub last_msg_log_id : ℕ
  pub msg_offset : ℕ
  pub msg_size : ℕ
  pub msg_cnt : ℕ
  pub msg_num : ℕ

-- TopicCommitLogMgr: `rotated` has the files of the segments before the current one, `file` the
-- current one, and `capacity` is that of the buffer `committed_logs`.
pub record LogFiles : Type 0 where
  pub n_log_id : ℕ
  pub p_log_id : ℕ
  pub rotated : List (List LogData)
  pub file : List LogData
  pub committed_logs : List LogData
  pub capacity : ℕ
  pub current_start : ℕ
  pub current_count : ℕ

pub record FileSystem : Type 0 where
  pub renames : Bool
  pub opens : Bool
  pub saves : Bool
  pub writes : Bool

pub data AppendEnd : Type 0 where
  appended : AppendEnd
  wrong_id : AppendEnd
  wrong_last_id : AppendEnd
  io_failed : AppendEnd
  panicked : AppendEnd

-- flushCommitLogsNoLock, which panics when the write fails.
abbrev pub flushed : LogFiles → LogFiles
flushed s = record s { file = s.file ++ s.committed_logs; committed_logs = [] }

-- A step of the operation, and what comes after it when it succeeds.
abbrev pub and_then :
    AppendEnd × LogFiles → (LogFiles → AppendEnd × LogFiles) → AppendEnd × LogFiles
and_then (appended, s) go = go s
and_then (wrong_id, s) go = (wrong_id, s)
and_then (wrong_last_id, s) go = (wrong_last_id, s)
and_then (io_failed, s) go = (io_failed, s)
and_then (panicked, s) go = (panicked, s)

abbrev pub flush_buffer : FileSystem → LogFiles → List LogData → AppendEnd × LogFiles
flush_buffer io s [] = (appended, s)
flush_buffer io s (l ∷ ls) = if io.writes then (appended, flushed s) else (panicked, s)

unfoldable pub flush_commit_logs : FileSystem → LogFiles → AppendEnd × LogFiles
flush_commit_logs io s = flush_buffer io s s.committed_logs

-- The rotation to a new file.
unfoldable pub rotate : FileSystem → LogFiles → AppendEnd × LogFiles
rotate io s = and_then (flush_commit_logs io s) (λ s1.
    if io.renames
    then (let s2 = record s1 { rotated = s1.rotated ++ (s1.file ∷ []); file = [] } in
        if io.opens
        then (let s3 = record s2 { current_start = s2.current_start + 1; current_count = 0 } in
            if io.saves then (appended, s3) else (io_failed, s3))
        else (io_failed, s2))
    else (io_failed, s1))

abbrev pub logrotate_num : ℕ
logrotate_num = 2000000

unfoldable pub rotate_if_full : FileSystem → LogFiles → AppendEnd × LogFiles
rotate_if_full io s = if leb logrotate_num s.current_count then rotate io s else (appended, s)

-- The entry goes to the file, or to the buffer.
unfoldable pub keep_entry : FileSystem → LogData → LogFiles → AppendEnd × LogFiles
keep_entry io l s =
    if s.capacity == 0
    then if io.writes then (appended, record s { file = s.file ++ (l ∷ []) }) else (io_failed, s)
    else and_then
        (if leb s.capacity (length s.committed_logs) then flush_commit_logs io s else (appended, s))
        (λ s1. (appended, record s1 { committed_logs = s1.committed_logs ++ (l ∷ []) }))

abbrev pub count_entry : LogData → LogFiles → LogFiles
count_entry l s = record s { current_count = s.current_count + 1; p_log_id = l.log_id }

abbrev pub for_slave : LogData → Bool → LogFiles → LogFiles
for_slave l slave s = if slave then record s { n_log_id = l.last_msg_log_id + 1 } else s

-- AppendCommitLog
unfoldable pub append_commit_log :
    FileSystem → LogFiles → LogData → (slave : Bool) → AppendEnd × LogFiles
append_commit_log io s l slave =
    if leb l.log_id s.p_log_id
    then (wrong_id, s)
    else if ltb l.last_msg_log_id l.log_id
    then (wrong_last_id, s)
    else and_then (rotate_if_full io (for_slave l slave s))
        (λ s1. and_then (keep_entry io l s1) (λ s2. (appended, count_entry l s2)))
