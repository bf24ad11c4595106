-- ===== src/DiskQueue/Tests/Writes.antt =====
-- A writer with files of at least twelve bytes, in the second one.
use nsq.Base.{
  ℕ, zero, suc, ◌≤◌, ◌<◌, ◌≡◌, refl, arith, true, false, Option, none, some, List, [], ◌∷◌,
}
use nsq.DiskQueue.{Offset, EndInfo}
use nsq.DiskQueue.Confirm.{DiskReader}
use nsq.DiskQueue.Skip.{MetaRead, meta_missing, meta_of}
use nsq.DiskQueue.Writer.{
  DiskWriter, kept_in_buffer, buffer_bytes, pad, write_lost, flush_buffer, on_disk, synced, WriteIo,
  invalid_offset, sync, roll, append_bytes, write_one, put_v2, put_raw_v2, run_exists, cut_files,
  back_to, rollback_write_v2, find_write_end, reset_write_end_v2,
}
use nsq.DiskQueue.Writer.Clean.{start_by_offset, new_start, by_offset, clean_old_data_by_retention}
use nsq.DiskQueue.Writer.Log.{span, log, IsLog}
use nsq.DiskQueue.Writer.Log.Back.{CutsTo, can_roll_back, rollback_write_v2_correct}
use nsq.DiskQueue.Writer.Log.Reset.{can_reset, reset_write_end_v2_correct}

abbrev place : ℕ → ℕ → Offset
place file pos = record { file_num = file; pos = pos }

abbrev info : ℕ → ℕ → ℕ → ℕ → EndInfo
info file pos virtual cnt = record {
  end_offset = place file pos;
  virtual_end = virtual;
  total_msg_cnt = cnt;
}

abbrev files : ℕ → Option (List ℕ)
files zero = some (0 ∷ 0 ∷ 0 ∷ 2 ∷ 7 ∷ 8 ∷ 0 ∷ 0 ∷ 0 ∷ 2 ∷ 5 ∷ 6 ∷ [])
files (suc zero) = some (0 ∷ 0 ∷ 0 ∷ 2 ∷ 3 ∷ 4 ∷ [])
files (suc (suc n)) = none

abbrev metas : ℕ → MetaRead
metas zero = meta_of 2 0 12
metas (suc zero) = meta_of 4 12 24
metas (suc (suc n)) = meta_missing

abbrev writer : DiskWriter
writer = record {
  write_end = info 1 6 18 3;
  read_end = info 1 6 18 3;
  queue_start = info 0 0 0 0;
  max_bytes_per_file = 12;
  min_msg_size = 1;
  max_msg_size = 100;
  exit_flag = false;
  need_sync = true;
  files = files;
  unflushed = 4;
  buffer_failed = false;
  metas = metas;
}

abbrev body : List ℕ
body = 1 ∷ 2 ∷ []

abbrev io : WriteIo
io = record { opened = true; written = true; arrived = 0; sync_end = synced }

-- Without a flush, four bytes of the current file are not in the file system.
buffered : on_disk writer 1 ≡ some (0 ∷ 0 ∷ [])
buffered = refl

-- Those four bytes are lost when the next write fails at once.
lost :
    log (put_v2 body (record io { written = false }) writer).0
    ≡ 0 ∷ 0 ∷ 0 ∷ 2 ∷ 7 ∷ 8 ∷ 0 ∷ 0 ∷ 0 ∷ 2 ∷ 5 ∷ 6 ∷ 0 ∷ 0 ∷ []
unfolding put_v2 write_one write_lost sync span pad append_bytes buffer_bytes kept_in_buffer
lost = refl

-- The second message fills the file.
begins_next : (put_raw_v2 (0 ∷ 0 ∷ 0 ∷ 2 ∷ 1 ∷ 2 ∷ []) 1 io writer).0.write_end ≡ info 2 0 24 4
unfolding put_raw_v2 write_one append_bytes buffer_bytes roll sync
begins_next = refl

rolls_back :
    log (rollback_write_v2 12 1 synced writer).0
    ≡ 0 ∷ 0 ∷ 0 ∷ 2 ∷ 7 ∷ 8 ∷ 0 ∷ 0 ∷ 0 ∷ 2 ∷ 5 ∷ 6 ∷ []
unfolding rollback_write_v2 back_to sync cut_files run_exists span pad
rolls_back = refl

not_across_files : (rollback_write_v2 6 2 synced writer).1 ≡ some invalid_offset
unfolding rollback_write_v2
not_across_files = refl

resets_across_files : log (reset_write_end_v2 6 1 synced writer).0 ≡ 0 ∷ 0 ∷ 0 ∷ 2 ∷ 7 ∷ 8 ∷ []
unfolding reset_write_end_v2 find_write_end sync cut_files run_exists span pad
resets_across_files = refl

cleans_first_file :
    (clean_old_data_by_retention
      (some (by_offset 18))
      false
      0
      (record writer { read_end = info 2 0 24 4 })).1
    ≡ some (info 1 0 12 2)
unfolding clean_old_data_by_retention new_start start_by_offset
cleans_first_file = refl

writer-IsLog : IsLog writer
unfolding span
writer-IsLog = record {
  ordered = omega arith;
  exact = refl;
  placed = refl;
  present = there;
  ahead = gone;
}
  where
    there : (k : ℕ) → 0 ≤ k → k < 1 → (b : List ℕ) × (files k ≡ some b)
    there zero low high = (0 ∷ 0 ∷ 0 ∷ 2 ∷ 7 ∷ 8 ∷ 0 ∷ 0 ∷ 0 ∷ 2 ∷ 5 ∷ 6 ∷ [], refl)
    there (suc k) low high = absurd (omega arith)

    gone : (k : ℕ) → 1 < k → files k ≡ none
    gone zero past = absurd (omega arith)
    gone (suc zero) past = absurd (omega arith)
    gone (suc (suc k)) past = refl

rollback_write_v2_correct_example :
    let q = rollback_write_v2 12 1 synced writer in
    CutsTo 12 (can_roll_back 12 1 writer) writer q.0 q.1
rollback_write_v2_correct_example = rollback_write_v2_correct 12 1 synced writer writer-IsLog refl

reset_write_end_v2_correct_example :
    let q = reset_write_end_v2 6 1 synced writer in CutsTo 6 (can_reset 6 1 writer) writer q.0 q.1
reset_write_end_v2_correct_example =
    reset_write_end_v2_correct 6 1 synced writer writer-IsLog refl refl

abbrev reader : DiskReader
reader = record {
  read_info = info 1 6 18 3;
  end_info = (flush_buffer none (put_v2 body io writer).0).read_end;
  confirmed_info = info 0 0 0 0;
  depth = 3;
  depth_size = 18;
  exit_flag = false;
  need_sync = false;
  waiting_more_data = false;
}
