-- ===== src/DiskQueue/Tests/Positions.antt =====
-- The moves of the reader of Tests, with messages of six bytes.
use nsq.Base.{ℕ, zero, suc, ◌≤◌, ◌≡◌, refl, arith, true, false, Option, none, some}
use nsq.Base.Bytes.{ok}
use nsq.DiskQueue.{Offset, great_than}
use nsq.DiskQueue.Step.{advance, forward_loop, step_forward, backward_loop, step_backward}
use nsq.DiskQueue.Confirm.{DiskReader, update_depth}
use nsq.DiskQueue.Confirm.Correct.{IsOrdered}
use nsq.DiskQueue.Step.Correct.{IsLaidOut}
use nsq.DiskQueue.Skip.{
  SkipError, skip_invalid, MetaRead, meta_missing, meta_of, land, find_by_meta, after_step, step_to,
  find_position, internal_skip_to, skip_read_to_offset, reset_read_to_offset, skip_read_to_end,
  next_meta, skip_to_next, skip_to_next_file, reset_last_read_one,
}
use nsq.DiskQueue.Skip.Ordered.{SkipsTo}
use nsq.DiskQueue.Skip.Methods.{skip_read_to_offset_correct}
use nsq.DiskQueue.Skip.ToEnd.{EndsAt, skip_read_to_end_correct}
use nsq.DiskQueue.Ending.{update_queue_end, internal_update_end, take_end}
use nsq.DiskQueue.Read.{read_message, check_file_open, read_one}
use nsq.DiskQueue.Read.Placed.{IsReading, read_one_in_bounds}
use nsq.DiskQueue.Tests.{size, start, info, reader, reader-IsOrdered}

abbrev meta : ℕ → MetaRead
meta zero = meta_of 10 0 100
meta (suc zero) = meta_of 20 100 200
meta (suc (suc n)) = meta_missing

abbrev at : DiskReader × Option SkipError → Offset × Offset × Option SkipError
at (d, e) = (d.confirmed_info.end_offset, d.read_info.end_offset, e)

abbrev place : ℕ → ℕ → Offset
place file pos = record { file_num = file; pos = pos }

skips_forward :
    at (skip_read_to_offset size true meta 230 23 reader) ≡ (place 2 30, place 2 30, none)
unfolding skip_read_to_offset internal_skip_to find_position after_step step_to step_forward
    forward_loop advance great_than land update_depth
skips_forward = refl

stays_before_confirmed :
    at (skip_read_to_offset size true meta 20 2 reader)
    ≡ (place 0 30, place 2 20, some skip_invalid)
unfolding skip_read_to_offset internal_skip_to
stays_before_confirmed = refl

resets_backward :
    at (reset_read_to_offset size true meta 20 2 reader) ≡ (place 0 20, place 0 20, none)
unfolding reset_read_to_offset internal_skip_to find_position after_step step_to step_backward
    backward_loop great_than land update_depth
resets_backward = refl

-- Without the data files, the meta files lead to the place.
finds_by_meta : find_by_meta size true meta 2 0 130 (info 2 40 24) ≡ ok (place 1 30)
unfolding find_by_meta
finds_by_meta = refl

goes_to_next : at (skip_to_next size true meta reader) ≡ (place 1 0, place 1 0, none)
unfolding skip_to_next skip_to_next_file next_meta update_depth
goes_to_next = refl

puts_back : (reset_last_read_one 214 21 6 reader).read_info.end_offset ≡ place 2 14
unfolding reset_last_read_one
puts_back = refl

abbrev length_at : ℕ → ℕ → ℕ
length_at file pos = 2

reads_one :
    (read_one size length_at reader).1 ≡ ok (record { offset = 220; moved_size = 6; cur_cnt = 23 })
unfolding read_one check_file_open read_message
reads_one = refl

-- The end moves back before the read position, and that only with a reload.
rolls_back : (update_queue_end (some (info 2 10 21)) true reader).0.read_info ≡ info 2 10 21
unfolding update_queue_end internal_update_end take_end update_depth great_than
rolls_back = refl

keeps_end : (update_queue_end (some (info 2 10 21)) false reader).1 ≡ some false
unfolding update_queue_end internal_update_end great_than
keeps_end = refl

skip_read_to_offset_correct_example :
    let q = skip_read_to_offset size true meta 230 23 reader in
    SkipsTo 230 false reader q.0 q.1
    × IsOrdered q.0
    × (reader.confirmed_info.virtual_end ≤ q.0.confirmed_info.virtual_end)
skip_read_to_offset_correct_example =
    skip_read_to_offset_correct size true meta 230 23 reader reader-IsOrdered

skip_read_to_end_correct_example : EndsAt reader.end_info (skip_read_to_end size true meta reader)
skip_read_to_end_correct_example =
    skip_read_to_end_correct size true meta reader reader-IsOrdered refl

laid_to_end : IsLaidOut size start (place 2 40)
laid_to_end = record {
  full = λ n h. (100, ground arith, omega arith);
  last = (40, refl, omega arith);
}

reader-IsReading : IsReading size start reader
unfolding great_than
reader-IsReading = record {
  at = record { placed = refl; before = refl; inside = λ k e. ground arith };
  end_placed = refl;
  laid = laid_to_end;
}

read_one_in_bounds_example :
    IsReading size start (read_one size length_at reader).0
    × (let d' = (read_one size length_at reader).0 in
        d'.read_info.virtual_end ≤ d'.end_info.virtual_end)
read_one_in_bounds_example = read_one_in_bounds size start length_at reader reader-IsReading

abbrev skipped : DiskReader
skipped = (skip_read_to_offset size true meta 230 23 reader).0
