-- ===== src/DiskQueue/Tests.antt =====
-- A reader of a queue with two full files and a third one in which the writer is.
mod Positions
mod Writes
use nsq.Base.{ℕ, ◌+◌, ◌*◌, ◌≡◌, refl, arith, false, Option, none, some, ltb, ◌==◌, if◌then◌else◌}
use nsq.Base.Bytes.{ok}
use nsq.DiskQueue.{Offset, EndInfo, great_than}
use nsq.DiskQueue.Step.{advance, forward_loop, step_forward, backward_loop, step_backward}
use nsq.DiskQueue.Step.Correct.{
  virtual, IsLaidOut, IsBefore, step_forward_correct, step_backward_correct,
}
use nsq.DiskQueue.Confirm.{DiskReader, confirm_read}
use nsq.DiskQueue.Confirm.Correct.{IsOrdered, ConfirmsTo, confirm_read_correct}
use nsq.DiskQueue.Moves.{IsPlacedReader, confirm_read_moves}

abbrev pub size : ℕ → Option ℕ
size n = if ltb n 2 then some 100 else if n == 2 then some 40 else none

abbrev pub start : ℕ → ℕ
start n = 100 * n

abbrev pub info : ℕ → ℕ → ℕ → EndInfo
info file pos cnt = record {
  end_offset = record { file_num = file; pos = pos };
  virtual_end = 100 * file + pos;
  total_msg_cnt = cnt;
}

abbrev pub reader : DiskReader
reader = record {
  read_info = info 2 20 22;
  end_info = info 2 40 24;
  confirmed_info = info 0 30 3;
  depth = 21;
  depth_size = 210;
  exit_flag = false;
  need_sync = false;
  waiting_more_data = false;
}

two_files_on :
    step_forward size (info 0 30 3) 180 (info 2 20 22) ≡ ok (record { file_num = 2; pos = 10 })
unfolding step_forward forward_loop advance great_than
two_files_on = refl

one_file_back :
    step_backward size (info 2 20 22) 60 (info 2 40 24) ≡ ok (record { file_num = 1; pos = 60 })
unfolding step_backward backward_loop
one_file_back = refl

pub laid : IsLaidOut size start (record { file_num = 2; pos = 20 })
laid = record { full = λ n h. (100, ground arith, omega arith); last = (40, refl, omega arith) }

pub reader-IsOrdered : IsOrdered reader
reader-IsOrdered = record { confirmed_le = omega arith; read_le = omega arith; bound = omega arith }

reader-IsPlacedReader : IsPlacedReader size start reader
unfolding great_than
reader-IsPlacedReader = record {
  ordered = reader-IsOrdered;
  confirmed = refl;
  read = refl;
  end = refl;
  before_read = refl;
  before_end = refl;
  laid = laid;
}

step_forward_correct_example :
    (r : Offset) × (step_forward size (info 0 30 3) 180 (info 2 20 22) ≡ ok r)
    × (virtual size start r ≡ 210)
    × IsBefore size start r (record { file_num = 2; pos = 20 })
unfolding great_than
step_forward_correct_example =
    step_forward_correct size start (info 0 30 3) (info 2 20 22) 180 laid (omega arith) refl refl
      refl (omega arith)

confirm_read_correct_example :
    ConfirmsTo 210 reader
      (confirm_read size (some 210) 21 reader).0
      (confirm_read size (some 210) 21 reader).1
    × IsOrdered (confirm_read size (some 210) 21 reader).0
confirm_read_correct_example = confirm_read_correct size 210 21 reader reader-IsOrdered

confirm_read_moves_example :
    ((confirm_read size (some 210) 21 reader).1 ≡ none)
    × ((confirm_read size (some 210) 21 reader).0.confirmed_info.virtual_end ≡ 210)
    × (virtual size start (confirm_read size (some 210) 21 reader).0.confirmed_info.end_offset
        ≡ 210)
confirm_read_moves_example =
    confirm_read_moves size start 210 21 reader reader-IsPlacedReader refl (omega arith)
      (omega arith) (λ e. omega arith) (λ e. absurd (omega arith))
