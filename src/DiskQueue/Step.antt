-- ===== src/DiskQueue/Step.antt =====
-- stepOffset: the position that lies some bytes after another one. The sizes of the files, which
-- the file system gives, are a parameter: `none` where the file cannot be read.
pub mod Correct
use nsq.Base.{
  ℕ, zero, suc, ◌+◌, ◌-◌, Bool, true, false, Option, none, some, ltb, leb, ◌==◌, if◌then◌else◌,
}
use nsq.Base.Bytes.{Outcome, ok, err}
use nsq.DiskQueue.{Offset, EndInfo, great_than}

pub data StepError : Type 0 where
  offset_invalid : StepError
  exceeds_begin : StepError
  exceeds_max : StepError
  move_invalid : StepError
  not_readable : StepError
  out_of_fuel : StepError

module _ (size : ℕ → Option ℕ) where
  -- One turn of the forward loop, with the end of the file that the position is in. The difference
  -- `end - pos` is an int64 there and may be negative, so the tests are on sums here.
  unfoldable pub advance :
      Offset → (Offset → ℕ → Outcome StepError Offset) → Offset → ℕ → ℕ → Outcome StepError Offset
  advance max again o step end =
      let next : Offset = record { file_num = o.file_num + 1; pos = 0 } in
      let here : Offset = record { file_num = o.file_num; pos = o.pos + step } in
      let longer =
        if great_than next max then err offset_invalid else again next (o.pos + step - end) in
      let ended = if great_than here max then err offset_invalid else ok here in
      if ltb end (o.pos + step) then longer else ended

  abbrev pub with_end : Option ℕ → (ℕ → Outcome StepError Offset) → Outcome StepError Offset
  with_end none use_end = err not_readable
  with_end (some end) use_end = use_end end

  -- `inner` says that the start lies in an earlier file than the limit.
  unfoldable pub forward_loop : ℕ → Bool → Offset → Offset → ℕ → Outcome StepError Offset
  forward_loop zero inner max o step = err out_of_fuel
  forward_loop (suc fuel) inner max o step =
      let turn = advance max (forward_loop fuel inner max) o step in
      if inner then with_end (size o.file_num) turn else turn max.pos

  unfoldable pub step_forward : EndInfo → ℕ → EndInfo → Outcome StepError Offset
  step_forward cur step max =
      let a = cur.end_offset in
      let b = max.end_offset in
      let walk = forward_loop (b.file_num + 1 - a.file_num) (ltb a.file_num b.file_num) b a step in
      if ltb b.file_num a.file_num
      then err offset_invalid
      else if step == 0
      then ok a
      else if ltb max.virtual_end (cur.virtual_end + step)
      then err exceeds_max
      else walk

  -- The backward loop, with the number of the file and the place in it.
  unfoldable pub backward_loop : ℕ → ℕ → ℕ → Outcome StepError Offset
  backward_loop zero pos step =
      if leb step pos then ok (record { file_num = 0; pos = pos - step }) else err move_invalid
  backward_loop (suc n) pos step =
      let before = with_end (size n) (λ end. backward_loop n end (step - pos)) in
      if leb step pos then ok (record { file_num = suc n; pos = pos - step }) else before

  unfoldable pub step_backward : EndInfo → ℕ → EndInfo → Outcome StepError Offset
  step_backward cur step max =
      let a = cur.end_offset in
      let walk = backward_loop a.file_num a.pos step in
      if ltb max.end_offset.file_num a.file_num
      then err offset_invalid
      else if step == 0
      then ok a
      else if ltb cur.virtual_end step
      then err exceeds_begin
      else if ltb max.virtual_end (cur.virtual_end - step)
      then err exceeds_max
      else walk
