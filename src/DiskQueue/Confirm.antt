-- ===== src/DiskQueue/Confirm.antt =====
-- ConfirmRead of diskQueueReader. Writing the position to disk (sync) is not modelled. -1 as an
-- offset is `none`. An int64 difference is its bit pattern.
pub mod Correct
use nsq.Base.{
  ℕ, ◌+◌, ◌-◌, ◌%◌, Bool, true, false, ◌&&◌, ◌||◌, not, Option, none, some, ltb, leb, ◌==◌,
  if◌then◌else◌, u64_mod,
}
use nsq.Base.Bytes.{Outcome, ok, err, panic}
use nsq.DiskQueue.{Offset, EndInfo, great_than}
use nsq.DiskQueue.Step.{StepError, step_forward}

pub data ConfirmError : Type 0 where
  confirm_size_invalid : ConfirmError
  confirm_cnt_invalid : ConfirmError
  is_exiting : ConfirmError

-- diskQueueReader
pub record DiskReader : Type 0 where
  pub read_info : EndInfo  -- readQueueInfo
  pub end_info : EndInfo  -- queueEndInfo
  pub confirmed_info : EndInfo  -- confirmedQueueInfo
  pub depth : ℕ  -- int64
  pub depth_size : ℕ  -- int64
  pub exit_flag : Bool
  pub need_sync : Bool
  pub waiting_more_data : Bool

abbrev pub difference : ℕ → ℕ → ℕ
difference a b = (a + u64_mod - b) % u64_mod

-- updateDepth: the depth, and a confirmed position that conflicts with the end is put right.
unfoldable pub update_depth : DiskReader → DiskReader
update_depth d =
    let c = d.confirmed_info in
    let e = d.end_info in
    let size = difference e.virtual_end c.virtual_end in
    let depth = difference e.total_msg_cnt c.total_msg_cnt in
    let conflict = size == 0 && not (depth == 0) in
    if ltb e.end_offset.file_num c.end_offset.file_num
    then record d { depth = 0; depth_size = 0; waiting_more_data = true }
    else record d {
      depth = depth;
      depth_size = size;
      confirmed_info = if conflict then e else c;
      waiting_more_data = if size == 0 || depth == 0 then true else d.waiting_more_data;
    }

-- The new confirmed position, if stepOffset found one.
unfoldable pub confirm_at :
    ℕ → ℕ → Outcome StepError Offset → DiskReader → DiskReader × Option ConfirmError
confirm_at offset cnt (err e) d = (d, some confirm_size_invalid)
confirm_at offset cnt panic d = (d, some confirm_size_invalid)
confirm_at offset cnt (ok o) d =
    if great_than o d.end_info.end_offset || ltb d.end_info.virtual_end offset
    then (d, some confirm_size_invalid)
    else (
      update_depth (record d {
        confirmed_info = record { end_offset = o; virtual_end = offset; total_msg_cnt = cnt };
      }),
      none,
    )

abbrev pub mark_sync : {E : Type 0} → ℕ → DiskReader × Option E → DiskReader × Option E
mark_sync old (d, e) =
    (record d { need_sync = if old == d.confirmed_info.virtual_end then d.need_sync else true }, e)

module _ (size : ℕ → Option ℕ) where
  unfoldable pub confirm_offset : ℕ → ℕ → DiskReader → DiskReader × Option ConfirmError
  confirm_offset offset cnt0 d =
      let r = d.read_info in
      let at_read = offset == r.virtual_end in
      let cnt = if at_read && cnt0 == 0 then r.total_msg_cnt else cnt0 in
      let moved = step_forward size d.confirmed_info (offset - d.confirmed_info.virtual_end) r in
      if leb offset d.confirmed_info.virtual_end
      then (d, none)
      else if ltb r.virtual_end offset
      then (d, some confirm_size_invalid)
      else if at_read && not (cnt == r.total_msg_cnt)
      then (d, some confirm_cnt_invalid)
      else if cnt == 0 && not (offset == 0)
      then (d, some confirm_cnt_invalid)
      else confirm_at offset cnt moved d

  unfoldable pub internal_confirm : Option ℕ → ℕ → DiskReader → DiskReader × Option ConfirmError
  internal_confirm none cnt d = (update_depth (record d { confirmed_info = d.read_info }), none)
  internal_confirm (some offset) cnt d = confirm_offset offset cnt d

  unfoldable pub confirm_read : Option ℕ → ℕ → DiskReader → DiskReader × Option ConfirmError
  confirm_read offset cnt d =
      if d.exit_flag
      then (d, some is_exiting)
      else mark_sync d.confirmed_info.virtual_end (internal_confirm offset cnt d)
