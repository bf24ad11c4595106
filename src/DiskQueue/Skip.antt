-- ===== src/DiskQueue/Skip.antt =====
-- The moves of diskQueueReader that do not read: internalSkipTo, and the methods that reset or skip
-- the read position. What the meta files of the data files hold is a parameter; so is `gone`, which
-- says whether a file that cannot be read is missing (os.IsNotExist). The file that is open and the
-- buffer that is read ahead are not modelled, nor is writing the position to disk (sync).
pub mod Ordered
pub mod Methods
pub mod ToEnd
use nsq.Base.{
  ℕ, zero, suc, ◌+◌, ◌-◌, Bool, true, false, ◌&&◌, ◌||◌, not, Option, none, some, ltb, leb, ◌==◌,
  if◌then◌else◌,
}
use nsq.Base.Bytes.{Outcome, ok, err, panic}
use nsq.DiskQueue.{Offset, EndInfo, great_than}
use nsq.DiskQueue.Step.{StepError, not_readable, step_forward, step_backward}
use nsq.DiskQueue.Confirm.{DiskReader, difference, update_depth, mark_sync}

pub data SkipError : Type 0 where
  skip_invalid : SkipError
  skip_exiting : SkipError
  skip_step : StepError → SkipError
  skip_meta : SkipError

-- What getQueueFileOffsetMeta finds: the count at the end of a data file, and the offsets at which the
-- file starts and ends.
pub data MetaRead : Type 0 where
  meta_missing : MetaRead
  meta_broken : MetaRead
  meta_of : ℕ → ℕ → ℕ → MetaRead

-- The count is put right, if one is given.
abbrev pub sync_cnt : ℕ → EndInfo → EndInfo
sync_cnt cnt e = record e { total_msg_cnt = if cnt == 0 then e.total_msg_cnt else cnt }

abbrev pub with_meta {ℓ} : {A : Type ℓ} → MetaRead → A → A → (ℕ → ℕ → ℕ → A) → A
with_meta meta_missing missing broken found = missing
with_meta meta_broken missing broken found = broken
with_meta (meta_of cnt start end) missing broken found = found cnt start end

-- The read position, or the end if it is beyond that, becomes the confirmed one too.
unfoldable pub land : Offset → ℕ → ℕ → DiskReader → DiskReader
land o voffset cnt d =
    let r : EndInfo = record { end_offset = o; virtual_end = voffset; total_msg_cnt = cnt } in
    let r' = if great_than o d.end_info.end_offset then d.end_info else r in
    update_depth (record d { read_info = r'; confirmed_info = r' })

abbrev pub land_on : Outcome SkipError (Offset × ℕ) → ℕ → DiskReader → DiskReader × Option SkipError
land_on (ok (o, cnt)) voffset d = (land o voffset cnt d, none)
land_on (err e) voffset d = (d, some e)
land_on panic voffset d = (d, some skip_invalid)

-- `if skiperr == nil`
abbrev pub when_done :
    (DiskReader → DiskReader) → DiskReader × Option SkipError → DiskReader × Option SkipError
when_done f (d, none) = (f d, none)
when_done f (d, some e) = (d, some e)

-- ResetLastReadOne
unfoldable pub reset_last_read_one : ℕ → ℕ → ℕ → DiskReader → DiskReader
reset_last_read_one offset cnt moved d =
    let r = d.read_info in
    let given = ltb 0 cnt || (offset == 0 && cnt == 0) in
    if ltb r.end_offset.pos moved then d else record d {
      read_info = record {
        end_offset = record { file_num = r.end_offset.file_num; pos = r.end_offset.pos - moved };
        virtual_end = offset;
        total_msg_cnt = if given then cnt else r.total_msg_cnt;
      };
    }

abbrev pub to_end : DiskReader → DiskReader
to_end d = record d { confirmed_info = d.end_info; read_info = d.end_info }

unfoldable pub skip_to_end_of_queue : DiskReader → DiskReader
skip_to_end_of_queue d =
    update_depth (record d { read_info = d.end_info; confirmed_info = d.end_info })

abbrev pub start_of_next : EndInfo → ℕ → ℕ → EndInfo
start_of_next c virtual cnt = record {
  end_offset = record { file_num = c.end_offset.file_num + 1; pos = 0 };
  virtual_end = virtual;
  total_msg_cnt = cnt;
}

abbrev pub go_on : DiskReader → EndInfo × Option SkipError → DiskReader × Option SkipError
go_on d (c, none) = (update_depth (record d { read_info = c; confirmed_info = c }), none)
go_on d (c, some e) = (record d { confirmed_info = c }, some e)

abbrev pub unless_exiting :
    (DiskReader → DiskReader × Option SkipError) → DiskReader → DiskReader × Option SkipError
unless_exiting op d =
    if d.exit_flag then (d, some skip_exiting) else mark_sync d.confirmed_info.virtual_end (op d)

abbrev pub with_cnt : ℕ → Outcome SkipError Offset → Outcome SkipError (Offset × ℕ)
with_cnt cnt (ok o) = ok (o, cnt)
with_cnt cnt (err e) = err e
with_cnt cnt panic = panic

module _ (size : ℕ → Option ℕ) (gone : Bool) (meta : ℕ → MetaRead) where
  -- The search through the meta files, in the file that is `left` files before the end's.
  unfoldable pub find_by_meta : (left file voffset : ℕ) → EndInfo → Outcome SkipError Offset
  find_by_meta zero file voffset e =
      if ltb (voffset + e.end_offset.pos) e.virtual_end
      then err (skip_step not_readable)
      else ok (record { file_num = file; pos = voffset + e.end_offset.pos - e.virtual_end })
  find_by_meta (suc left) file voffset e =
      let next = find_by_meta left (file + 1) voffset e in
      with_meta (meta file) next (err (skip_step not_readable)) (λ cnt start end.
        if leb end voffset
        then next
        else ok (record { file_num = file; pos = difference voffset start }))

  -- A step forward that found no file is tried through the meta files.
  unfoldable pub after_step : Outcome StepError Offset → ℕ → DiskReader → Outcome SkipError Offset
  after_step (ok o) voffset d = ok o
  after_step panic voffset d = panic
  after_step (err not_readable) voffset d =
      let a = d.read_info.end_offset.file_num in
      let e = d.end_info in
      let searched = find_by_meta (e.end_offset.file_num - a) a voffset e in
      if gone && leb d.read_info.virtual_end voffset then searched else err (skip_step not_readable)
  after_step (err e) voffset d = err (skip_step e)

  unfoldable pub step_to : ℕ → DiskReader → Outcome StepError Offset
  step_to voffset d =
      let r = d.read_info in
      if ltb voffset r.virtual_end
      then step_backward size r (r.virtual_end - voffset) d.end_info
      else step_forward size r (voffset - r.virtual_end) d.end_info

  -- The position to skip to, and the count of messages before it.
  unfoldable pub find_position : ℕ → ℕ → DiskReader → Outcome SkipError (Offset × ℕ)
  find_position voffset cnt d =
      let e = d.end_info in
      let at_end =
        if cnt == 0
        then ok (e.end_offset, e.total_msg_cnt)
        else if cnt == e.total_msg_cnt
        then ok (e.end_offset, cnt)
        else err skip_invalid in
      if ltb e.virtual_end voffset || ltb e.total_msg_cnt cnt
      then err skip_invalid
      else if voffset == e.virtual_end
      then at_end
      else if cnt == 0 && not (voffset == 0)
      then err skip_invalid
      else with_cnt cnt (after_step (step_to voffset d) voffset d)

  unfoldable pub internal_skip_to : ℕ → ℕ → Bool → DiskReader → DiskReader × Option SkipError
  internal_skip_to voffset cnt back d =
      let r = sync_cnt cnt d.read_info in
      let c = sync_cnt cnt d.confirmed_info in
      if voffset == d.read_info.virtual_end
      then (update_depth (record d { read_info = r; confirmed_info = r }), none)
      else if voffset == d.confirmed_info.virtual_end
      then (update_depth (record d { read_info = c; confirmed_info = c }), none)
      else if ltb voffset d.confirmed_info.virtual_end && not back
      then (d, some skip_invalid)
      else land_on (find_position voffset cnt d) voffset d

  unfoldable pub reset_read_to_confirmed : DiskReader → DiskReader × Option SkipError
  reset_read_to_confirmed d =
      let c = d.confirmed_info in
      unless_exiting (internal_skip_to c.virtual_end c.total_msg_cnt false) d

  unfoldable pub reset_read_to_offset : ℕ → ℕ → DiskReader → DiskReader × Option SkipError
  reset_read_to_offset offset cnt d =
      unless_exiting (internal_skip_to offset cnt (ltb offset d.confirmed_info.virtual_end)) d

  unfoldable pub skip_read_to_offset : ℕ → ℕ → DiskReader → DiskReader × Option SkipError
  skip_read_to_offset offset cnt d = unless_exiting (internal_skip_to offset cnt false) d

  unfoldable pub skip_read_to_end : DiskReader → DiskReader × Option SkipError
  skip_read_to_end d =
      let e = d.end_info in
      unless_exiting
        (λ x. when_done to_end (internal_skip_to e.virtual_end e.total_msg_cnt false x)) d

  -- The loop of skipToNextFile. A data file that has no meta file is passed over, if it is one of
  -- `left`, those before the last but one.
  unfoldable pub next_meta : (left : ℕ) → EndInfo → EndInfo × Option SkipError
  next_meta zero c =
      with_meta (meta c.end_offset.file_num) (c, some skip_meta) (c, some skip_meta)
        (λ cnt start end. (start_of_next c end cnt, none))
  next_meta (suc left) c =
      let next = next_meta left (start_of_next c c.virtual_end c.total_msg_cnt) in
      with_meta (meta c.end_offset.file_num) next (c, some skip_meta)
        (λ cnt start end. (start_of_next c end cnt, none))

  unfoldable pub skip_to_next_file : DiskReader → DiskReader × Option SkipError
  skip_to_next_file d =
      let c = d.confirmed_info in
      let last = d.end_info.end_offset.file_num in
      if leb last c.end_offset.file_num
      then (skip_to_end_of_queue d, none)
      else go_on d (next_meta (last - 1 - c.end_offset.file_num) c)

  unfoldable pub skip_to_next : DiskReader → DiskReader × Option SkipError
  skip_to_next d = if d.exit_flag then (d, some skip_exiting) else skip_to_next_file d

  unfoldable pub handle_read_error : DiskReader → DiskReader
  handle_read_error d =
      let (d', e) = when_done (λ x. record x { need_sync = true }) (skip_to_next_file d) in d'
