-- ===== src/DiskQueue/Ending.antt =====
-- UpdateQueueEnd of diskQueueReader, with internalUpdateEnd, and the check for the end of the queue. A
-- new end of nil is `none`; the reload that closes the open file is not modelled.
pub mod Ordered
use nsq.Base.{ℕ, Bool, true, false, ◌&&◌, ◌||◌, Option, none, some, ltb, ◌==◌, if◌then◌else◌}
use nsq.DiskQueue.{EndInfo, great_than}
use nsq.DiskQueue.Confirm.{DiskReader, update_depth}

-- The read and the confirmed position for a new end that is before the read position or not.
unfoldable pub take_end : Bool → EndInfo → DiskReader → DiskReader
take_end older end d =
    let r = if older then end else d.read_info in
    let c = d.confirmed_info in
    let past = great_than c.end_offset r.end_offset || ltb r.virtual_end c.virtual_end in
    let c' = if past then r else c in
    update_depth (record d {
      read_info = r;
      confirmed_info = c';
      waiting_more_data = if ltb c'.virtual_end end.virtual_end then false else d.waiting_more_data;
      end_info = end;
      need_sync = true;
    })

unfoldable pub internal_update_end : EndInfo → Bool → DiskReader → DiskReader × Bool
internal_update_end end force_reload d =
    let old = d.end_info in
    let r = d.read_info in
    let older = great_than r.end_offset end.end_offset || ltb end.virtual_end r.virtual_end in
    let same = end.virtual_end == old.virtual_end && end.total_msg_cnt == old.total_msg_cnt in
    if same
    then (d, false)
    else if older
    then if force_reload
      then (take_end true end d, true)
      else (record d { need_sync = true }, false)
    else (take_end false end d, true)

-- The result says whether the end changed; `none` is ErrExiting.
unfoldable pub update_queue_end : Option EndInfo → Bool → DiskReader → DiskReader × Option Bool
update_queue_end none force_reload d = (d, some false)
update_queue_end (some end) force_reload d =
    let (d', changed) = internal_update_end end force_reload d in
    if d.exit_flag then (d, none) else (d', some changed)

abbrev pub is_waiting_more_data : DiskReader → Bool
is_waiting_more_data d = d.waiting_more_data
