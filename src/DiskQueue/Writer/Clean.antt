-- ===== src/DiskQueue/Writer/Clean.antt =====
-- The removal of data files: Empty, Delete, ResetWriteWithQueueStart and CleanOldDataByRetention. That
-- a file could not be removed is not modelled.
pub mod Correct
use nsq.Base.{
  ℕ, zero, suc, ◌+◌, ◌-◌, Bool, true, false, ◌&&◌, ◌||◌, not, Option, none, some, List, [], ◌∷◌,
  ltb, leb, ◌==◌, if◌then◌else◌,
}
use nsq.DiskQueue.{Offset, EndInfo}
use nsq.DiskQueue.Skip.{MetaRead, meta_missing, meta_broken, meta_of, with_meta}
use nsq.DiskQueue.Writer.{
  DiskWriter, SyncEnd, sync, WriteError, exiting, close_current_file, save_file_offset_meta,
  to_next_file,
}

abbrev pub files_after : {A : Type 0} → ℕ → A → (ℕ → A) → ℕ → A
files_after n gone files k = if leb k n then gone else files k

-- cleanOldData: every data file up to the write end's is removed, with what a flush of the buffer left
-- in it, and the queue starts with the next.
unfoldable pub clean_old_data : DiskWriter → DiskWriter
clean_old_data d =
    let d1 = save_file_offset_meta (close_current_file none d) in
    let w = to_next_file d1.write_end in
    record d1 {
      files = files_after d1.write_end.end_offset.file_num none d1.files;
      write_end = w;
      read_end = w;
      queue_start = w;
    }

-- deleteAllFiles
unfoldable pub delete_all_files : Bool → DiskWriter → DiskWriter
delete_all_files deleted d =
    let d1 = clean_old_data d in
    let metas = files_after d1.write_end.end_offset.file_num meta_missing d1.metas in
    if deleted then record d1 { metas = metas } else d1

-- Empty
unfoldable pub empty : DiskWriter → DiskWriter × Option WriteError
empty d = if d.exit_flag then (d, some exiting) else (delete_all_files false d, none)

-- Close and Delete
unfoldable pub exit : Bool → SyncEnd → DiskWriter → DiskWriter
exit deleted s d =
    let d1 = (sync s (record d { exit_flag = true })).0 in
    if deleted then delete_all_files true d1 else d1

-- ResetWriteWithQueueStart
unfoldable pub reset_write_with_queue_start : (offset cnt : ℕ) → DiskWriter → DiskWriter
reset_write_with_queue_start offset cnt d =
    let d1 = clean_old_data d in
    let s : EndInfo = record {
      end_offset = record { file_num = d1.write_end.end_offset.file_num + 1; pos = 0 };
      virtual_end = offset;
      total_msg_cnt = cnt;
    } in
    record d1 { queue_start = s; write_end = s; read_end = s }

-- Up to where to clean: a position in the files, or an offset alone.
pub data CleanEnd : Type 0 where
  by_file : Offset → ℕ → CleanEnd
  by_offset : ℕ → CleanEnd

pub data CleanError : Type 0 where
  no_meta : CleanError
  exceeds_allowed : CleanError

-- A new start of the queue with the first file that stays; no start at all; or an error, with the
-- start that is returned beside it.
pub data NewStart : Type 0 where
  start_at : EndInfo → ℕ → NewStart
  stay : NewStart
  no_start : NewStart
  fails : EndInfo → CleanError → NewStart

abbrev pub exceeds : ℕ → ℕ → Bool
exceeds max_offset offset = not (max_offset == 0) && ltb max_offset offset

abbrev pub start_of_file : ℕ → ℕ → ℕ → EndInfo
start_of_file file virtual cnt = record {
  end_offset = record { file_num = file; pos = 0 };
  virtual_end = virtual;
  total_msg_cnt = cnt;
}

-- The start for a position, with the end of the file before its file.
unfoldable pub start_by_file : (ℕ → MetaRead) → (file max_offset : ℕ) → EndInfo → NewStart
start_by_file metas zero max_offset s = stay
start_by_file metas (suc n) max_offset s =
    with_meta (metas n) (fails s no_meta) (fails s no_meta) (λ cnt start end.
      if exceeds max_offset end
      then fails s exceeds_allowed
      else start_at (start_of_file (suc n) end cnt) (suc n))

-- The loop over the meta files for an offset. `last` is the last file that may be cleaned.
unfoldable pub start_by_offset :
    (ℕ → MetaRead) → (fuel last clean_file offset : ℕ) → EndInfo → NewStart
start_by_offset metas zero last clean_file offset s = start_at s clean_file
start_by_offset metas (suc fuel) last clean_file offset s =
    let n = s.end_offset.file_num in
    with_meta (metas n) (fails s no_meta) (fails s no_meta) (λ cnt start end.
      let rest = start_by_offset metas fuel last (n + 1) offset (start_of_file (n + 1) end cnt) in
      if ltb end offset && not (leb last clean_file) then rest else start_at s clean_file)

unfoldable pub new_start : CleanEnd → ℕ → DiskWriter → NewStart
new_start (by_file o offset) max_offset d =
    let last = d.read_end.end_offset.file_num - 1 in
    let file = if leb last o.file_num then last else o.file_num in
    if exceeds max_offset offset
    then no_start
    else start_by_file d.metas file max_offset d.queue_start
new_start (by_offset offset0) max_offset d =
    let r = d.read_end in
    let in_file = r.virtual_end - r.end_offset.pos in
    let offset1 = if leb in_file offset0 then in_file else offset0 in
    let offset = if exceeds max_offset offset1 then max_offset else offset1 in
    start_by_offset d.metas (r.end_offset.file_num + 1) (r.end_offset.file_num - 1) 0 offset
      d.queue_start

-- MAX_QUEUE_OFFSET_META_DATA_KEEP
abbrev pub meta_data_keep : ℕ
meta_data_keep = 100

-- The data files before `clean_file` are removed, and the meta files of all but the last of them.
unfoldable pub start_from : EndInfo → ℕ → DiskWriter → DiskWriter
start_from s clean_file d = record d {
  queue_start = s;
  files = λ k. if ltb k clean_file then none else d.files k;
  metas = λ k.
      if ltb k clean_file && leb (k + meta_data_keep) clean_file then meta_missing else d.metas k;
}

abbrev pub clean_to : Bool → NewStart → DiskWriter → DiskWriter × Option EndInfo × Option CleanError
clean_to no_real_clean stay d = (d, some d.queue_start, none)
clean_to no_real_clean no_start d = (d, none, none)
clean_to no_real_clean (fails s e) d = (d, some s, some e)
clean_to no_real_clean (start_at s clean_file) d =
    (if no_real_clean then d else start_from s clean_file d, some s, none)

-- CleanOldDataByRetention
unfoldable pub clean_old_data_by_retention :
    Option CleanEnd → Bool → ℕ → DiskWriter → DiskWriter × Option EndInfo × Option CleanError
clean_old_data_by_retention none no_real_clean max_offset d = (d, none, none)
clean_old_data_by_retention (some e) no_real_clean max_offset d =
    clean_to no_real_clean (new_start e max_offset d) d
