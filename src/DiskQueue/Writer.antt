-- ===== src/DiskQueue/Writer.antt =====
-- nsqd/diskqueue_writer.go: the writer of a disk queue. The state has the data files, `none` for one
-- that is missing, and what the meta files say. The bytes in bufferWriter stand at the end of the current
-- file, and `unflushed` is their number: the file system has the file without them (`on_disk`).
-- What the file system does is an argument. When a write or a flush fails, the buffer's bytes are
-- lost but for those that arrived. The files of the writer's own positions are not modelled, nor
-- that a file could not be truncated or renamed.
pub mod Log
pub mod Clean
pub mod ReadBack
use nsq.Base.{
  ℕ, zero, suc, ◌+◌, ◌-◌, Bool, true, false, ◌&&◌, ◌||◌, not, Option, none, some, List, [], ◌∷◌,
  ◌++◌, length, take, drop, ltb, leb, ◌==◌, if◌then◌else◌,
}
use nsq.Base.Bytes.{put_be}
use nsq.DiskQueue.{Offset, EndInfo}
use nsq.DiskQueue.Skip.{MetaRead, meta_of}

pub data WriteError : Type 0 where
  exiting : WriteError
  not_opened : WriteError
  invalid_write_size : WriteError
  not_written : WriteError
  not_synced : WriteError
  invalid_offset : WriteError
  not_found : WriteError

-- diskQueueWriter
pub record DiskWriter : Type 0 where
  pub write_end : EndInfo  -- diskWriteEnd
  pub read_end : EndInfo  -- diskReadEnd
  pub queue_start : EndInfo  -- diskQueueStart
  pub max_bytes_per_file : ℕ
  pub min_msg_size : ℕ
  pub max_msg_size : ℕ
  pub exit_flag : Bool
  pub need_sync : Bool
  pub files : ℕ → Option (List ℕ)
  pub unflushed : ℕ
  pub buffer_failed : Bool  -- the error that bufferWriter keeps
  pub metas : ℕ → MetaRead

-- How `sync` ends: well, with an error of the file's Sync or of the meta data, or after a flush that
-- failed when so many bytes had arrived.
pub data SyncEnd : Type 0 where
  synced : SyncEnd
  not_flushed : SyncEnd
  not_persisted : SyncEnd
  flush_lost : ℕ → SyncEnd → SyncEnd

-- How the calls of the file system end in one write: whether the file could be opened, whether the
-- buffer took the bytes, how many bytes arrived in the file if it did not, and how `sync` ended.

pub record WriteIo : Type 0 where
  pub opened : Bool
  pub written : Bool
  pub arrived : ℕ
  pub sync_end : SyncEnd

-- The offset at which the data starts, the bytes written, and the end after it.
pub record WriteResult : Type 0 where
  pub offset : ℕ
  pub write_bytes : ℕ
  pub end : Option EndInfo
  pub error : Option WriteError

abbrev pub write_failed : WriteError → WriteResult
write_failed e = record { offset = 0; write_bytes = 0; end = none; error = some e }

abbrev pub content : Option (List ℕ) → List ℕ
content none = []
content (some b) = b

abbrev pub with_file : {A : Type 0} → (ℕ → A) → ℕ → A → ℕ → A
with_file files n b k = if k == n then b else files k

-- os.OpenFile with O_CREATE
abbrev pub open_file : DiskWriter → DiskWriter
open_file d =
    let n = d.write_end.end_offset.file_num in
    record d { files = with_file d.files n (some (content (d.files n))) }

-- The end of the current file up to the write end, but for the bytes that did not arrive.
abbrev pub arrived_in : ℕ → DiskWriter → List ℕ → List ℕ
arrived_in arrived d bytes = take (d.write_end.end_offset.pos - d.unflushed + arrived) bytes

-- A flush of the buffer that fails. With an empty buffer it does nothing.
unfoldable pub lose : ℕ → DiskWriter → DiskWriter
lose arrived d =
    let n = d.write_end.end_offset.file_num in
    if d.unflushed == 0 then d else record d {
      files = with_file d.files n (some (arrived_in arrived d (content (d.files n))));
      unflushed = 0;
      buffer_failed = true;
    }

-- sync. The error of the flush is ignored; an error of the file's Sync closes the file, and with
-- the next file the buffer has no error.
unfoldable pub sync : SyncEnd → DiskWriter → DiskWriter × Option WriteError
sync synced d = (record d { read_end = d.write_end; need_sync = false; unflushed = 0 }, none)
sync not_flushed d = (record d { unflushed = 0; buffer_failed = false }, some not_synced)
sync not_persisted d = (record d { read_end = d.write_end; unflushed = 0 }, some not_synced)
sync (flush_lost arrived s) d = sync s (lose arrived d)

-- saveFileOffsetMeta
abbrev pub save_file_offset_meta : DiskWriter → DiskWriter
save_file_offset_meta d =
    let w = d.write_end in
    record d {
      metas =
          with_file d.metas w.end_offset.file_num
            (meta_of w.total_msg_cnt (w.virtual_end - w.end_offset.pos) w.virtual_end);
    }

abbrev pub to_next_file : EndInfo → EndInfo
to_next_file e = record e { end_offset = record { file_num = e.end_offset.file_num + 1; pos = 0 } }

-- A file that is full is synced, and the next one begun.
unfoldable pub roll : SyncEnd → DiskWriter → DiskWriter × Option WriteError
roll s d =
    let (d1, e) = sync s d in
    let d2 = save_file_offset_meta d1 in
    let w = to_next_file d2.write_end in
    (record d2 { write_end = w; read_end = w; buffer_failed = false }, e)

abbrev pub zeros : ℕ → List ℕ
zeros zero = []
zeros (suc n) = 0 ∷ zeros n

-- The first bytes of a file, which has zeros beyond its end.
unfoldable pub pad : ℕ → List ℕ → List ℕ
pad pos old = take pos old ++ zeros (pos - length old)

-- The bytes at a place in a file, over those that are there.
abbrev pub write_at : ℕ → List ℕ → List ℕ → List ℕ
write_at pos bytes old = pad pos old ++ (bytes ++ drop (pos + length bytes) old)

-- writeBufSize
abbrev pub write_buf_size : ℕ
write_buf_size = 131072

-- How many bytes bufio.Writer keeps after a write of `n` bytes to a buffer with `have`.
unfoldable pub kept_in_buffer : (n have : ℕ) → ℕ
kept_in_buffer n have =
    let rest = n - (write_buf_size - have) in
    if leb (have + n) write_buf_size
    then have + n
    else if have == 0
    then 0
    else if leb rest write_buf_size
    then rest
    else 0

-- The length is written first, then the data; raw data alone.
abbrev pub kept_of : Bool → ℕ → ℕ → ℕ
kept_of is_raw size have = kept_in_buffer size (if is_raw then have else kept_in_buffer 4 have)

-- The bytes of a message: its length and its data, or the data as it is.
abbrev pub frame : Bool → List ℕ → List ℕ
frame is_raw body = if is_raw then body else put_be 4 (length body) ++ body

-- The bytes are in the file, and the write end is moved past them.
unfoldable pub append_bytes : List ℕ → ℕ → DiskWriter → DiskWriter
append_bytes bytes cnt d =
    let w = d.write_end in
    let n = w.end_offset.file_num in
    record d {
      files = with_file d.files n (some (write_at w.end_offset.pos bytes (content (d.files n))));
      write_end = record {
        end_offset = record { file_num = n; pos = w.end_offset.pos + length bytes };
        virtual_end = w.virtual_end + length bytes;
        total_msg_cnt = w.total_msg_cnt + cnt;
      };
    }

-- The buffer takes the bytes and keeps `kept` of them.
unfoldable pub buffer_bytes : ℕ → List ℕ → ℕ → DiskWriter → DiskWriter
buffer_bytes kept bytes cnt d = record (append_bytes bytes cnt d) { unflushed = kept }

-- A write to the buffer that fails: some of the buffer's bytes and of the new ones arrived. Where the
-- buffer has failed before, it is empty and takes no byte.
unfoldable pub write_lost : ℕ → List ℕ → DiskWriter → DiskWriter
write_lost arrived bytes d =
    let n = d.write_end.end_offset.file_num in
    let all = write_at d.write_end.end_offset.pos bytes (content (d.files n)) in
    record d {
      files =
          if d.buffer_failed
          then d.files
          else with_file d.files n (some (arrived_in arrived d all));
      unflushed = 0;
    }

-- The file is closed after a write that failed.
abbrev pub closed : DiskWriter → DiskWriter
closed d = record d { buffer_failed = false }

-- writeOne
unfoldable pub write_one : List ℕ → Bool → ℕ → WriteIo → DiskWriter → DiskWriter × WriteResult
write_one body is_raw msg_cnt io d =
    let d1 = open_file d in
    let size = length body in
    let bytes = frame is_raw body in
    let kept = kept_of is_raw size d1.unflushed in
    let d2 = buffer_bytes kept bytes (if is_raw then msg_cnt else 1) d1 in
    let full = leb d2.max_bytes_per_file d2.write_end.end_offset.pos in
    let (d3, e) = if full then roll io.sync_end d2 else (d2, none) in
    if not io.opened
    then (d, write_failed not_opened)
    else if not is_raw && (ltb size d.min_msg_size || ltb d.max_msg_size size)
    then (d1, write_failed invalid_write_size)
    else if not io.written || d1.buffer_failed
    then (closed (sync io.sync_end (write_lost io.arrived bytes d1)).0, write_failed not_written)
    else (
      d3,
      record {
        offset = d.write_end.virtual_end;
        write_bytes = length bytes;
        end = some d3.write_end;
        error = e;
      },
    )

-- PutV2 and PutRawV2
abbrev pub mark_need_sync : DiskWriter × WriteResult → DiskWriter × WriteResult
mark_need_sync (d, r) = (record d { need_sync = true }, r)

unfoldable pub put_v2 : List ℕ → WriteIo → DiskWriter → DiskWriter × WriteResult
put_v2 body io d =
    if d.exit_flag then (d, write_failed exiting) else mark_need_sync (write_one body false 0 io d)

unfoldable pub put_raw_v2 : List ℕ → ℕ → WriteIo → DiskWriter → DiskWriter × WriteResult
put_raw_v2 body msg_cnt io d =
    if d.exit_flag
    then (d, write_failed exiting)
    else mark_need_sync (write_one body true msg_cnt io d)

-- FlushBuffer, with the number of bytes that arrived if the flush fails.
abbrev pub flush_buffer : Option ℕ → DiskWriter → DiskWriter
flush_buffer none d = record d { read_end = d.write_end; unflushed = 0 }
flush_buffer (some arrived) d = let d1 = lose arrived d in record d1 { read_end = d1.write_end }

-- closeCurrentFile
abbrev pub close_current_file : Option ℕ → DiskWriter → DiskWriter
close_current_file lost d = closed (flush_buffer lost d)

-- What the file system has in the data files.
abbrev pub cut_end : ℕ → List ℕ → List ℕ
cut_end n bytes = take (length bytes - n) bytes

abbrev pub disk_files : ℕ → ℕ → (ℕ → Option (List ℕ)) → ℕ → Option (List ℕ)
disk_files zero n files = files
disk_files (suc u) n files = with_file files n (some (cut_end (suc u) (content (files n))))

abbrev pub on_disk : DiskWriter → ℕ → Option (List ℕ)
on_disk d = disk_files d.unflushed d.write_end.end_offset.file_num d.files

-- Flush
unfoldable pub flush : SyncEnd → DiskWriter → DiskWriter × Option WriteError
flush s d = if d.exit_flag then (d, some exiting) else if d.need_sync then sync s d else (d, none)

abbrev pub is_there : Option (List ℕ) → Bool → Bool
is_there none rest = false
is_there (some b) rest = rest

-- `count` files are there, from one on.
unfoldable pub run_exists : (ℕ → Option (List ℕ)) → (from count : ℕ) → Bool
run_exists files from zero = true
run_exists files from (suc count) =
    let rest = run_exists files (from + 1) count in is_there (files from) rest

-- The file `n` is cut to `pos` bytes, and created if it is missing; those after it are renamed, up to
-- the first that is missing.
unfoldable pub cut_files : (ℕ → Option (List ℕ)) → (n pos : ℕ) → ℕ → Option (List ℕ)
cut_files files n pos k =
    let after = if run_exists files (n + 1) (k - n) then none else files k in
    if k == n then some (pad pos (content (files n))) else if ltb n k then after else files k

-- truncateDiskQueueToWriteEnd, which runs after a sync: the buffer is empty.
abbrev pub truncate_to_write_end : DiskWriter → DiskWriter
truncate_to_write_end d =
    let w = d.write_end.end_offset in
    record d { files = cut_files d.files w.file_num w.pos; unflushed = 0; buffer_failed = false }

abbrev pub sync_if_needed : SyncEnd → DiskWriter → DiskWriter
sync_if_needed s d = if d.need_sync then (sync s d).0 else d

-- The write end goes back inside its file, and the read end is not left beyond it.
unfoldable pub back_to : ℕ → ℕ → DiskWriter → DiskWriter
back_to offset diff_cnt d =
    let w = d.write_end in
    let r = d.read_end in
    let w' : EndInfo = record {
      end_offset = record {
        file_num = w.end_offset.file_num;
        pos = w.end_offset.pos - (w.virtual_end - offset);
      };
      virtual_end = offset;
      total_msg_cnt = w.total_msg_cnt - diff_cnt;
    } in
    let past = ltb w'.end_offset.pos r.end_offset.pos || ltb offset r.virtual_end in
    truncate_to_write_end (record d { write_end = w'; read_end = if past then w' else r })

-- RollbackWriteV2. It returns the write end, which the state has.
unfoldable pub rollback_write_v2 : ℕ → ℕ → SyncEnd → DiskWriter → DiskWriter × Option WriteError
rollback_write_v2 offset diff_cnt s d =
    let d1 = sync_if_needed s d in
    let w = d.write_end in
    if ltb offset d.queue_start.virtual_end
      || ltb w.total_msg_cnt (d.queue_start.total_msg_cnt + diff_cnt)
    then (d, some invalid_offset)
    else if ltb w.virtual_end offset
    then (d1, some invalid_offset)
    else if ltb (offset + w.end_offset.pos) w.virtual_end
    then (d1, some invalid_offset)
    else (back_to offset diff_cnt d1, none)

pub data Found : Type 0 where
  at_end : ℕ → ℕ → Found
  across_begin : Found
  missing : Found

-- os.Stat
abbrev pub with_stat : Option (List ℕ) → (ℕ → Found) → Found
with_stat none f = missing
with_stat (some b) f = f (length b)

-- The search of ResetWriteEndV2, from the end `end` of the queue at `pos` in a file.
unfoldable pub find_write_end : (ℕ → Option (List ℕ)) → (file pos end offset : ℕ) → Found
find_write_end files zero pos end offset =
    if ltb (offset + pos) end then across_begin else at_end 0 (pos - (end - offset))
find_write_end files (suc file) pos end offset =
    let before =
      with_stat (files file) (λ size. find_write_end files file size (end - pos) offset) in
    if ltb (offset + pos) end then before else at_end (suc file) (pos - (end - offset))

abbrev pub reset_to : ℕ → ℕ → Found → DiskWriter → DiskWriter × Option WriteError
reset_to offset total_cnt missing d = (d, some not_found)
reset_to offset total_cnt across_begin d = (d, some invalid_offset)
reset_to offset total_cnt (at_end file pos) d =
    let w : EndInfo = record {
      end_offset = record { file_num = file; pos = pos };
      virtual_end = offset;
      total_msg_cnt = total_cnt;
    } in
    (truncate_to_write_end (record d { write_end = w; read_end = w }), none)

-- ResetWriteEndV2
unfoldable pub reset_write_end_v2 : ℕ → ℕ → SyncEnd → DiskWriter → DiskWriter × Option WriteError
reset_write_end_v2 offset total_cnt s d =
    let d1 = sync_if_needed s d in
    let w = d.write_end in
    let at_start = record d1 { write_end = d.queue_start; read_end = d.queue_start } in
    let found =
      find_write_end d.files w.end_offset.file_num w.end_offset.pos w.virtual_end offset in
    if ltb offset d.queue_start.virtual_end || ltb total_cnt d.queue_start.total_msg_cnt
    then (d, some invalid_offset)
    else if ltb w.virtual_end offset
    then (d, some invalid_offset)
    else if offset == 0
    then (truncate_to_write_end at_start, none)
    else reset_to offset total_cnt found d1
