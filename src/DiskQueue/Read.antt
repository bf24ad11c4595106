-- ===== src/DiskQueue/Read.antt =====
-- readOne of diskQueueReader: it reads the message at the read position and moves the position past
-- it, into the next file at a file's end. The sizes of the files are a parameter, and so is the
-- length that the four bytes at a place in a file say. The buffer that is read ahead is not
-- modelled: the checks are those of a read from the file. The result is without the data, which lie in
-- the file behind the length, at the read position.
pub mod Correct
pub mod Placed
use nsq.Base.{
  ℕ, zero, suc, ◌+◌, ◌-◌, ◌^◌, Bool, true, false, ◌&&◌, ◌||◌, Option, none, some, ltb, leb, ◌==◌,
  if◌then◌else◌,
}
use nsq.Base.Bytes.{Outcome, ok, err, panic}
use nsq.DiskQueue.{Offset, EndInfo}
use nsq.DiskQueue.Confirm.{DiskReader}

pub data ReadError : Type 0 where
  count_missing : ReadError
  not_open : ReadError
  exceeds_end : ReadError
  invalid_readable : ReadError
  invalid_size : ReadError

pub record ReadResult : Type 0 where
  pub offset : ℕ
  pub moved_size : ℕ
  pub cur_cnt : ℕ

-- MAX_POSSIBLE_MSG_SIZE
abbrev pub max_possible_msg_size : ℕ
max_possible_msg_size = 2 ^ 28

-- The position after a message of `total` bytes at `r`, in a file with the end `file_end`.
unfoldable pub read_past : (total file_end : ℕ) → EndInfo → EndInfo → EndInfo
read_past total file_end e r =
    let pos = r.end_offset.pos + total in
    let virtual = r.virtual_end + total in
    let is_end = ltb r.end_offset.file_num e.end_offset.file_num && leb file_end pos in
    record {
      end_offset =
          if is_end
          then record { file_num = r.end_offset.file_num + 1; pos = 0 }
          else record { file_num = r.end_offset.file_num; pos = pos };
      virtual_end = virtual;
      total_msg_cnt = if virtual == e.virtual_end then e.total_msg_cnt else r.total_msg_cnt + 1;
    }

abbrev pub in_file :
    Option ℕ
    → DiskReader
    → (ℕ → DiskReader × Outcome ReadError ReadResult)
    → DiskReader × Outcome ReadError ReadResult
in_file none d go = (d, err not_open)
in_file (some end) d go = go end

abbrev pub next_file : DiskReader → DiskReader
next_file d = record d {
  read_info = record d.read_info {
    end_offset = record { file_num = d.read_info.end_offset.file_num + 1; pos = 0 };
  };
}

module _ (size : ℕ → Option ℕ) (length_at : ℕ → ℕ → ℕ) where
  -- The read of a message, in a file with the end `file_end`. An int32 length that is negative is
  -- more than the greatest length as a word.
  unfoldable pub read_message :
      (file_end : ℕ) → DiskReader → DiskReader × Outcome ReadError ReadResult
  read_message file_end d =
      let r = d.read_info in
      let pos = r.end_offset.pos in
      let len = length_at r.end_offset.file_num pos in
      let total = 4 + len in
      if ltb file_end (pos + 4)
      then (d, err invalid_readable)
      else if len == 0 || ltb max_possible_msg_size len
      then (d, err invalid_size)
      else if ltb file_end (pos + total)
      then (d, err invalid_readable)
      else (
        record d { read_info = read_past total file_end d.end_info r },
        ok (record { offset = r.virtual_end; moved_size = total; cur_cnt = r.total_msg_cnt + 1 }),
      )

  -- CheckFileOpen, in the file that is `left` files before the end's. A file that was read to its end
  -- is passed over.
  unfoldable pub check_file_open :
      (left : ℕ) → DiskReader → DiskReader × Outcome ReadError ReadResult
  check_file_open zero d =
      let file = d.read_info.end_offset.file_num in
      in_file (size file) d (λ end.
        if file == d.end_info.end_offset.file_num
        then read_message d.end_info.end_offset.pos d
        else (d, err exceeds_end))
  check_file_open (suc left) d =
      let onward = check_file_open left (next_file d) in
      in_file (size d.read_info.end_offset.file_num) d
        (λ end. if leb end d.read_info.end_offset.pos then onward else read_message end d)

  unfoldable pub read_one : DiskReader → DiskReader × Outcome ReadError ReadResult
  read_one d =
      let r = d.read_info in
      if r.total_msg_cnt == 0 && ltb 0 r.virtual_end
      then (d, err count_missing)
      else check_file_open (d.end_info.end_offset.file_num - r.end_offset.file_num) d
