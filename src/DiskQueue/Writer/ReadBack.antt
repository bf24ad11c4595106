-- ===== src/DiskQueue/Writer/ReadBack.antt =====
-- The reader finds what the writer put: readOne on the data files of the writer.
use nsq.Base.{
  ℕ, ◌+◌, ◌≡◌, ◌⊎◌, false, ◌&&◌, Option, none, some, List, ◌++◌, length, take, drop, ltb, ◌==◌,
}
use nsq.Base.Bytes.{get_be}
use nsq.DiskQueue.{EndInfo}
use nsq.DiskQueue.Confirm.{DiskReader}
use nsq.DiskQueue.Read.{ReadResult}
use nsq.DiskQueue.Writer.{DiskWriter, content}
use nsq.DiskQueue.Writer.Log.{Files}

-- os.Stat, and the length that the four bytes at a place say.
abbrev pub size_of : Files → ℕ → Option ℕ
size_of files n = by_content (files n)
  where
    by_content : Option (List ℕ) → Option ℕ
    by_content none = none
    by_content (some b) = some (length b)

abbrev pub length_in : Files → ℕ → ℕ → ℕ
length_in files n pos = get_be (take 4 (drop pos (content (files n))))

-- The bytes are at the old write end, and the new one is behind them or starts the next file.
pub record Wrote (bytes : List ℕ) (d d' : DiskWriter) : Type 0 where
  pub held :
      (old : List ℕ) × (length old ≡ d.write_end.end_offset.pos)
      × (d'.files d.write_end.end_offset.file_num ≡ some (old ++ bytes))
  pub end :
      (d'.write_end.end_offset ≡ record {
        file_num = d.write_end.end_offset.file_num;
        pos = d.write_end.end_offset.pos + length bytes;
      })
      ⊎ (d'.write_end.end_offset
          ≡ record { file_num = d.write_end.end_offset.file_num + 1; pos = 0 })
  pub virtual : d'.write_end.virtual_end ≡ d.write_end.virtual_end + length bytes

module _ (size : ℕ → Option ℕ) (length_at : ℕ → ℕ → ℕ) (r : DiskReader) (len : ℕ) where
  -- The result for a message of `len` bytes at the read position.
  abbrev pub message_read : ReadResult
  message_read = record {
    offset = r.read_info.virtual_end;
    moved_size = 4 + len;
    cur_cnt = r.read_info.total_msg_cnt + 1;
  }

-- A reader at the place of the write end, that has a count or is at the start.
pub record IsReaderAt (e : EndInfo) (r : DiskReader) : Type 0 where
  pub at : r.read_info.end_offset ≡ e.end_offset
  pub offset : r.read_info.virtual_end ≡ e.virtual_end
  pub counted : (r.read_info.total_msg_cnt == 0) && ltb 0 r.read_info.virtual_end ≡ false
