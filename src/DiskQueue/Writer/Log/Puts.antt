-- ===== src/DiskQueue/Writer/Log/Puts.antt =====
-- PutV2 and PutRawV2 append to the log, or lose what the buffer held.
use nsq.Base.{
  ℕ, ◌+◌, ◌≤◌, ◌≡◌, Bool, true, false, ◌&&◌, ◌||◌, not, Option, some, List, ◌++◌, length, take, ltb,
  leb,
}
use nsq.DiskQueue.Writer.{DiskWriter, WriteError, WriteIo, WriteResult, write_failed, not_written}
use nsq.DiskQueue.Writer.Log.{log, IsLog}
use nsq.DiskQueue.Writer.Log.Back.{is_lost}

-- What stops a write before a byte is written.
abbrev pub is_blocked : Bool → ℕ → WriteIo → DiskWriter → Bool
is_blocked is_raw size io d =
    not io.opened || (not is_raw && (ltb size d.min_msg_size || ltb d.max_msg_size size))

-- The buffer does not take the bytes.
abbrev pub is_failed : WriteIo → DiskWriter → Bool
is_failed io d = not io.written || d.buffer_failed

-- The bytes fill the file, and the flush at its end fails.
abbrev pub loses : WriteIo → List ℕ → DiskWriter → Bool
loses io bytes d =
    leb d.max_bytes_per_file (d.write_end.end_offset.pos + length bytes) && is_lost io.sync_end

-- The ways that a write of `bytes` can end, after which the buffer has `held` bytes of the file.
pub data PutsTo (bytes : List ℕ) (held : ℕ) (blocked fails lost : Bool) (d : DiskWriter)
    : DiskWriter → WriteResult → Type 0 where
  -- It is stopped, and the log and the write end stay.
  refused :
      (d' : DiskWriter) (e : WriteError)
      → blocked ≡ true
      → IsLog d'
      → log d' ≡ log d
      → d'.write_end ≡ d.write_end
      → PutsTo bytes held blocked fails lost d d' (write_failed e)
  -- It fails: some of the bytes that were in the buffer may be missing, and some new ones there.
  failed :
      (d' : DiskWriter) (kept : ℕ)
      → blocked ≡ false
      → fails ≡ true
      → log d' ≡ take kept (log d ++ bytes)
      → length (log d) ≤ kept + d.unflushed
      → d'.write_end ≡ d.write_end
      → PutsTo bytes held blocked fails lost d d' (write_failed not_written)
  -- The bytes are appended, and the result has the offset where they start and the end after them.
  put :
      (d' : DiskWriter) (e : Option WriteError)
      → blocked ≡ false
      → fails ≡ false
      → lost ≡ false
      → IsLog d'
      → log d' ≡ log d ++ bytes
      → PutsTo bytes held blocked fails lost d d' (record {
        offset = d.write_end.virtual_end;
        write_bytes = length bytes;
        end = some d'.write_end;
        error = e;
      })
  -- The same result, and some of the bytes in the buffer may be missing.
  put_lost :
      (d' : DiskWriter) (e : Option WriteError) (kept : ℕ)
      → blocked ≡ false
      → fails ≡ false
      → lost ≡ true
      → log d' ≡ take kept (log d ++ bytes)
      → length (log d ++ bytes) ≤ kept + held
      → d'.write_end.virtual_end ≡ d.write_end.virtual_end + length bytes
      → PutsTo bytes held blocked fails lost d d' (record {
        offset = d.write_end.virtual_end;
        write_bytes = length bytes;
        end = some d'.write_end;
        error = e;
      })
