-- ===== src/DiskQueue/Reach.antt =====
-- The operations of the reader in any order: what holds in each state that they lead to.
use nsq.Base.{ℕ, ◌-◌, ◌<◌, ◌≡◌, Bool, Option, some, u64_mod}
use nsq.Base.Bytes.{ok}
use nsq.DiskQueue.{EndInfo}
use nsq.DiskQueue.Confirm.{DiskReader, confirm_read}
use nsq.DiskQueue.Skip.{
  MetaRead, reset_read_to_confirmed, reset_read_to_offset, skip_read_to_offset, skip_read_to_end,
  skip_to_next, reset_last_read_one,
}
use nsq.DiskQueue.Skip.Methods.{EndsInside}
use nsq.DiskQueue.Ending.{update_queue_end}
use nsq.DiskQueue.Read.{ReadResult, read_one}
use nsq.DiskQueue.Read.Placed.{IsReading}

-- One operation. The data files and their meta files may differ from one step to the next. At a
-- read the data files up to the end of the queue lie one behind the other, and the read position is in
-- them at its offset; the meta files say no end beyond the queue's; and a new end is an offset in a file
-- system. `read_back` is a read and ResetLastReadOne with what it returned, as the channel's loop
-- calls it.
pub data Step (d : DiskReader) : DiskReader → Type 0 where
  confirm :
      (size : ℕ → Option ℕ) (offset : Option ℕ) (cnt : ℕ)
      → Step d (confirm_read size offset cnt d).0
  to_confirmed :
      (size : ℕ → Option ℕ) (gone : Bool) (meta : ℕ → MetaRead)
      → Step d (reset_read_to_confirmed size gone meta d).0
  reset :
      (size : ℕ → Option ℕ) (gone : Bool) (meta : ℕ → MetaRead) (offset cnt : ℕ)
      → Step d (reset_read_to_offset size gone meta offset cnt d).0
  skip :
      (size : ℕ → Option ℕ) (gone : Bool) (meta : ℕ → MetaRead) (offset cnt : ℕ)
      → Step d (skip_read_to_offset size gone meta offset cnt d).0
  skip_end :
      (size : ℕ → Option ℕ) (gone : Bool) (meta : ℕ → MetaRead)
      → Step d (skip_read_to_end size gone meta d).0
  skip_next :
      (size : ℕ → Option ℕ) (gone : Bool) (meta : ℕ → MetaRead)
      → EndsInside meta d.end_info
      → Step d (skip_to_next size gone meta d).0
  read_back :
      (size : ℕ → Option ℕ) (start : ℕ → ℕ) (length_at : ℕ → ℕ → ℕ) (d1 : DiskReader)
      (r : ReadResult)
      → IsReading size start d
      → read_one size length_at d ≡ (d1, ok r)
      → Step d (reset_last_read_one r.offset (r.cur_cnt - 1) r.moved_size d1)
  update_end :
      (end : Option EndInfo) (force_reload : Bool)
      → ((e : EndInfo) → end ≡ some e → e.virtual_end < u64_mod)
      → Step d (update_queue_end end force_reload d).0
  read_next :
      (size : ℕ → Option ℕ) (start : ℕ → ℕ) (length_at : ℕ → ℕ → ℕ)
      → IsReading size start d
      → Step d (read_one size length_at d).0

pub data Reachable (d : DiskReader) : DiskReader → Type 0 where
  here : Reachable d d
  next : {g h : DiskReader} → Reachable d g → Step g h → Reachable d h
