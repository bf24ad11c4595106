-- ===== src/DiskQueue.antt =====
-- nsqd/diskqueue_reader.go: the positions of a reader of the disk queue. A queue is a sequence of
-- files; a position is a file's number and a place in it, and beside that an offset from the start.
pub mod Step
pub mod Confirm
pub mod Moves
pub mod Fills
pub mod Skip
pub mod Ending
pub mod Read
pub mod Reach
pub mod Writer
mod Tests
use nsq.Base.{ℕ, Bool, true, false, ◌&&◌, ◌||◌, ltb, ◌==◌}

-- diskQueueOffset
pub record Offset : Type 0 where
  pub file_num : ℕ
  pub pos : ℕ

-- diskQueueEndInfo
pub record EndInfo : Type 0 where
  pub end_offset : Offset
  pub virtual_end : ℕ
  pub total_msg_cnt : ℕ

-- GreatThan
unfoldable pub great_than : Offset → Offset → Bool
great_than d o = ltb o.file_num d.file_num || (d.file_num == o.file_num && ltb o.pos d.pos)
