-- ===== src/Channel/Confirm.antt =====
-- nsqd/channel.go: ConfirmBackendQueue.
pub mod Safe
pub mod Exact
use nsq.Base.{ℕ, List, [], ◌∷◌, ◌+◌, ◌/◌, Bool, true, false, ◌&&◌, not, ltb, leb, if◌then◌else◌}
use nsq.Intervals.{Interval, IntervalHash, add_or_merge, delete_lower, delete_interval, len}
use nsq.Channel.Backend.{Backend}

-- The part of a message that a confirmation reads.
pub record Finished : Type 0 where
  pub offset : ℕ
  pub raw_move_size : ℕ
  pub queue_cnt_index : ℕ
  pub by_channel_delay : Bool  -- DelayedType == ChannelDelayed

-- The queueInterval of a message.
abbrev pub extent : Finished → Interval
extent msg = record {
  start = msg.offset;
  end = msg.offset + msg.raw_move_size;
  end_cnt = msg.queue_cnt_index;
}

module _ (backend : Backend) where
  open backend use {Reader, confirmed, confirmed_cnt, confirm_read}

  pub record Channel : Type 0 where
    pub reader : Reader
    pub confirmed_msgs : IntervalHash
    pub waiting_confirm : ℕ
    pub need_notify_read : Bool
    pub require_order : Bool
    pub try_read_backend : Bool  -- a token waits in the channel of that name
    pub max_confirm_win : ℕ

  -- `select { case c.tryReadBackend <- true: default: }`, under its three tests
  wake_reader : Channel → Channel
  wake_reader c =
      if ltb (len c.confirmed_msgs) (c.max_confirm_win / 2)
        && c.need_notify_read
        && not c.require_order
      then record c { try_read_backend = true }
      else c

  -- The branch `reduced`, after `ConfirmRead` returned.
  unfoldable pub confirm_to : Channel → Interval → Reader × Bool → Channel × ℕ × ℕ × Bool
  unfolding wake_reader
  confirm_to c merged (reader, failed) =
      if failed
      then (record c { reader = reader }, confirmed c.reader, confirmed_cnt c.reader, true)
      else let left = delete_interval merged c.confirmed_msgs in
        (
          wake_reader
              (record c { reader = reader; confirmed_msgs = left; waiting_confirm = len left }),
          merged.end,
          merged.end_cnt,
          true,
        )

  -- With the interval that AddOrMerge returned: the three ways that it can lie.
  unfoldable pub confirm_merged : Channel → Interval × IntervalHash → Channel × ℕ × ℕ × Bool
  confirm_merged c (merged, msgs) =
      let old = confirmed c.reader in
      let lower = (delete_lower old msgs).0 in
      let c' = record c { confirmed_msgs = msgs; waiting_confirm = len msgs } in
      if leb merged.end old
      then (
        record c { confirmed_msgs = lower; waiting_confirm = len lower },
        old,
        confirmed_cnt c.reader,
        false,
      )
      else (if leb merged.start old
          then confirm_to c' merged (confirm_read c.reader merged.end merged.end_cnt)
          else (c', old, confirmed_cnt c.reader, false))

  -- The new state, and the offset, the count and the flag that are returned.
  unfoldable pub confirm_backend_queue : Channel → Finished → Channel × ℕ × ℕ × Bool
  confirm_backend_queue c msg =
      let unchanged : Channel × ℕ × ℕ × Bool =
        (c, confirmed c.reader, confirmed_cnt c.reader, false) in
      if msg.by_channel_delay
      then unchanged
      else if ltb msg.offset (confirmed c.reader)
      then unchanged
      else confirm_merged c (add_or_merge (extent msg) c.confirmed_msgs)

  -- The messages are finished in this order.
  unfoldable pub confirm_all : Channel → List Finished → Channel
  confirm_all c [] = c
  confirm_all c (msg ∷ msgs) = confirm_all (confirm_backend_queue c msg).0 msgs
