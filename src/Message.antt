-- ===== src/Message.antt =====
-- nsqd/message.go: the message as it is stored and sent. The fields that serve a channel while a
-- message is in flight (pri, index, deferredCnt, belongedConsumer) live in the channel's model.
-- A signed 64-bit field is its bit pattern, a number below 2 ^ 64.
pub mod Writer
pub mod Encode
pub mod Decode
pub mod Delayed
mod Tests
use nsq.Base.{ℕ, List}

pub record Message : Type 0 where
  pub id : ℕ
  pub trace_id : ℕ
  pub body : List ℕ
  pub timestamp : ℕ
  pub attempts : ℕ  -- uint16
  pub ext_bytes : List ℕ
  pub ext_ver : ℕ  -- uint8
  pub offset : ℕ
  pub raw_move_size : ℕ
  pub delayed_type : ℕ  -- int32
  pub delayed_ts : ℕ
  pub delayed_orig_id : ℕ
  pub delayed_channel : List ℕ
  pub delayed_data : List ℕ

-- MsgIDLength + 8 + 2
abbrev pub min_valid_msg_length : ℕ
min_valid_msg_length = 26

abbrev pub max_attempts : ℕ
max_attempts = 4000

abbrev pub ext_msg_high_bits : ℕ
ext_msg_high_bits = 0xa000

-- ext.NO_EXT_VER
abbrev pub no_ext_ver : ℕ
no_ext_ver = 0

-- nsqd/delay_queue.go
abbrev pub channel_delayed : ℕ
channel_delayed = 1

abbrev pub pub_delayed : ℕ
pub_delayed = 2
