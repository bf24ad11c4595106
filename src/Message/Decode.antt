-- ===== src/Message/Decode.antt =====
-- nsqd/message.go: decodeMessage, and the head that DecodeDelayedMessage reads in the same way.
pub mod Parts
pub mod RoundTrip
use nsq.Base.{
  ℕ, ◌+◌, ◌-◌, ◌%◌, List, [], Bool, true, false, ◌&&◌, not, length, ltb, ◌==◌, if◌then◌else◌,
  add_u16,
}
use nsq.Base.Bytes.{Outcome, ok, err, ◌>>=◌, slice, uint, byte}
use nsq.Message.{Message, min_valid_msg_length, max_attempts, ext_msg_high_bits, no_ext_ver}

pub data DecodeError : Type 0 where
  invalid_size : DecodeError
  ext_not_decoded : DecodeError

-- Timestamp, combined, ID and TraceID, from the first 26 bytes
unfoldable pub read_header : List ℕ → Outcome DecodeError (ℕ × ℕ × ℕ × ℕ)
read_header b = do
  timestamp ← uint b 0 8
  combined ← uint b 8 10
  id ← uint b 10 18
  trace_id ← uint b 18 26
  ok (timestamp, combined, id, trace_id)

-- `highBits`; `combined & 0xF000` is what the low twelve bits leave
unfoldable pub high_bits_of : ℕ → ℕ
high_bits_of combined = if ltb max_attempts combined then combined - combined % 4096 else 0

-- `msg.Attempts`; `combined & 0x0FFF` is the low twelve bits
unfoldable pub attempts_of : ℕ → ℕ
attempts_of combined = if ltb max_attempts combined then combined % 4096 else combined

-- ExtVer, ExtBytes and bodyStart; the slice's upper bound `29+extLen` is a uint16
unfoldable pub read_ext : List ℕ → Outcome DecodeError (ℕ × List ℕ × ℕ)
read_ext b = if ltb (length b) 27 then err invalid_size else do
  ext_ver ← byte b 26
  let read : Outcome DecodeError (ℕ × List ℕ × ℕ) = do
    ext_len ← uint b 27 29
    if ltb (length b) (27 + 2 + ext_len)
        then err invalid_size
        else do ext_bytes ← slice b 29 (add_u16 29 ext_len); ok (ext_ver, ext_bytes, 29 + ext_len)
  let longer = if ltb (length b) (27 + 2) then err invalid_size else read
  if ext_ver == no_ext_ver then ok (no_ext_ver, [], 27) else longer

unfoldable pub decode_message : List ℕ → Bool → Outcome DecodeError Message
decode_message b is_ext = if ltb (length b) min_valid_msg_length then err invalid_size else do
  (timestamp, combined, id, trace_id) ← read_header b
  let marked = high_bits_of combined == ext_msg_high_bits
  if marked && not is_ext then err ext_not_decoded else do
    (ext_ver, ext_bytes, body_start) ← if is_ext && marked then read_ext b else ok (0, [], 26)
    body ← slice b body_start (length b)
    ok (record {
      id = id;
      trace_id = trace_id;
      body = body;
      timestamp = timestamp;
      attempts = attempts_of combined;
      ext_bytes = ext_bytes;
      ext_ver = ext_ver;
      offset = 0;
      raw_move_size = 0;
      delayed_type = 0;
      delayed_ts = 0;
      delayed_orig_id = 0;
      delayed_channel = [];
      delayed_data = [];
    })
