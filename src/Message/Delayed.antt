-- ===== src/Message/Delayed.antt =====
-- nsqd/message.go: WriteDelayedTo and DecodeDelayedMessage, for the messages of the delayed queue.
pub mod Proofs
pub mod Stages
pub mod RoundTrip
use nsq.Base.{
  ℕ, ◌+◌, ◌%◌, List, [], ◌∷◌, ◌++◌, Bool, true, false, ◌&&◌, not, length, ltb, leb, ◌==◌,
  if◌then◌else◌, u16_mod, u32_mod,
}
use nsq.Base.Bytes.{Outcome, ok, err, ◌>>=◌, put_be, slice, uint, byte}
use nsq.Message.{
  Message, min_valid_msg_length, ext_msg_high_bits, no_ext_ver, channel_delayed, pub_delayed,
}
use nsq.Message.Writer.{Writer, Progress, start, emit, fail, ext_too_long}
use nsq.Message.Encode.{
  cap_attempts, combined_attempts, write_header, write_position, header_bytes, position_bytes,
}
use nsq.Message.Decode.{
  DecodeError, invalid_size, ext_not_decoded, read_header, high_bits_of, attempts_of,
}

module _ (w : Writer) where
  -- the fixed block, and the channel's name
  unfoldable pub write_delayed_info : Message → Progress w → Progress w
  write_delayed_info m s = emit w m.delayed_channel (
      emit w
        (put_be 4 m.delayed_type
          ++ (put_be 8 m.delayed_ts
              ++ (put_be 8 m.delayed_orig_id ++ put_be 4 (length m.delayed_channel % u32_mod))))
        s)

  unfoldable pub write_delayed_data : Message → Progress w → Progress w
  write_delayed_data m s =
      emit w m.delayed_data (emit w (put_be 4 (length m.delayed_data % u32_mod)) s)

  unfoldable pub write_delayed_ext : Message → Progress w → Progress w
  write_delayed_ext m s =
      let s1 = emit w (m.ext_ver ∷ []) s in
      if m.ext_ver == no_ext_ver
      then s1
      else if leb 65535 (length m.ext_bytes)
      then fail w ext_too_long s1
      else emit w m.ext_bytes (emit w (put_be 2 (length m.ext_bytes % u16_mod)) s1)

  unfoldable pub write_delayed_to : Message → Bool → w.Out → Message × Progress w
  write_delayed_to m0 write_ext out =
      let m = cap_attempts m0 in
      let s1 = write_header w m (combined_attempts m write_ext) (start w out) in
      let s2 = write_delayed_info m s1 in
      let s3 = if m.delayed_type == pub_delayed then write_delayed_data m s2 else s2 in
      let s4 = if write_ext then write_delayed_ext m s3 else s3 in
      let s5 = if m.delayed_type == channel_delayed then write_position w m s4 else s4 in
      (m, emit w m.body s5)

-- The format, as one list of bytes.
unfoldable pub delayed_info_bytes : Message → List ℕ
delayed_info_bytes m =
    (put_be 4 m.delayed_type
      ++ (put_be 8 m.delayed_ts
          ++ (put_be 8 m.delayed_orig_id ++ put_be 4 (length m.delayed_channel % u32_mod))))
    ++ m.delayed_channel

unfoldable pub delayed_data_bytes : Message → List ℕ
delayed_data_bytes m = put_be 4 (length m.delayed_data % u32_mod) ++ m.delayed_data

unfoldable pub delayed_ext_bytes : Message → List ℕ
delayed_ext_bytes m =
    if m.ext_ver == no_ext_ver
    then m.ext_ver ∷ []
    else ((m.ext_ver ∷ []) ++ put_be 2 (length m.ext_bytes % u16_mod)) ++ m.ext_bytes

unfoldable pub delayed_bytes : Message → Bool → List ℕ
delayed_bytes m write_ext =
    ((((header_bytes m (combined_attempts m write_ext) ++ delayed_info_bytes m)
          ++ (if m.delayed_type == pub_delayed then delayed_data_bytes m else []))
        ++ (if write_ext then delayed_ext_bytes m else []))
      ++ (if m.delayed_type == channel_delayed then position_bytes m else []))
    ++ m.body

-- DelayedType, DelayedTs, DelayedOrigID and DelayedChannel, from byte 26 on
unfoldable pub read_delayed_info : List ℕ → Outcome DecodeError (ℕ × ℕ × ℕ × List ℕ × ℕ)
read_delayed_info b = do
  delayed_type ← uint b 26 30
  delayed_ts ← uint b 30 38
  delayed_orig_id ← uint b 38 46
  name_len ← uint b 46 50
  if ltb (length b) (50 + name_len) then err invalid_size else do
    name ← slice b 50 (50 + name_len)
    ok (delayed_type, delayed_ts, delayed_orig_id, name, 50 + name_len)

unfoldable pub read_delayed_data : List ℕ → ℕ → Outcome DecodeError (List ℕ × ℕ)
read_delayed_data b pos = if ltb (length b) (pos + 4) then err invalid_size else do
  dlen ← uint b pos (pos + 4)
  if ltb (length b) (pos + 4 + dlen)
      then err invalid_size
      else do payload ← slice b (pos + 4) (pos + 4 + dlen); ok (payload, pos + 4 + dlen)

unfoldable pub read_delayed_ext : List ℕ → ℕ → Outcome DecodeError (ℕ × List ℕ × ℕ)
read_delayed_ext b pos = if ltb (length b) (pos + 1) then err invalid_size else do
  ext_ver ← byte b pos
  let read : Outcome DecodeError (ℕ × List ℕ × ℕ) = do
    ext_len ← uint b (pos + 1) (pos + 1 + 2)
    if ltb (length b) (pos + 1 + 2 + ext_len) then err invalid_size else do
      ext_bytes ← slice b (pos + 1 + 2) (pos + 1 + 2 + ext_len)
      ok (ext_ver, ext_bytes, pos + 1 + 2 + ext_len)
  let longer = if ltb (length b) (pos + 1 + 2) then err invalid_size else read
  if ext_ver == no_ext_ver then ok (no_ext_ver, [], pos + 1) else longer

unfoldable pub read_position : List ℕ → ℕ → Outcome DecodeError (ℕ × ℕ × ℕ)
read_position b pos = if ltb (length b) (pos + 8 + 4) then err invalid_size else do
  offset ← uint b pos (pos + 8)
  raw_move_size ← uint b (pos + 8) (pos + 8 + 4)
  ok (offset, raw_move_size, pos + 8 + 4)

unfoldable pub decode_delayed_message : List ℕ → Bool → Outcome DecodeError Message
decode_delayed_message b is_ext =
    if ltb (length b) min_valid_msg_length then err invalid_size else do
      (timestamp, combined, id, trace_id) ← read_header b
      if ltb (length b) (min_valid_msg_length + 4 + 8 + 8 + 4) then err invalid_size else do
        (delayed_type, delayed_ts, delayed_orig_id, name, pos0) ← read_delayed_info b
        (payload, pos1) ←
            if delayed_type == pub_delayed then read_delayed_data b pos0 else ok ([], pos0)
        let marked = high_bits_of combined == ext_msg_high_bits
        if marked && not is_ext then err ext_not_decoded else do
          (ext_ver, ext_bytes, pos2) ←
              if is_ext && marked then read_delayed_ext b pos1 else ok (0, [], pos1)
          (offset, raw_move_size, pos3) ←
              if delayed_type == channel_delayed then read_position b pos2 else ok (0, 0, pos2)
          body ← slice b pos3 (length b)
          ok (record {
            id = id;
            trace_id = trace_id;
            body = body;
            timestamp = timestamp;
            attempts = attempts_of combined;
            ext_bytes = ext_bytes;
            ext_ver = ext_ver;
            offset = offset;
            raw_move_size = raw_move_size;
            delayed_type = delayed_type;
            delayed_ts = delayed_ts;
            delayed_orig_id = delayed_orig_id;
            delayed_channel = name;
            delayed_data = payload;
          })
