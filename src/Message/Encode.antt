-- ===== src/Message/Encode.antt =====
-- nsqd/message.go: internalWriteTo, WriteTo and WriteToClient.
pub mod Proofs
use nsq.Base.{
  ℕ, ◌%◌, List, [], ◌∷◌, ◌++◌, Bool, true, false, ◌&&◌, length, ltb, ◌==◌, if◌then◌else◌, add_u16,
  u16_mod,
}
use nsq.Base.Bytes.{put_be}
use nsq.Message.{Message, max_attempts, ext_msg_high_bits, no_ext_ver}
use nsq.Message.Writer.{Writer, Progress, start, emit}

-- `if m.Attempts > maxAttempts { m.Attempts = maxAttempts }`
unfoldable pub cap_attempts : Message → Message
cap_attempts m = if ltb max_attempts m.attempts then record m { attempts = max_attempts } else m

-- `combined`: the attempts, with the mark of an extended message
unfoldable pub combined_attempts : Message → Bool → ℕ
combined_attempts m marked = if marked then add_u16 m.attempts ext_msg_high_bits else m.attempts

module _ (w : Writer) where
  -- `PutUint64` of the time stamp and `PutUint16` of `combined`, then the two halves of the id
  unfoldable pub write_header : Message → ℕ → Progress w → Progress w
  write_header m combined s =
      emit w (put_be 8 m.id ++ put_be 8 m.trace_id)
        (emit w (put_be 8 m.timestamp ++ put_be 2 combined) s)

  -- the block under `if writeExt`
  unfoldable pub write_ext_content : Message → Progress w → Progress w
  write_ext_content m s =
      let s1 = emit w (m.ext_ver ∷ []) s in
      if m.ext_ver == no_ext_ver
      then s1
      else emit w m.ext_bytes (emit w (put_be 2 (length m.ext_bytes % u16_mod)) s1)

  -- the block under `if writeDetail`, also written for a message delayed by a channel
  unfoldable pub write_position : Message → Progress w → Progress w
  write_position m s = emit w (put_be 8 m.offset ++ put_be 4 m.raw_move_size) s

  -- The receiver's `Attempts` may change, so the message is returned too.
  unfoldable pub internal_write_to : Message → Bool → Bool → Bool → w.Out → Message × Progress w
  unfolding write_header write_ext_content write_position
  internal_write_to m0 write_ext write_compatible write_detail out =
      let m = cap_attempts m0 in
      let s1 = write_header m (combined_attempts m (write_ext && write_compatible)) (start w out) in
      let s2 = if write_ext then write_ext_content m s1 else s1 in
      let s3 = if write_detail then write_position m s2 else s2 in (m, emit w m.body s3)

  unfoldable pub write_to : Message → Bool → w.Out → Message × Progress w
  write_to m write_ext out = internal_write_to m write_ext true false out

  unfoldable pub write_to_client : Message → Bool → Bool → w.Out → Message × Progress w
  write_to_client m write_ext write_detail out =
      internal_write_to m write_ext false write_detail out

-- The format, as one list of bytes.
unfoldable pub header_bytes : Message → ℕ → List ℕ
header_bytes m combined =
    (put_be 8 m.timestamp ++ put_be 2 combined) ++ (put_be 8 m.id ++ put_be 8 m.trace_id)

unfoldable pub position_bytes : Message → List ℕ
position_bytes m = put_be 8 m.offset ++ put_be 4 m.raw_move_size

unfoldable pub ext_bytes : Message → List ℕ
ext_bytes m =
    if m.ext_ver == no_ext_ver
    then m.ext_ver ∷ []
    else ((m.ext_ver ∷ []) ++ put_be 2 (length m.ext_bytes % u16_mod)) ++ m.ext_bytes

unfoldable pub message_bytes : Message → Bool → Bool → Bool → List ℕ
message_bytes m write_ext write_compatible write_detail =
    ((header_bytes m (combined_attempts m (write_ext && write_compatible))
        ++ (if write_ext then ext_bytes m else []))
      ++ (if write_detail then position_bytes m else []))
    ++ m.body
