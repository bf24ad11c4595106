-- ===== src/Message/Delayed/RoundTrip.antt =====
-- DecodeDelayedMessage on what WriteDelayedTo wrote.
use nsq.Base.{
  ℕ, ◌+◌, ◌≤◌, ◌<◌, ◌≡◌, refl, sym, ap, ◌∙◌, List, [], ◌++◌, append_assoc, append-nil, length,
  length-append, arith, ltb, ◌==◌, if◌then◌else◌, u16_mod, Bool, true, false, not, ◌&&◌,
  le→ltb_false, none, and_false,
}
use nsq.Base.Bytes.{ok, slice_rest}
use nsq.Message.{Message, max_attempts, no_ext_ver, channel_delayed, pub_delayed}
use nsq.Message.Writer.{Writer}
use nsq.Message.Encode.{header_bytes, position_bytes, cap_attempts, combined_attempts}
use nsq.Message.Decode.{DecodeError, high_bits_of, attempts_of}
use nsq.Message.Decode.Parts.{length-header_bytes, read_header-header_bytes}
use nsq.Message.Decode.RoundTrip.{cap_attempts-le, combined_marked, combined_plain}
use nsq.Message.Delayed.{
  delayed_info_bytes, delayed_data_bytes, delayed_ext_bytes, delayed_bytes, write_delayed_to,
  decode_delayed_message,
}
use nsq.Message.Delayed.Proofs.{write_delayed_to-Wrote}
use nsq.Message.Delayed.Stages.{
  FitsDelayed, length-delayed_info_bytes, read_delayed_info-bytes, optional_data, optional_ext,
  optional_position,
}

-- What a decoder of the delayed format can know of `m`.
abbrev pub stored_delayed : Message → Bool → Message
stored_delayed m write_ext = record m {
  attempts = if ltb max_attempts m.attempts then max_attempts else m.attempts;
  ext_bytes = if write_ext then (if m.ext_ver == no_ext_ver then [] else m.ext_bytes) else [];
  ext_ver = if write_ext then m.ext_ver else no_ext_ver;
  offset = if m.delayed_type == channel_delayed then m.offset else 0;
  raw_move_size = if m.delayed_type == channel_delayed then m.raw_move_size else 0;
  delayed_data = if m.delayed_type == pub_delayed then m.delayed_data else [];
}

-- The two tests on the mark, where a reader expects what was written.
marks :
    (write_ext is_ext : Bool)
    → (write_ext ≡ true → is_ext ≡ true)
    → ((is_ext && write_ext) ≡ write_ext) × ((write_ext && not is_ext) ≡ false)
marks true is_ext same = rw (same refl) (refl, refl)
marks false is_ext same = (and_false is_ext, refl)

module _ (m : Message) (f : FitsDelayed m) (few : m.attempts ≤ max_attempts)
    (short : length m.ext_bytes < 65535) where
  -- The mark and the count of a message with or without an extension.
  combined_parts :
      (write_ext : Bool)
      → (combined_attempts m write_ext < u16_mod)
        × ((high_bits_of (combined_attempts m write_ext) == 0xa000) ≡ write_ext)
        × (attempts_of (combined_attempts m write_ext) ≡ m.attempts)
  combined_parts true = let (a, b, c) = combined_marked m few in (a, rw b, c)
  combined_parts false = let (a, b, c) = combined_plain m few in (a, rw b, c)

  module _ (write_ext : Bool) where
    abbrev b : List ℕ
    b = delayed_bytes m write_ext

    abbrev header : List ℕ
    header = header_bytes m (combined_attempts m write_ext)

    abbrev payload : List ℕ
    payload = if m.delayed_type == pub_delayed then delayed_data_bytes m else []

    abbrev ext : List ℕ
    ext = if write_ext then delayed_ext_bytes m else []

    abbrev position : List ℕ
    position = if m.delayed_type == channel_delayed then position_bytes m else []

    flat : b ≡ header ++ (delayed_info_bytes m ++ (payload ++ (ext ++ (position ++ m.body))))
    unfolding delayed_bytes
    flat = simp append_assoc

    header_size : length header ≡ 26
    header_size = length-header_bytes m (combined_attempts m write_ext)

    info_size : length (header ++ delayed_info_bytes m) ≡ 50 + length m.delayed_channel
    info_size = omega (
      arith,
      length-append header (delayed_info_bytes m),
      header_size,
      length-delayed_info_bytes m f,
    )

    long : 50 ≤ length b
    long = rw flat (
        omega (
          arith,
          length-append header (delayed_info_bytes m ++ (payload ++ (ext ++ (position ++ m.body)))),
          length-append (delayed_info_bytes m) (payload ++ (ext ++ (position ++ m.body))),
          header_size,
          length-delayed_info_bytes m f,
        ))

    decode_delayed_message-delayed_bytes :
        (is_ext : Bool)
        → (write_ext ≡ true → is_ext ≡ true)
        → decode_delayed_message b is_ext ≡ ok (stored_delayed m write_ext)
    unfolding decode_delayed_message
    decode_delayed_message-delayed_bytes is_ext same =
        let (small, marked, attempts) = combined_parts write_ext in
        let (expected, refused) = marks write_ext is_ext same in
        let read =
          read_header-header_bytes m (combined_attempts m write_ext) _ b f.header small flat in
        let info =
          read_delayed_info-bytes m f b header (payload ++ (ext ++ (position ++ m.body)))
            header_size flat in
        let pre1 = header ++ delayed_info_bytes m in
        let (pos1, r1, size1) =
          optional_data m f b pre1 (ext ++ (position ++ m.body)) info_size
            (m.delayed_type == pub_delayed) (flat ∙ simp append_assoc) in
        let (pos2, r2, size2) =
          optional_ext m f b (pre1 ++ payload) (position ++ m.body) size1 write_ext
            (omega (arith, short)) (flat ∙ simp append_assoc) in
        let (pos3, r3, size3) =
          optional_position m f b ((pre1 ++ payload) ++ ext) m.body size2
            (m.delayed_type == channel_delayed) (flat ∙ simp append_assoc) in
        let rest =
          slice_rest {E = DecodeError} b (((pre1 ++ payload) ++ ext) ++ position) m.body {lo = pos3}
            (flat ∙ simp append_assoc) (sym size3) in
        rw (
          le→ltb_false (length b) 26 (omega (arith, long)),
          read,
          le→ltb_false (length b) 50 long,
          info,
          r1,
          marked,
          refused,
          expected,
          r2,
          r3,
          rest,
          attempts,
          le→ltb_false max_attempts m.attempts few,
        )

capped-FitsDelayed : (m : Message) → FitsDelayed m → FitsDelayed (cap_attempts m)
unfolding cap_attempts
capped-FitsDelayed m f = ground arith

stored_delayed-capped :
    (m : Message) (write_ext : Bool)
    → stored_delayed (cap_attempts m) write_ext ≡ stored_delayed m write_ext
unfolding cap_attempts
stored_delayed-capped m write_ext = ground arith

capped-ext_bytes : (m : Message) → (cap_attempts m).ext_bytes ≡ m.ext_bytes
unfolding cap_attempts
capped-ext_bytes m = ground arith

-- A delayed message that WriteDelayedTo wrote without an error into an empty writer is decoded to
-- itself: all its fields, with the attempts capped at 4000, the extension if one was written, the
-- queue position if its type is ChannelDelayed, and the delayed data if its type is PubDelayed.
-- The reader must expect extensions if one was written, and may where none was. The extension
-- holds fewer than 65535 bytes.
pub decode_delayed_message-write_delayed_to :
    (w : Writer) (m : Message) (write_ext is_ext : Bool) (out : w.Out)
    → FitsDelayed m
    → length m.ext_bytes < 65535
    → (write_ext ≡ true → is_ext ≡ true)
    → w.contents out ≡ []
    → (write_delayed_to w m write_ext out).1.error ≡ none
    → decode_delayed_message (w.contents (write_delayed_to w m write_ext out).1.out) is_ext
      ≡ ok (stored_delayed m write_ext)
decode_delayed_message-write_delayed_to w m write_ext is_ext out f short same empty fine =
    let short' : length (cap_attempts m).ext_bytes < 65535 = rw capped-ext_bytes short in
    let v = write_delayed_to-Wrote w m write_ext out short' in
    let held : w.contents (write_delayed_to w m write_ext out).1.out
        ≡ delayed_bytes (cap_attempts m) write_ext =
      v.appended ∙ rw empty (sym (v.split ∙ rw (v.complete fine) (append-nil v.done))) in
    rw held (
      decode_delayed_message-delayed_bytes (cap_attempts m) (capped-FitsDelayed m f)
        (cap_attempts-le m) short' write_ext is_ext same
      ∙ ap ok (stored_delayed-capped m write_ext))
