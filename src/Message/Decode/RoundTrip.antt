-- ===== src/Message/Decode/RoundTrip.antt =====
-- decodeMessage on what internalWriteTo wrote.
use nsq.Base.{
  ℕ, ◌+◌, ◌≤◌, ◌<◌, ◌≡◌, ◌≢◌, refl, sym, ap, ◌∙◌, List, [], ◌∷◌, ◌++◌, append_assoc, append-nil,
  length, length-append, arith, ltb, ◌==◌, if◌then◌else◌, u16_mod, Bool, true, false, not, ◌&&◌,
  le→ltb_false, Bool-cases, inl, inr, none, and_false, ==_iff,
}
use nsq.Base.Bytes.{ok, err, panic, ◌>>=◌, slice, slice_rest}
use nsq.Message.{Message, max_attempts, ext_msg_high_bits, no_ext_ver}
use nsq.Message.Writer.{Writer}
use nsq.Message.Encode.{
  header_bytes, ext_bytes, message_bytes, cap_attempts, combined_attempts, write_to,
}
use nsq.Message.Encode.Proofs.{internal_write_to-Wrote}
use nsq.Message.Decode.{
  DecodeError, ext_not_decoded, read_header, high_bits_of, attempts_of, read_ext, decode_message,
}
use nsq.Message.Decode.Parts.{
  Fits, length-header_bytes, read_header-header_bytes, read_ext-no_ext_ver, read_ext-ext_bytes,
  read_ext-panic, ext_bytes-no_ext_ver, length-ext_bytes,
}

-- What a decoder can know of `m`: the fields of the header, the body, and the extension if written.
abbrev pub stored : Message → Bool → Message
stored m write_ext = record {
  id = m.id;
  trace_id = m.trace_id;
  body = m.body;
  timestamp = m.timestamp;
  attempts = if ltb max_attempts m.attempts then max_attempts else m.attempts;
  ext_bytes = if write_ext && not (m.ext_ver == no_ext_ver) then m.ext_bytes else [];
  ext_ver = if write_ext then m.ext_ver else no_ext_ver;
  offset = 0;
  raw_move_size = 0;
  delayed_type = 0;
  delayed_ts = 0;
  delayed_orig_id = 0;
  delayed_channel = [];
  delayed_data = [];
}

pub cap_attempts-le : (m : Message) → (cap_attempts m).attempts ≤ max_attempts
unfolding cap_attempts
cap_attempts-le m = ground arith

-- The mark and the count come apart again.
pub combined_marked :
    (m : Message)
    → m.attempts ≤ max_attempts
    → (combined_attempts m true < u16_mod)
      × (high_bits_of (combined_attempts m true) ≡ ext_msg_high_bits)
      × (attempts_of (combined_attempts m true) ≡ m.attempts)
unfolding combined_attempts high_bits_of attempts_of
combined_marked m h = ground arith

pub combined_plain :
    (m : Message)
    → m.attempts ≤ max_attempts
    → (combined_attempts m false < u16_mod)
      × (high_bits_of (combined_attempts m false) ≡ 0)
      × (attempts_of (combined_attempts m false) ≡ m.attempts)
unfolding combined_attempts high_bits_of attempts_of
combined_plain m h = ground arith

capped-Fits : (m : Message) → Fits m → Fits (cap_attempts m)
unfolding cap_attempts
capped-Fits m f = ground arith

stored-capped :
    (m : Message) (write_ext : Bool) → stored (cap_attempts m) write_ext ≡ stored m write_ext
unfolding cap_attempts
stored-capped m write_ext = ground arith

cap_attempts-ext_bytes : (m : Message) → (cap_attempts m).ext_bytes ≡ m.ext_bytes
unfolding cap_attempts
cap_attempts-ext_bytes m = ground arith

cap_attempts-ext_ver : (m : Message) → (cap_attempts m).ext_ver ≡ m.ext_ver
unfolding cap_attempts
cap_attempts-ext_ver m = ground arith

-- A message of at most `maxAttempts` attempts, as it comes from `cap_attempts`.
module _ (m : Message) (f : Fits m) (few : m.attempts ≤ max_attempts) where
  plain_bytes :
      message_bytes m false true false ≡ header_bytes m (combined_attempts m false) ++ m.body
  unfolding message_bytes
  plain_bytes = simp append-nil

  marked_bytes :
      message_bytes m true true false
      ≡ header_bytes m (combined_attempts m true) ++ (ext_bytes m ++ m.body)
  unfolding message_bytes
  marked_bytes = simp (append-nil, append_assoc)

  decode_plain :
      (is_ext : Bool)
      → decode_message (message_bytes m false true false) is_ext ≡ ok (stored m false)
  unfolding decode_message
  decode_plain is_ext =
      let (small, high, attempts) = combined_plain m few in
      let header = header_bytes m (combined_attempts m false) in
      let b = message_bytes m false true false in
      let long : 26 ≤ length b = rw plain_bytes (
        omega (
          arith,
          length-append header m.body,
          length-header_bytes m (combined_attempts m false),
        )) in
      let read =
        read_header-header_bytes m (combined_attempts m false) m.body b f small plain_bytes in
      let rest =
        slice_rest {E = DecodeError} b header m.body {lo = 26} plain_bytes
          (sym (length-header_bytes m _)) in
      rw (
        le→ltb_false (length b) 26 long,
        read,
        high,
        attempts,
        and_false is_ext,
        rest,
        le→ltb_false max_attempts m.attempts few,
      )

  marked_long : 26 ≤ length (message_bytes m true true false)
  marked_long = rw marked_bytes (
      omega (
        arith,
        length-append (header_bytes m (combined_attempts m true)) (ext_bytes m ++ m.body),
        length-header_bytes m (combined_attempts m true),
      ))

  read_marked :
      read_header (message_bytes m true true false)
      ≡ ok (m.timestamp, combined_attempts m true, m.id, m.trace_id)
  read_marked =
      read_header-header_bytes m (combined_attempts m true) (ext_bytes m ++ m.body) _ f
        (combined_marked m few).0 marked_bytes

  decode_unexpected : decode_message (message_bytes m true true false) false ≡ err ext_not_decoded
  unfolding decode_message
  decode_unexpected =
      let b = message_bytes m true true false in
      rw (le→ltb_false (length b) 26 marked_long, read_marked, (combined_marked m few).1)

  -- What is left of the decoder once the header is read.
  decode_marked : decode_message (message_bytes m true true false) true ≡ (
      read_ext (message_bytes m true true false) >>= λ (ver, ext, start).
      slice (message_bytes m true true false) start (length (message_bytes m true true false))
      >>= λ body. ok (record (stored m true) { body = body; ext_ver = ver; ext_bytes = ext }))
  unfolding decode_message
  decode_marked =
      let b = message_bytes m true true false in
      rw (
        le→ltb_false (length b) 26 marked_long,
        read_marked,
        (combined_marked m few).1,
        (combined_marked m few).2,
        le→ltb_false max_attempts m.attempts few,
      )

  decode_ext :
      length m.ext_bytes < 65507
      → decode_message (message_bytes m true true false) true ≡ ok (stored m true)
  decode_ext short = elim (Bool-cases (m.ext_ver == no_ext_ver)) [
    | inl none_ver ↦
        let ver : m.ext_ver ≡ no_ext_ver = (==_iff m.ext_ver no_ext_ver).0 none_ver in
        let at : b ≡ (header ++ (0 ∷ [])) ++ m.body =
          marked_bytes ∙ rw (ext_bytes-no_ext_ver m ver) (simp append_assoc) in
        decode_marked
        ∙ rw (
          read_ext-no_ext_ver m header m.body b size marked_bytes ver,
          slice_rest {E = DecodeError} b (header ++ (0 ∷ [])) m.body {lo = 27} at
              (simp (length-append, size)),
          none_ver,
          ver,
        )
    | inr some_ver ↦
        let at : b ≡ (header ++ ext_bytes m) ++ m.body = marked_bytes ∙ simp append_assoc in
        let end : 29 + length m.ext_bytes ≡ length (header ++ ext_bytes m) = omega (
          arith,
          length-append header (ext_bytes m),
          size,
          length-ext_bytes m some_ver (omega arith),
        ) in
        decode_marked
        ∙ rw (
          read_ext-ext_bytes m header m.body b size marked_bytes some_ver (omega arith) short,
          slice_rest {E = DecodeError} b (header ++ ext_bytes m) m.body
              {lo = 29 + length m.ext_bytes} at end,
          some_ver,
        )
  ]
    where
      b : List ℕ
      b = message_bytes m true true false

      header : List ℕ
      header = header_bytes m (combined_attempts m true)

      size : length header ≡ 26
      size = length-header_bytes m (combined_attempts m true)

  decode_long_ext :
      (m.ext_ver == no_ext_ver) ≡ false
      → 65507 ≤ length m.ext_bytes
      → length m.ext_bytes < u16_mod
      → decode_message (message_bytes m true true false) true ≡ panic
  decode_long_ext ver long short =
      decode_marked
      ∙ rw (
          read_ext-panic m (header_bytes m (combined_attempts m true)) m.body _
            (length-header_bytes m _) marked_bytes ver short long)

  decode_message-message_bytes :
      (write_ext is_ext : Bool)
      → length m.ext_bytes < 65507
      → (write_ext ≡ true → is_ext ≡ true)
      → decode_message (message_bytes m write_ext true false) is_ext ≡ ok (stored m write_ext)
  decode_message-message_bytes false is_ext short same = decode_plain is_ext
  decode_message-message_bytes true is_ext short same = rw (same refl) (decode_ext short)

-- What a writer that was empty holds after WriteTo returned without an error.
write_to_contents :
    (w : Writer) (m : Message) (write_ext : Bool) (out : w.Out)
    → w.contents out ≡ []
    → (write_to w m write_ext out).1.error ≡ none
    → w.contents (write_to w m write_ext out).1.out
      ≡ message_bytes (cap_attempts m) write_ext true false
unfolding write_to
write_to_contents w m write_ext out empty fine =
    let v = internal_write_to-Wrote w m write_ext true false out in
    v.appended ∙ rw empty (sym (v.split ∙ rw (v.complete fine) (append-nil v.done)))

-- A message that WriteTo wrote without an error into an empty writer is decoded to itself: to its
-- header fields (the attempts capped at 4000), its body, and its extension if one was written. The
-- reader must expect extensions if one was written, and may where none was. The extension holds
-- fewer than 65507 bytes.
pub decode_message-write_to :
    (w : Writer) (m : Message) (write_ext is_ext : Bool) (out : w.Out)
    → Fits m
    → length m.ext_bytes < 65507
    → (write_ext ≡ true → is_ext ≡ true)
    → w.contents out ≡ []
    → (write_to w m write_ext out).1.error ≡ none
    → decode_message (w.contents (write_to w m write_ext out).1.out) is_ext
      ≡ ok (stored m write_ext)
decode_message-write_to w m write_ext is_ext out f short same empty fine =
    rw (write_to_contents w m write_ext out empty fine) (
      decode_message-message_bytes (cap_attempts m) (capped-Fits m f) (cap_attempts-le m) write_ext
        is_ext (rw cap_attempts-ext_bytes short) same
      ∙ ap ok (stored-capped m write_ext))

-- A reader that expects no extension refuses a message that was written with one, whatever the
-- length of the extension.
pub decode_message-unexpected_ext :
    (w : Writer) (m : Message) (out : w.Out)
    → Fits m
    → w.contents out ≡ []
    → (write_to w m true out).1.error ≡ none
    → decode_message (w.contents (write_to w m true out).1.out) false ≡ err ext_not_decoded
decode_message-unexpected_ext w m out f empty fine =
    rw (write_to_contents w m true out empty fine)
      (decode_unexpected (cap_attempts m) (capped-Fits m f) (cap_attempts-le m))

-- A message with a versioned extension of 65507 to 65535 bytes is written without an error, and
-- the reader panics on it: the upper bound `29+extLen` of the slice wraps in 16 bits.
pub decode_message-panic :
    (w : Writer) (m : Message) (out : w.Out)
    → Fits m
    → m.ext_ver ≢ no_ext_ver
    → 65507 ≤ length m.ext_bytes
    → length m.ext_bytes < u16_mod
    → w.contents out ≡ []
    → (write_to w m true out).1.error ≡ none
    → decode_message (w.contents (write_to w m true out).1.out) true ≡ panic
decode_message-panic w m out f ver long short empty fine =
    rw (write_to_contents w m true out empty fine) (
      decode_long_ext (cap_attempts m) (capped-Fits m f) (cap_attempts-le m)
        (rw cap_attempts-ext_ver (ground arith)) (rw cap_attempts-ext_bytes long)
        (rw cap_attempts-ext_bytes short))
