-- ===== src/Message/Decode/Parts.antt =====
-- What the parts of the decoders read from bytes that the encoders wrote.
use nsq.Base.{
  ℕ, ◌+◌, ◌≤◌, ◌<◌, ◌≡◌, refl, sym, ap, ◌∙◌, List, [], ◌∷◌, ◌++◌, append_assoc, length,
  length-append, arith, ◌==◌, add_u16, u16_mod, u64_mod, false, le→ltb_false,
}
use nsq.Base.Bytes.{
  ok, panic, ◌>>=◌, put_be, length-put_be, slice, slice_part, slice_reversed, uint_part, byte_part,
}
use native.Mathlib.Nat.{mod-eq_of_lt}
use nsq.Message.{Message, no_ext_ver}
use nsq.Message.Encode.{header_bytes, ext_bytes}
use nsq.Message.Decode.{DecodeError, read_header, read_ext}

-- The words of the header fit their widths, as the types of the fields ensure.
pub record Fits (m : Message) : Type 0 where
  pub id : m.id < u64_mod
  pub trace_id : m.trace_id < u64_mod
  pub timestamp : m.timestamp < u64_mod

pub length-header_bytes : (m : Message) (combined : ℕ) → length (header_bytes m combined) ≡ 26
unfolding header_bytes
length-header_bytes m combined = simp (length-append, length-put_be)

pub read_header-header_bytes :
    (m : Message) (combined : ℕ) (rest b : List ℕ)
    → Fits m
    → combined < u16_mod
    → b ≡ header_bytes m combined ++ rest
    → read_header b ≡ ok (m.timestamp, combined, m.id, m.trace_id)
unfolding read_header header_bytes
read_header-header_bytes m combined rest b f small e =
    let ts = put_be 8 m.timestamp in
    let c = put_be 2 combined in
    let i = put_be 8 m.id in
    let t = put_be 8 m.trace_id in
    let read_ts =
      uint_part {E = DecodeError} b [] 8 m.timestamp (c ++ (i ++ (t ++ rest))) {lo = 0} {hi = 8}
        (rw e (simp append_assoc)) refl refl f.timestamp in
    let read_c =
      uint_part {E = DecodeError} b ts 2 combined (i ++ (t ++ rest)) {lo = 8} {hi = 10}
        (rw e (simp append_assoc)) (sym (length-put_be _ _)) refl small in
    let read_i =
      uint_part {E = DecodeError} b (ts ++ c) 8 m.id (t ++ rest) {lo = 10} {hi = 18}
        (rw e (simp append_assoc)) (simp (length-append, length-put_be)) refl f.id in
    let read_t =
      uint_part {E = DecodeError} b (ts ++ (c ++ i)) 8 m.trace_id rest {lo = 18} {hi = 26}
        (rw e (simp append_assoc)) (simp (length-append, length-put_be)) refl f.trace_id in
    rw (read_ts, read_c, read_i, read_t)

pub ext_bytes-no_ext_ver : (m : Message) → m.ext_ver ≡ no_ext_ver → ext_bytes m ≡ 0 ∷ []
unfolding ext_bytes
ext_bytes-no_ext_ver m v = ground arith

ext_bytes-some :
    (m : Message)
    → (m.ext_ver == no_ext_ver) ≡ false
    → length m.ext_bytes < u16_mod
    → ext_bytes m ≡ m.ext_ver ∷ (put_be 2 (length m.ext_bytes) ++ m.ext_bytes)
unfolding ext_bytes
ext_bytes-some m v short = rw (v, mod-eq_of_lt short)

pub length-ext_bytes :
    (m : Message)
    → (m.ext_ver == no_ext_ver) ≡ false
    → length m.ext_bytes < u16_mod
    → length (ext_bytes m) ≡ 3 + length m.ext_bytes
length-ext_bytes m v short = rw (ext_bytes-some m v short) (
    omega (
      arith,
      length-append (put_be 2 (length m.ext_bytes)) m.ext_bytes,
      length-put_be 2 (length m.ext_bytes),
    ))

module _ (m : Message) (pre body b : List ℕ) (size : length pre ≡ 26)
    (e : b ≡ pre ++ (ext_bytes m ++ body)) where
  pub read_ext-no_ext_ver : m.ext_ver ≡ no_ext_ver → read_ext b ≡ ok (no_ext_ver, [], 27)
  unfolding read_ext
  read_ext-no_ext_ver v =
      let b_eq : b ≡ pre ++ (0 ∷ body) = rw (ext_bytes-no_ext_ver m v) at e in
      let long : 27 ≤ length b = rw b_eq (omega (arith, length-append pre (0 ∷ body))) in
      rw (le→ltb_false (length b) 27 long, byte_part {E = DecodeError} b pre 0 body b_eq (sym size))

  module _ (v : (m.ext_ver == no_ext_ver) ≡ false) (short : length m.ext_bytes < u16_mod) where
    flat : b ≡ pre ++ ((m.ext_ver ∷ []) ++ (put_be 2 (length m.ext_bytes) ++ (m.ext_bytes ++ body)))
    flat = e ∙ ap (λ x. pre ++ (x ++ body)) (ext_bytes-some m v short) ∙ simp append_assoc

    long : 29 + length m.ext_bytes ≤ length b
    long = rw flat (
        omega (
          arith,
          length-append pre
              ((m.ext_ver ∷ []) ++ (put_be 2 (length m.ext_bytes) ++ (m.ext_bytes ++ body))),
          length-append (put_be 2 (length m.ext_bytes)) (m.ext_bytes ++ body),
          length-append m.ext_bytes body,
          length-put_be 2 (length m.ext_bytes),
        ))

    -- The length is read back; what is left is the slice, with its 16-bit bound.
    read_ext-slice : read_ext b ≡ (
        slice b 29 (add_u16 29 (length m.ext_bytes)) >>= λ s.
        ok (m.ext_ver, s, 29 + length m.ext_bytes))
    unfolding read_ext
    read_ext-slice =
        let ver = byte_part {E = DecodeError} b pre m.ext_ver _ flat (sym size) in
        let len =
          uint_part {E = DecodeError} b (pre ++ (m.ext_ver ∷ [])) 2 (length m.ext_bytes)
            (m.ext_bytes ++ body) {lo = 27} {hi = 29}
            (flat ∙ sym (append_assoc pre (m.ext_ver ∷ []) _))
            (omega (arith, length-append pre (m.ext_ver ∷ []))) refl short in
        rw (
          le→ltb_false (length b) 27 (omega (arith, long)),
          ver,
          v,
          le→ltb_false (length b) 29 (omega (arith, long)),
          len,
          le→ltb_false (length b) (29 + length m.ext_bytes) long,
        )

    -- The bytes are read back while their end fits in 16 bits.
    pub read_ext-ext_bytes :
        length m.ext_bytes < 65507
        → read_ext b ≡ ok (m.ext_ver, m.ext_bytes, 29 + length m.ext_bytes)
    read_ext-ext_bytes h =
        let before = pre ++ ((m.ext_ver ∷ []) ++ put_be 2 (length m.ext_bytes)) in
        let at : b ≡ before ++ (m.ext_bytes ++ body) = flat ∙ simp append_assoc in
        let size' : 29 ≡ length before = simp (length-append, length-put_be, size) in
        read_ext-slice
        ∙ rw (
          mod-eq_of_lt {n = 29 + length m.ext_bytes} {m = u16_mod} (omega arith),
          slice_part {E = DecodeError} b before m.ext_bytes body {hi = 29 + length m.ext_bytes} at
              size' refl,
        )

    -- Past that the bound wraps to below 29, and the slice panics.
    pub read_ext-panic : 65507 ≤ length m.ext_bytes → read_ext b ≡ panic
    read_ext-panic h =
        read_ext-slice
        ∙ rw (slice_reversed {E = DecodeError} b 29 (add_u16 29 (length m.ext_bytes)) (omega arith))
