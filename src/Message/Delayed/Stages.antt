-- ===== src/Message/Delayed/Stages.antt =====
-- What each part of DecodeDelayedMessage reads from the bytes that WriteDelayedTo wrote for it.
use native.Mathlib.Nat.{mod-eq_of_lt}
use nsq.Base.{
  ℕ, ◌+◌, ◌≤◌, ◌<◌, ◌≡◌, refl, sym, ap, ◌∙◌, List, [], ◌∷◌, ◌++◌, append_assoc, length,
  length-append, arith, ◌==◌, if◌then◌else◌, u16_mod, u32_mod, u64_mod, Bool, true, false,
  append-nil, le→ltb_false, Bool-cases, inl, inr, ==_iff,
}
use nsq.Base.Bytes.{ok, put_be, length-put_be, slice_part, uint_part, byte_part}
use nsq.Message.{Message, no_ext_ver}
use nsq.Message.Encode.{position_bytes}
use nsq.Message.Decode.{DecodeError}
use nsq.Message.Decode.Parts.{Fits}
use nsq.Message.Delayed.{
  delayed_info_bytes, delayed_data_bytes, delayed_ext_bytes, read_delayed_info, read_delayed_data,
  read_delayed_ext, read_position,
}

-- The words fit their widths, and the lengths fit the words that hold them.
pub record FitsDelayed (m : Message) : Type 0 where
  pub header : Fits m
  pub delayed_type : m.delayed_type < u32_mod
  pub delayed_ts : m.delayed_ts < u64_mod
  pub delayed_orig_id : m.delayed_orig_id < u64_mod
  pub delayed_channel : length m.delayed_channel < u32_mod
  pub delayed_data : length m.delayed_data < u32_mod
  pub offset : m.offset < u64_mod
  pub raw_move_size : m.raw_move_size < u32_mod

module _ (m : Message) (f : FitsDelayed m) where
  pub length-delayed_info_bytes : length (delayed_info_bytes m) ≡ 24 + length m.delayed_channel
  unfolding delayed_info_bytes
  length-delayed_info_bytes = simp (length-append, length-put_be)

  pub length-delayed_data_bytes : length (delayed_data_bytes m) ≡ 4 + length m.delayed_data
  unfolding delayed_data_bytes
  length-delayed_data_bytes = simp (length-append, length-put_be)

  pub length-position_bytes : length (position_bytes m) ≡ 12
  unfolding position_bytes
  length-position_bytes = simp (length-append, length-put_be)

  module _ (b pre post : List ℕ) where
    -- A part of the buffer leaves room for itself.
    room : (mid : List ℕ) → b ≡ pre ++ (mid ++ post) → length pre + length mid ≤ length b
    room mid e = rw e (omega (arith, length-append pre (mid ++ post), length-append mid post))

    pub read_delayed_info-bytes :
        length pre ≡ 26
        → b ≡ pre ++ (delayed_info_bytes m ++ post)
        → read_delayed_info b
          ≡ ok (
            m.delayed_type,
            m.delayed_ts,
            m.delayed_orig_id,
            m.delayed_channel,
            50 + length m.delayed_channel,
          )
    unfolding read_delayed_info
    read_delayed_info-bytes size e =
        let n = length m.delayed_channel in
        let ty = put_be 4 m.delayed_type in
        let ts = put_be 8 m.delayed_ts in
        let id = put_be 8 m.delayed_orig_id in
        let ln = put_be 4 n in
        let flat : b ≡ pre ++ (ty ++ (ts ++ (id ++ (ln ++ (m.delayed_channel ++ post))))) =
          e
          ∙ unfold delayed_info_bytes in rw (mod-eq_of_lt f.delayed_channel) (simp append_assoc) in
        let long : 50 + n ≤ length b =
          omega (arith, room (delayed_info_bytes m) e, length-delayed_info_bytes) in
        let r1 =
          uint_part {E = DecodeError} b pre 4 m.delayed_type _ {lo = 26} {hi = 30} flat (sym size)
            refl f.delayed_type in
        let r2 =
          uint_part {E = DecodeError} b (pre ++ ty) 8 m.delayed_ts
            (id ++ (ln ++ (m.delayed_channel ++ post))) {lo = 30} {hi = 38}
            (flat ∙ simp append_assoc) (simp (length-append, length-put_be, size)) refl
            f.delayed_ts in
        let r3 =
          uint_part {E = DecodeError} b (pre ++ (ty ++ ts)) 8 m.delayed_orig_id
            (ln ++ (m.delayed_channel ++ post)) {lo = 38} {hi = 46} (flat ∙ simp append_assoc)
            (simp (length-append, length-put_be, size)) refl f.delayed_orig_id in
        let r4 =
          uint_part {E = DecodeError} b (pre ++ (ty ++ (ts ++ id))) 4 n (m.delayed_channel ++ post)
            {lo = 46} {hi = 50} (flat ∙ simp append_assoc)
            (simp (length-append, length-put_be, size)) refl f.delayed_channel in
        let r5 =
          slice_part {E = DecodeError} b (pre ++ (ty ++ (ts ++ (id ++ ln)))) m.delayed_channel post
            {lo = 50} {hi = 50 + n} (flat ∙ simp append_assoc)
            (simp (length-append, length-put_be, size)) refl in
        rw (r1, r2, r3, r4, le→ltb_false (length b) (50 + n) long, r5)

    module _ {pos : ℕ} (size : length pre ≡ pos) where
      pub read_delayed_data-bytes :
          b ≡ pre ++ (delayed_data_bytes m ++ post)
          → read_delayed_data b pos ≡ ok (m.delayed_data, pos + 4 + length m.delayed_data)
      unfolding read_delayed_data
      read_delayed_data-bytes e =
          let n = length m.delayed_data in
          let ln = put_be 4 n in
          let flat : b ≡ pre ++ (ln ++ (m.delayed_data ++ post)) =
            e ∙ unfold delayed_data_bytes in rw (mod-eq_of_lt f.delayed_data) (simp append_assoc) in
          let long : pos + 4 + n ≤ length b =
            omega (arith, room (delayed_data_bytes m) e, length-delayed_data_bytes) in
          let r1 =
            uint_part {E = DecodeError} b pre 4 n (m.delayed_data ++ post) {lo = pos} {hi = pos + 4}
              flat (sym size) refl f.delayed_data in
          let r2 =
            slice_part {E = DecodeError} b (pre ++ ln) m.delayed_data post {lo = pos + 4}
              {hi = pos + 4 + n} (flat ∙ simp append_assoc)
              (simp (length-append, length-put_be, size)) refl in
          rw (
            le→ltb_false (length b) (pos + 4) (omega arith),
            r1,
            le→ltb_false (length b) (pos + 4 + n) long,
            r2,
          )

      pub read_position-bytes :
          b ≡ pre ++ (position_bytes m ++ post)
          → read_position b pos ≡ ok (m.offset, m.raw_move_size, pos + 8 + 4)
      unfolding read_position
      read_position-bytes e =
          let off = put_be 8 m.offset in
          let flat : b ≡ pre ++ (off ++ (put_be 4 m.raw_move_size ++ post)) =
            e ∙ unfold position_bytes in simp append_assoc in
          let long : pos + 8 + 4 ≤ length b =
            omega (arith, room (position_bytes m) e, length-position_bytes) in
          let r1 =
            uint_part {E = DecodeError} b pre 8 m.offset (put_be 4 m.raw_move_size ++ post)
              {lo = pos} {hi = pos + 8} flat (sym size) refl f.offset in
          let r2 =
            uint_part {E = DecodeError} b (pre ++ off) 4 m.raw_move_size post {lo = pos + 8}
              {hi = pos + 8 + 4} (flat ∙ simp append_assoc)
              (simp (length-append, length-put_be, size)) refl f.raw_move_size in
          rw (le→ltb_false (length b) (pos + 8 + 4) long, r1, r2)

      pub read_delayed_ext-none :
          m.ext_ver ≡ no_ext_ver
          → b ≡ pre ++ (delayed_ext_bytes m ++ post)
          → read_delayed_ext b pos ≡ ok (no_ext_ver, [], pos + 1)
      unfolding read_delayed_ext
      read_delayed_ext-none v e =
          let none_bytes : delayed_ext_bytes m ≡ 0 ∷ [] =
            unfold delayed_ext_bytes in ground arith in
          let flat : b ≡ pre ++ (0 ∷ post) = rw none_bytes at e in
          let long : pos + 1 ≤ length b = rw flat (omega (arith, length-append pre (0 ∷ post))) in
          rw (
            le→ltb_false (length b) (pos + 1) long,
            byte_part {E = DecodeError} b pre 0 post {i = pos} flat (sym size),
          )

      pub read_delayed_ext-some :
          (m.ext_ver == no_ext_ver) ≡ false
          → length m.ext_bytes < u16_mod
          → b ≡ pre ++ (delayed_ext_bytes m ++ post)
          → read_delayed_ext b pos ≡ ok (m.ext_ver, m.ext_bytes, pos + 1 + 2 + length m.ext_bytes)
      unfolding read_delayed_ext
      read_delayed_ext-some v short e =
          let n = length m.ext_bytes in
          let ver = m.ext_ver ∷ [] in
          let ln = put_be 2 n in
          let bytes : delayed_ext_bytes m ≡ ver ++ (ln ++ m.ext_bytes) =
            unfold delayed_ext_bytes in rw (v, mod-eq_of_lt short) in
          let flat : b ≡ pre ++ (ver ++ (ln ++ (m.ext_bytes ++ post))) =
            e ∙ rw bytes (simp append_assoc) in
          let long : pos + 1 + 2 + n ≤ length b = omega (
            arith,
            room (delayed_ext_bytes m) e,
            ap length bytes,
            length-append ln m.ext_bytes,
            length-put_be 2 n,
          ) in
          let r0 =
            byte_part {E = DecodeError} b pre m.ext_ver (ln ++ (m.ext_bytes ++ post)) {i = pos} flat
              (sym size) in
          let r1 =
            uint_part {E = DecodeError} b (pre ++ ver) 2 n (m.ext_bytes ++ post) {lo = pos + 1}
              {hi = pos + 1 + 2} (flat ∙ simp append_assoc) (simp (length-append, size)) refl
              short in
          let r2 =
            slice_part {E = DecodeError} b (pre ++ (ver ++ ln)) m.ext_bytes post {lo = pos + 1 + 2}
              {hi = pos + 1 + 2 + n} (flat ∙ simp append_assoc)
              (omega (arith, length-append pre (ver ++ ln), length-put_be 2 n)) refl in
          rw (
            le→ltb_false (length b) (pos + 1) (omega arith),
            r0,
            v,
            le→ltb_false (length b) (pos + 1 + 2) (omega arith),
            r1,
            le→ltb_false (length b) (pos + 1 + 2 + n) long,
            r2,
          )

    -- The optional blocks: what is read, and where the next block starts.
    module _ {pos : ℕ} (size : length pre ≡ pos) where
      pub optional_data :
          (present : Bool)
          → b ≡ pre ++ ((if present then delayed_data_bytes m else []) ++ post)
          → (next : ℕ) × ((if present then read_delayed_data b pos else ok ([], pos))
              ≡ ok (if present then m.delayed_data else [], next))
            × (length (pre ++ (if present then delayed_data_bytes m else [])) ≡ next)
      optional_data true e = (
        _,
        read_delayed_data-bytes size e,
        omega (arith, length-append pre (delayed_data_bytes m), length-delayed_data_bytes),
      )
      optional_data false e = (_, refl, simp (append-nil, size))

      pub optional_position :
          (present : Bool)
          → b ≡ pre ++ ((if present then position_bytes m else []) ++ post)
          → (next : ℕ) × ((if present then read_position b pos else ok (0, 0, pos))
              ≡ ok (if present then m.offset else 0, if present then m.raw_move_size else 0, next))
            × (length (pre ++ (if present then position_bytes m else [])) ≡ next)
      optional_position true e = (
        _,
        read_position-bytes size e,
        omega (arith, length-append pre (position_bytes m), length-position_bytes),
      )
      optional_position false e = (_, refl, simp (append-nil, size))

      ext_stage :
          length m.ext_bytes < u16_mod
          → b ≡ pre ++ (delayed_ext_bytes m ++ post)
          → (next : ℕ) × (read_delayed_ext b pos
              ≡ ok (m.ext_ver, if m.ext_ver == no_ext_ver then [] else m.ext_bytes, next))
            × (length (pre ++ delayed_ext_bytes m) ≡ next)
      unfolding delayed_ext_bytes
      ext_stage short e = elim (Bool-cases (m.ext_ver == no_ext_ver)) [
        | inl v ↦
            let none_ver : m.ext_ver ≡ no_ext_ver = (==_iff m.ext_ver no_ext_ver).0 v in
            (
              pos + 1,
              rw (read_delayed_ext-none size none_ver e, v, none_ver),
              rw v (omega (arith, length-append pre (m.ext_ver ∷ []))),
            )
        | inr v ↦ (
          pos + 1 + 2 + length m.ext_bytes,
          rw (read_delayed_ext-some size v short e, v),
          rw (v, mod-eq_of_lt short) (simp (length-append, length-put_be, size) (omega arith)),
        )
      ]

      pub optional_ext :
          (present : Bool)
          → length m.ext_bytes < u16_mod
          → b ≡ pre ++ ((if present then delayed_ext_bytes m else []) ++ post)
          → (next : ℕ) × ((if present then read_delayed_ext b pos else ok (no_ext_ver, [], pos))
              ≡ ok (
                if present then m.ext_ver else no_ext_ver,
                if present then (if m.ext_ver == no_ext_ver then [] else m.ext_bytes) else [],
                next,
              ))
            × (length (pre ++ (if present then delayed_ext_bytes m else [])) ≡ next)
      optional_ext true short e = ext_stage short e
      optional_ext false short e = (pos, refl, simp (append-nil, size))
