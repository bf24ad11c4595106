-- ===== src/Message/Encode/Proofs.antt =====
-- The writing functions of nsqd/message.go account for every byte, whatever the writer does.
use nsq.Base.{
  ℕ, Bool, true, false, List, [], ◌++◌, append-nil, append_assoc, ◌==◌, if◌then◌else◌, Bool-cases,
  inl, inr,
}
use nsq.Message.{Message, no_ext_ver}
use nsq.Message.Writer.{Writer, Progress, Wrote, start-Wrote, emit-Wrote}
use nsq.Message.Encode.{
  cap_attempts, write_header, write_ext_content, write_position, internal_write_to, header_bytes,
  position_bytes, ext_bytes, message_bytes,
}

module _ (w : Writer) {out : w.Out} {bytes : List ℕ} where
  pub write_header-Wrote :
      (m : Message) (combined : ℕ) {s : Progress w}
      → Wrote w out bytes s
      → Wrote w out (bytes ++ header_bytes m combined) (write_header w m combined s)
  unfolding header_bytes write_header
  write_header-Wrote m combined v =
      rw (← append_assoc bytes _ _) (emit-Wrote w _ (emit-Wrote w _ v))

  pub write_position-Wrote :
      (m : Message) {s : Progress w}
      → Wrote w out bytes s
      → Wrote w out (bytes ++ position_bytes m) (write_position w m s)
  unfolding position_bytes write_position
  write_position-Wrote m v = emit-Wrote w _ v

  write_ext_content-Wrote :
      (m : Message) {s : Progress w}
      → Wrote w out bytes s
      → Wrote w out (bytes ++ ext_bytes m) (write_ext_content w m s)
  unfolding ext_bytes write_ext_content
  write_ext_content-Wrote m v = elim (Bool-cases (m.ext_ver == no_ext_ver)) [
    | inl none_ver ↦ rw none_ver (emit-Wrote w _ v)
    | inr some_ver ↦
        rw (some_ver, ← append_assoc bytes _ _, ← append_assoc bytes _ _)
          (emit-Wrote w _ (emit-Wrote w _ (emit-Wrote w _ v)))
  ]

  -- An optional block.
  pub Wrote-if :
      (b : Bool) (more : List ℕ) {s t : Progress w}
      → Wrote w out bytes s
      → Wrote w out (bytes ++ more) t
      → Wrote w out (bytes ++ (if b then more else [])) (if b then t else s)
  Wrote-if true more v u = u
  Wrote-if false more v u = rw (append-nil bytes) v

-- internalWriteTo writes the bytes of the message in order: all of them if it returns no error,
-- and on the first error it stops, and `total` counts what the writer accepted until then.
pub internal_write_to-Wrote :
    (w : Writer) (m : Message) (write_ext write_compatible write_detail : Bool) (out : w.Out)
    → Wrote w out
        (message_bytes (cap_attempts m) write_ext write_compatible write_detail)
        (internal_write_to w m write_ext write_compatible write_detail out).1
unfolding internal_write_to message_bytes
internal_write_to-Wrote w m write_ext write_compatible write_detail out =
    let m' = cap_attempts m in
    let header = write_header-Wrote w m' _ (start-Wrote w out) in
    let ext = Wrote-if w write_ext _ header (write_ext_content-Wrote w m' header) in
    let detail = Wrote-if w write_detail _ ext (write_position-Wrote w m' ext) in
    emit-Wrote w m'.body detail
