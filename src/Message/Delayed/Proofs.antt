-- ===== src/Message/Delayed/Proofs.antt =====
-- WriteDelayedTo of nsqd/message.go accounts for every byte, whatever the writer does.
use nsq.Base.{
  ℕ, ◌<◌, Bool, List, ◌++◌, append_assoc, length, ◌==◌, Bool-cases, inl, inr, lt→leb_false,
}
use nsq.Message.{Message, no_ext_ver, pub_delayed, channel_delayed}
use nsq.Message.Writer.{Writer, Progress, Wrote, start-Wrote, emit-Wrote}
use nsq.Message.Encode.{cap_attempts}
use nsq.Message.Encode.Proofs.{write_header-Wrote, write_position-Wrote, Wrote-if}
use nsq.Message.Delayed.{
  write_delayed_info, write_delayed_data, write_delayed_ext, write_delayed_to, delayed_info_bytes,
  delayed_data_bytes, delayed_ext_bytes, delayed_bytes,
}

module _ (w : Writer) {out : w.Out} {bytes : List ℕ} (m : Message) {s : Progress w}
    (v : Wrote w out bytes s) where
  write_delayed_info-Wrote : Wrote w out (bytes ++ delayed_info_bytes m) (write_delayed_info w m s)
  unfolding delayed_info_bytes write_delayed_info
  write_delayed_info-Wrote = rw (← append_assoc bytes _ _) (emit-Wrote w _ (emit-Wrote w _ v))

  write_delayed_data-Wrote : Wrote w out (bytes ++ delayed_data_bytes m) (write_delayed_data w m s)
  unfolding delayed_data_bytes write_delayed_data
  write_delayed_data-Wrote = rw (← append_assoc bytes _ _) (emit-Wrote w _ (emit-Wrote w _ v))

  write_delayed_ext-Wrote :
      length m.ext_bytes < 65535
      → Wrote w out (bytes ++ delayed_ext_bytes m) (write_delayed_ext w m s)
  unfolding delayed_ext_bytes write_delayed_ext
  write_delayed_ext-Wrote short = elim (Bool-cases (m.ext_ver == no_ext_ver)) [
    | inl none_ver ↦ rw none_ver (emit-Wrote w _ v)
    | inr some_ver ↦
        rw
          (
            some_ver,
            lt→leb_false 65535 (length m.ext_bytes) short,
            ← append_assoc bytes _ _,
            ← append_assoc bytes _ _,
          )
          (emit-Wrote w _ (emit-Wrote w _ (emit-Wrote w _ v)))
  ]

-- WriteDelayedTo writes the bytes of the delayed message in order, if the extension is below the
-- limit: all of them if it returns no error, and on the first error it stops, and `total` counts
-- what the writer accepted until then.
pub write_delayed_to-Wrote :
    (w : Writer) (m : Message) (write_ext : Bool) (out : w.Out)
    → length (cap_attempts m).ext_bytes < 65535
    → Wrote w out (delayed_bytes (cap_attempts m) write_ext) (write_delayed_to w m write_ext out).1
unfolding write_delayed_to delayed_bytes
write_delayed_to-Wrote w m write_ext out short =
    let m' = cap_attempts m in
    let header = write_header-Wrote w m' _ (start-Wrote w out) in
    let info = write_delayed_info-Wrote w m' header in
    let payload =
      Wrote-if w (m'.delayed_type == pub_delayed) _ info (write_delayed_data-Wrote w m' info) in
    let ext = Wrote-if w write_ext _ payload (write_delayed_ext-Wrote w m' payload short) in
    let position =
      Wrote-if w (m'.delayed_type == channel_delayed) _ ext (write_position-Wrote w m' ext) in
    emit-Wrote w m'.body position
