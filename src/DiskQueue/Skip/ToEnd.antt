-- ===== src/DiskQueue/Skip/ToEnd.antt =====
-- SkipReadToEnd does not fail.
use nsq.Base.{
  ℕ, ◌≡◌, inl, inr, refl, sym, subst, arith, Bool, true, false, Option, none, some, ltb, ◌==◌,
  if◌then◌else◌, Bool-cases,
}
use nsq.DiskQueue.{EndInfo}
use nsq.DiskQueue.Confirm.{DiskReader, mark_sync}
use nsq.DiskQueue.Confirm.Correct.{IsOrdered}
use nsq.DiskQueue.Skip.{
  SkipError, skip_exiting, MetaRead, internal_skip_to, find_position, skip_read_to_end, when_done,
  to_end,
}
use nsq.DiskQueue.Skip.Ordered.{SkipsTo, refused, moved, internal_skip_to-SkipsTo}

-- No error, and every position is the end.
abbrev pub EndsAt : EndInfo → DiskReader × Option SkipError → Type 0
EndsAt e q = (q.1 ≡ none) × (q.0.read_info ≡ e) × (q.0.confirmed_info ≡ e) × (q.0.end_info ≡ e)

done :
    (e : EndInfo) (d : DiskReader) (x : Option SkipError)
    → x ≡ none
    → d.end_info ≡ e
    → EndsAt e (when_done to_end (d, x))
done e d none fine same = (refl, same, same, same)
done e d (some x) fine same = absurd (cc fine)

kept :
    {voffset : ℕ} {back : Bool} {d d' : DiskReader} {e : Option SkipError}
    → SkipsTo voffset back d d' e
    → d'.end_info ≡ d.end_info
kept (refused x) = refl
kept (moved d' at same end low fwd) = end

module _ (size : ℕ → Option ℕ) (gone : Bool) (meta : ℕ → MetaRead) where
  end_found :
      (d : DiskReader)
      → IsOrdered d
      → (let e = d.end_info in
          (internal_skip_to size gone meta e.virtual_end e.total_msg_cnt false d).1 ≡ none)
  unfolding internal_skip_to find_position
  end_found d v =
      let e = d.end_info in
      elim (Bool-cases (e.virtual_end == d.read_info.virtual_end)) [
        | inl at_read ↦ rw at_read refl
        | inr off_read ↦ elim (Bool-cases (e.virtual_end == d.confirmed_info.virtual_end)) [
          | inl at_confirmed ↦ rw (off_read, at_confirmed) refl
          | inr off_confirmed ↦
              let after : ltb e.virtual_end d.confirmed_info.virtual_end ≡ false =
                ground (arith, v.confirmed_le, v.read_le) in
              let in_end : ltb e.virtual_end e.virtual_end ≡ false = ground arith in
              let in_cnt : ltb e.total_msg_cnt e.total_msg_cnt ≡ false = ground arith in
              let same : (e.virtual_end == e.virtual_end) ≡ true = ground arith in
              let same_cnt : (e.total_msg_cnt == e.total_msg_cnt) ≡ true = ground arith in
              rw (off_read, off_confirmed, after, in_end, in_cnt, same, same_cnt)
                (elim (Bool-cases (e.total_msg_cnt == 0)) [
                  | inl none_sent ↦ rw none_sent refl
                  | inr some_sent ↦ rw some_sent refl
                ])
        ]
      ]

  end_kept :
      (d : DiskReader)
      → IsOrdered d
      → (let e = d.end_info in
          (internal_skip_to size gone meta e.virtual_end e.total_msg_cnt false d).0.end_info
          ≡ d.end_info)
  end_kept d v =
      let e = d.end_info in
      kept (internal_skip_to-SkipsTo size gone meta e.virtual_end e.total_msg_cnt false d v)

  -- SkipReadToEnd on a reader whose offsets are in order and which is not exiting. It returns no
  -- error, the read and the confirmed position are then the end of the queue, and the end stays.
  pub skip_read_to_end_correct :
      (d : DiskReader)
      → IsOrdered d
      → d.exit_flag ≡ false
      → EndsAt d.end_info (skip_read_to_end size gone meta d)
  unfolding skip_read_to_end
  skip_read_to_end_correct d v on =
      let e = d.end_info in
      let op = internal_skip_to size gone meta e.virtual_end e.total_msg_cnt false in
      let call = when_done to_end (op d) in
      let ends : EndsAt e call = done e (op d).0 (op d).1 (end_found d v) (end_kept d v) in
      subst
        (λ b.
          EndsAt e
            (if b then (d, some skip_exiting) else mark_sync d.confirmed_info.virtual_end call))
        (sym on) ends

  pub skip_read_to_end-IsOrdered :
      (d : DiskReader) → IsOrdered d → IsOrdered (skip_read_to_end size gone meta d).0
  unfolding skip_read_to_end
  skip_read_to_end-IsOrdered d v = by_exit d.exit_flag refl
    where
      op : DiskReader → DiskReader × Option SkipError
      op = internal_skip_to size gone meta d.end_info.virtual_end d.end_info.total_msg_cnt false

      whole : Bool → DiskReader × Option SkipError
      whole b =
          let call = mark_sync d.confirmed_info.virtual_end (when_done to_end (op d)) in
          if b then (d, some skip_exiting) else call

      by_exit : (b : Bool) → d.exit_flag ≡ b → IsOrdered (whole b).0
      by_exit true off = v
      by_exit false on =
          let (fine, read, confirmed, end) =
            done d.end_info (op d).0 (op d).1 (end_found d v) (end_kept d v) in
          record {
            confirmed_le = rw (read, confirmed) (omega arith);
            read_le = rw (read, end) (omega arith);
            bound = rw end v.bound;
          }
