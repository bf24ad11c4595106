-- ===== src/DiskQueue/Skip/Methods.antt =====
-- SkipReadToOffset, ResetReadToOffset, ResetReadToConfirmed, SkipReadToEnd and skipToNextFile.
use nsq.Base.{
  ℕ, zero, suc, ◌-◌, ◌≤◌, ◌≡◌, inl, inr, refl, arith, Bool, true, false, Option, none, some, ltb,
  leb, if◌then◌else◌, Bool-cases,
}
use nsq.DiskQueue.{EndInfo}
use nsq.DiskQueue.Confirm.{DiskReader, update_depth}
use nsq.DiskQueue.Confirm.Correct.{IsOrdered}
use nsq.DiskQueue.Skip.{
  SkipError, skip_exiting, skip_meta, MetaRead, meta_missing, meta_broken, meta_of, with_meta,
  start_of_next, go_on, next_meta, skip_to_end_of_queue, skip_to_next_file, skip_to_next,
  internal_skip_to, reset_read_to_confirmed, reset_read_to_offset, skip_read_to_offset,
}
use nsq.DiskQueue.Skip.Ordered.{
  SkipsTo, refused, moved, SkipsTo-IsOrdered, update_depth-IsOrdered, internal_skip_to-SkipsTo,
  unless_exiting-SkipsTo,
}

-- The data files of which the meta file says where they end, all end before the queue does.
abbrev pub EndsInside : (ℕ → MetaRead) → EndInfo → Type 0
EndsInside meta e = (n cnt start end : ℕ) → meta n ≡ meta_of cnt start end → end ≤ e.virtual_end

forward :
    (offset : ℕ) (d d' : DiskReader) (e : Option SkipError)
    → IsOrdered d
    → SkipsTo offset false d d' e
    → d.confirmed_info.virtual_end ≤ d'.confirmed_info.virtual_end
forward offset d d' e v (refused x) = omega arith
forward offset d d' e v (moved d'' (inl here) same end low fwd) = omega (arith, fwd refl)
forward offset d d' e v (moved d'' (inr last) same end low fwd) = omega (arith, v)

module _ (size : ℕ → Option ℕ) (gone : Bool) (meta : ℕ → MetaRead) where
  -- SkipReadToOffset on a reader whose offsets are in order. It fails and changes nothing, or both the
  -- read and the confirmed offset are then the one asked for or the end of the queue. The offsets
  -- are in order afterwards, and the confirmed one has not moved backward.
  pub skip_read_to_offset_correct :
      (offset cnt : ℕ) (d : DiskReader)
      → IsOrdered d
      → (let q = skip_read_to_offset size gone meta offset cnt d in
          SkipsTo offset false d q.0 q.1
          × IsOrdered q.0
          × (d.confirmed_info.virtual_end ≤ q.0.confirmed_info.virtual_end))
  unfolding skip_read_to_offset
  skip_read_to_offset_correct offset cnt d v =
      let ends =
        unless_exiting-SkipsTo offset false (internal_skip_to size gone meta offset cnt false) d
          (internal_skip_to-SkipsTo size gone meta offset cnt false d v) in
      (ends, SkipsTo-IsOrdered offset false d _ _ v ends, forward offset d _ _ v ends)

  pub reset_read_to_offset-IsOrdered :
      (offset cnt : ℕ) (d : DiskReader)
      → IsOrdered d
      → IsOrdered (reset_read_to_offset size gone meta offset cnt d).0
  unfolding reset_read_to_offset
  reset_read_to_offset-IsOrdered offset cnt d v =
      let back = ltb offset d.confirmed_info.virtual_end in
      SkipsTo-IsOrdered offset back d _ _ v (
        unless_exiting-SkipsTo offset back (internal_skip_to size gone meta offset cnt back) d
          (internal_skip_to-SkipsTo size gone meta offset cnt back d v))

  pub reset_read_to_confirmed-IsOrdered :
      (d : DiskReader) → IsOrdered d → IsOrdered (reset_read_to_confirmed size gone meta d).0
  unfolding reset_read_to_confirmed
  reset_read_to_confirmed-IsOrdered d v =
      let c = d.confirmed_info in
      SkipsTo-IsOrdered c.virtual_end false d _ _ v (
        unless_exiting-SkipsTo c.virtual_end false
          (internal_skip_to size gone meta c.virtual_end c.total_msg_cnt false) d
          (internal_skip_to-SkipsTo size gone meta c.virtual_end c.total_msg_cnt false d v))

  found_inside :
      (m : MetaRead) (missing : EndInfo × Option SkipError) (c e : EndInfo)
      → missing.0.virtual_end ≤ e.virtual_end
      → c.virtual_end ≤ e.virtual_end
      → ((cnt start end : ℕ) → m ≡ meta_of cnt start end → end ≤ e.virtual_end)
      → (let q : EndInfo × Option SkipError =
            with_meta m missing
              (c, some skip_meta)
              (λ cnt start end. (start_of_next c end cnt, none)) in
          q.0.virtual_end ≤ e.virtual_end)
  found_inside meta_missing missing c e past low inside = past
  found_inside meta_broken missing c e past low inside = low
  found_inside (meta_of cnt start end) missing c e past low inside = inside cnt start end refl

  next_meta-inside :
      (left : ℕ) (c e : EndInfo)
      → EndsInside meta e
      → c.virtual_end ≤ e.virtual_end
      → (next_meta size gone meta left c).0.virtual_end ≤ e.virtual_end
  unfolding next_meta
  next_meta-inside zero c e inside low =
      found_inside (meta c.end_offset.file_num) (c, some skip_meta) c e low low
        (inside c.end_offset.file_num)
  next_meta-inside (suc left) c e inside low =
      let over = start_of_next c c.virtual_end c.total_msg_cnt in
      found_inside (meta c.end_offset.file_num) (next_meta size gone meta left over) c e
        (next_meta-inside left over e inside low) low (inside c.end_offset.file_num)

  -- The loop fails with the offset it started from.
  found_failed :
      (m : MetaRead) (missing : EndInfo × Option SkipError) (c : EndInfo) (x : SkipError)
      → (missing.1 ≡ some x → missing.0.virtual_end ≡ c.virtual_end)
      → (let q : EndInfo × Option SkipError =
            with_meta m missing
              (c, some skip_meta)
              (λ cnt start end. (start_of_next c end cnt, none)) in
          q.1 ≡ some x → q.0.virtual_end ≡ c.virtual_end)
  found_failed meta_missing missing c x past = past
  found_failed meta_broken missing c x past = λ _. refl
  found_failed (meta_of cnt start end) missing c x past = λ h. absurd (cc h)

  next_meta_failed :
      (left : ℕ) (c : EndInfo) (x : SkipError)
      → (next_meta size gone meta left c).1 ≡ some x
      → (next_meta size gone meta left c).0.virtual_end ≡ c.virtual_end
  unfolding next_meta
  next_meta_failed zero c x =
      found_failed (meta c.end_offset.file_num) (c, some skip_meta) c x (λ _. refl)
  next_meta_failed (suc left) c x =
      let over = start_of_next c c.virtual_end c.total_msg_cnt in
      found_failed (meta c.end_offset.file_num) (next_meta size gone meta left over) c x
        (next_meta_failed left over x)

  both-IsOrdered :
      (r : EndInfo) (d : DiskReader)
      → IsOrdered d
      → r.virtual_end ≤ d.end_info.virtual_end
      → IsOrdered (update_depth (record d { read_info = r; confirmed_info = r }))
  both-IsOrdered r d v low =
      update_depth-IsOrdered _
        (record { confirmed_le = omega arith; read_le = low; bound = v.bound })

  go_on-IsOrdered :
      (c : EndInfo) (e : Option SkipError) (d : DiskReader)
      → IsOrdered d
      → c.virtual_end ≤ d.end_info.virtual_end
      → ((x : SkipError) → e ≡ some x → c.virtual_end ≡ d.confirmed_info.virtual_end)
      → IsOrdered (go_on d (c, e)).0
  go_on-IsOrdered c none d v low failed = both-IsOrdered c d v low
  go_on-IsOrdered c (some x) d v low failed = record {
    confirmed_le = omega (arith, failed x refl, v.confirmed_le);
    read_le = v.read_le;
    bound = v.bound;
  }

  skip_to_next_file-IsOrdered :
      (d : DiskReader)
      → EndsInside meta d.end_info
      → IsOrdered d
      → IsOrdered (skip_to_next_file size gone meta d).0
  unfolding skip_to_next_file skip_to_end_of_queue
  skip_to_next_file-IsOrdered d inside v =
      let c = d.confirmed_info in
      let left = d.end_info.end_offset.file_num - 1 - c.end_offset.file_num in
      let low : c.virtual_end ≤ d.end_info.virtual_end = omega (arith, v.confirmed_le, v.read_le) in
      elim (Bool-cases (leb d.end_info.end_offset.file_num c.end_offset.file_num)) [
        | inl last ↦ rw last (both-IsOrdered d.end_info d v (omega arith))
        | inr earlier ↦ rw earlier (
            go_on-IsOrdered _ _ d v (next_meta-inside left c d.end_info inside low)
              (next_meta_failed left c))
      ]

  pub skip_to_next-IsOrdered :
      (d : DiskReader)
      → EndsInside meta d.end_info
      → IsOrdered d
      → IsOrdered (skip_to_next size gone meta d).0
  unfolding skip_to_next
  skip_to_next-IsOrdered d inside v = by_exit d.exit_flag
    where
      by_exit :
          (b : Bool)
          → IsOrdered (if b then (d, some skip_exiting) else skip_to_next_file size gone meta d).0
      by_exit true = v
      by_exit false = skip_to_next_file-IsOrdered d inside v
