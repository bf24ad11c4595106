-- ===== src/Channel/Confirm/Exact.antt =====
-- The confirmed offset is the first byte that no finished message has.
use nsq.Base.{
  ℕ, ◌+◌, ◌≤◌, ◌<◌, ◌≡◌, ◌≢◌, ◌⊎◌, ◌↔◌, inl, inr, ap, arith, some, false, ltb, leb, Bool-cases,
  dec_lt, ◌&&◌, not, ◌/◌, lt→leb_false, le→ltb_false, leb→le,
}
use nsq.Base.Map.{find}
use nsq.Intervals.{Interval, IntervalHash, remove_ends, add_or_merge, len}
use nsq.Intervals.Exact.{
  IsValid, Covered, In, IsFresh, remove_ends-IsValid, find-remove_ends_other, kept, same_of_find,
}
use nsq.Intervals.Exact.Merge.{IsExactMerge, add_or_merge_exact}
use nsq.Intervals.Lower.{delete_interval-stored}
use nsq.Channel.Backend.{Backend}
use nsq.Channel.Confirm.{
  Finished, extent, Channel, wake_reader, confirm_to, confirm_merged, confirm_backend_queue,
}

module _ (backend : Backend) where
  -- The stored intervals are disjoint and lie beyond the confirmed offset, with a gap before each;
  -- with what lies below the confirmed offset they are the finished bytes, `C`.
  pub record IsExact (C : ℕ → Type 0) (c : Channel backend) : Type 0 where
    pub valid : IsValid c.confirmed_msgs.elems
    pub gap :
        (k : ℕ) (v : Interval)
        → find k c.confirmed_msgs.elems ≡ some v
        → backend.confirmed c.reader < v.start
    pub bytes :
        (x : ℕ) → C x ↔ ((x < backend.confirmed c.reader) ⊎ Covered c.confirmed_msgs.elems x)

  -- The confirmed offset itself is not finished.
  pub confirmed_first :
      (C : ℕ → Type 0) (c : Channel backend) → IsExact C c → ¬ C (backend.confirmed c.reader)
  confirmed_first C c v finished = elim ((v.bytes (backend.confirmed c.reader)).0 finished) [
    | inl below ↦ omega arith
    | inr covered ↦
        omega (arith, v.gap covered.interval.start covered.interval covered.stored, covered.above)
  ]

  wake_reader-IsExact :
      (C : ℕ → Type 0) (c : Channel backend) → IsExact C c → IsExact C (wake_reader backend c)
  unfolding wake_reader
  wake_reader-IsExact C c v =
      elim (Bool-cases (
        ltb (len c.confirmed_msgs) (c.max_confirm_win / 2)
        && c.need_notify_read
        && not c.require_order)) [
          | inl yes_wake ↦ rw yes_wake (record { valid = v.valid; gap = v.gap; bytes = v.bytes })
          | inr no_wake ↦ rw no_wake v
        ]

  module _ (C : ℕ → Type 0) (c : Channel backend) (msg : Finished) (v : IsExact C c)
      (nonempty : 0 < msg.raw_move_size) (unfinished : (x : ℕ) → In x (extent msg) → ¬ C x) where
    abbrev old : ℕ
    old = backend.confirmed c.reader

    abbrev merged : Interval
    merged = (add_or_merge (extent msg) c.confirmed_msgs).0

    abbrev msgs : IntervalHash
    msgs = (add_or_merge (extent msg) c.confirmed_msgs).1

    above : old ≤ msg.offset
    above = elim (dec_lt msg.offset old) [
      | yes p ↦
          absurd (unfinished msg.offset (omega arith, omega arith) ((v.bytes msg.offset).1 (inl p)))
      | no p ↦ omega arith
    ]

    fresh : IsFresh c.confirmed_msgs.elems (extent msg)
    fresh = record {
      nonempty = omega arith;
      apart = λ k u e.
          let was = v.valid.entry k u e in
          let clash = λ (x : ℕ) (lo : u.start ≤ x) (hi : x < u.end) (p : In x (extent msg)).
            unfinished x p (
              (v.bytes x).1
                (inr (record { interval = u; stored = was.at_start; above = lo; below = hi }))) in
          elim (dec_lt msg.offset u.start) [
            | yes before ↦ elim (dec_lt u.start (msg.offset + msg.raw_move_size)) [
              | yes inside ↦ absurd (clash u.start (omega arith) was.nonempty (omega arith, inside))
              | no after ↦ inr (omega arith)
            ]
            | no later ↦ elim (dec_lt msg.offset u.end) [
              | yes inside ↦
                  absurd (clash msg.offset (omega arith) inside (omega arith, omega arith))
              | no after ↦ inl (omega arith)
            ]
          ];
    }

    exact : IsExactMerge (extent msg) c.confirmed_msgs (merged, msgs)
    exact = add_or_merge_exact (extent msg) c.confirmed_msgs v.valid fresh

    abbrev C' : ℕ → Type 0
    C' x = C x ⊎ In x (extent msg)

    -- What is finished now, by the merged map.
    bytes : (x : ℕ) → C' x ↔ ((x < old) ⊎ Covered msgs.elems x)
    bytes x = (there, back)
      where
        there : C' x → (x < old) ⊎ Covered msgs.elems x
        there (inl f) = elim ((v.bytes x).0 f) [
          | inl p ↦ inl p
          | inr q ↦ inr ((exact.bytes x).1 (inl q))
        ]
        there (inr p) = inr ((exact.bytes x).1 (inr p))

        back : (x < old) ⊎ Covered msgs.elems x → C' x
        back (inl p) = inl ((v.bytes x).1 (inl p))
        back (inr q) = elim ((exact.bytes x).0 q) [
          | inl p ↦ inl ((v.bytes x).1 (inr p))
          | inr p ↦ inr p
        ]

    -- A stored interval starts at or beyond the confirmed offset, and beyond it unless the message
    -- starts there.
    starts :
        (k : ℕ) (u : Interval)
        → find k msgs.elems ≡ some u
        → (old < u.start) ⊎ (msg.offset ≤ u.start)
    starts k u e =
        let was = exact.valid.entry k u e in
        let start : Covered msgs.elems u.start = record {
          interval = u;
          stored = was.at_start;
          above = omega arith;
          below = was.nonempty;
        } in
        elim ((exact.bytes u.start).0 start) [
          | inl q ↦ inl (omega (arith, v.gap q.interval.start q.interval q.stored, q.above))
          | inr p ↦ inr p.0
        ]

    merged_nonempty : merged.start < merged.end
    merged_nonempty = (exact.valid.entry merged.start merged exact.stored).nonempty

    module _ (reached : merged.start ≤ old) (r : backend.Reader)
        (at : backend.confirmed r ≡ merged.end) where
      left : IsValid (remove_ends merged msgs.elems)
      left = remove_ends-IsValid msgs.elems exact.valid merged.start merged exact.stored

      left_gap :
          (k : ℕ) (u : Interval)
          → find k (remove_ends merged msgs.elems) ≡ some u
          → merged.end < u.start
      left_gap k u e =
          let (was, ne) = kept msgs.elems exact.valid merged.start merged exact.stored k u e in
          let u_entry = exact.valid.entry k u was in
          let m_entry = exact.valid.entry merged.start merged exact.stored in
          let untouched : u.start ≢ merged.end =
            λ p. ne (same_of_find msgs.elems u_entry.at_start m_entry.at_end p) in
          elim (exact.valid.apart k merged.start u merged was exact.stored) [
            | inl same ↦ absurd (ne same)
            | inr (inl before) ↦ absurd (omega (arith, starts k u was, u_entry.nonempty, above))
            | inr (inr after) ↦ omega arith
          ]

      left_bytes : (x : ℕ) → C' x ↔ ((x < merged.end) ⊎ Covered (remove_ends merged msgs.elems) x)
      left_bytes x = (there, back)
        where
          there : C' x → (x < merged.end) ⊎ Covered (remove_ends merged msgs.elems) x
          there f = elim ((bytes x).0 f) [
            | inl p ↦ inl (omega (arith, exact.end_le, above))
            | inr q ↦
                elim (exact.valid.apart q.interval.start merged.start q.interval merged q.stored
                  exact.stored) [
                    | inl same ↦ inl (rw same at q.below)
                    | inr other ↦ inr (record {
                      interval = q.interval;
                      stored =
                          find-remove_ends_other msgs.elems exact.valid merged.start merged
                            exact.stored q.interval.start q.interval q.stored
                            (λ same. omega (
                              arith,
                              other,
                              q.above,
                              q.below,
                              ap (λ (t : Interval). t.start) same,
                              ap (λ (t : Interval). t.end) same,
                            ));
                      above = q.above;
                      below = q.below;
                    })
                  ]
          ]

          back : (x < merged.end) ⊎ Covered (remove_ends merged msgs.elems) x → C' x
          back (inl p) = elim (dec_lt x old) [
            | yes q ↦ (bytes x).1 (inl q)
            | no q ↦ (bytes x).1 (
                inr (record {
                  interval = merged;
                  stored = exact.stored;
                  above = omega arith;
                  below = p;
                }))
          ]
          back (inr q) = (bytes x).1 (
              inr (record {
                interval = q.interval;
                stored =
                    (kept msgs.elems exact.valid merged.start merged exact.stored q.interval.start
                      q.interval q.stored).0;
                above = q.above;
                below = q.below;
              }))

      confirm_to-IsExact :
          IsExact C'
            (confirm_to backend
              (record c { confirmed_msgs = msgs; waiting_confirm = len msgs })
              merged
              (r, false)).0
      unfolding confirm_to
      confirm_to-IsExact =
          let e = delete_interval-stored merged msgs exact.stored in
          wake_reader-IsExact C' _
            (record { valid = rw e left; gap = rw (e, at) left_gap; bytes = rw (e, at) left_bytes })

    not_reached-IsExact :
        old < merged.start
        → IsExact C' (record c { confirmed_msgs = msgs; waiting_confirm = len msgs })
    not_reached-IsExact h = record {
      valid = exact.valid;
      gap = λ k u e. omega (arith, starts k u e, exact.start_le);
      bytes = bytes;
    }

    confirm_merged-IsExact :
        (backend.confirm_read c.reader merged.end merged.end_cnt).1 ≡ false
        → IsExact C' (confirm_merged backend c (merged, msgs)).0
    unfolding confirm_merged
    confirm_merged-IsExact fine =
        let beyond : leb merged.end old ≡ false =
          lt→leb_false merged.end old (omega (arith, above, exact.end_le)) in
        elim (Bool-cases (leb merged.start old)) [
          | inl reached ↦
              let r = (backend.confirm_read c.reader merged.end merged.end_cnt).0 in
              let at =
                backend.moves c.reader merged.end merged.end_cnt
                  (omega (arith, above, exact.end_le)) fine in
              let done : backend.confirm_read c.reader merged.end merged.end_cnt ≡ (r, false) =
                λ i. (r, fine i) in
              rw (beyond, reached, done) (confirm_to-IsExact (leb→le merged.start old reached) r at)
          | inr gap ↦ rw (beyond, gap) (not_reached-IsExact (ground arith))
        ]

  -- ConfirmBackendQueue is exact: let the finished bytes be those below the confirmed offset and
  -- those of the stored intervals, which are disjoint and lie beyond that offset. After a message
  -- whose bytes were not finished, and whose confirmation the disk queue does not refuse, the same
  -- holds with the message's bytes finished too. So the new confirmed offset is the first byte
  -- that is not finished.
  pub confirm_backend_queue-IsExact :
      (C : ℕ → Type 0) (c : Channel backend) (msg : Finished)
      → IsExact C c
      → 0 < msg.raw_move_size
      → msg.by_channel_delay ≡ false
      → ((x : ℕ) → In x (extent msg) → ¬ C x)
      → (let m = (add_or_merge (extent msg) c.confirmed_msgs).0 in
          (backend.confirm_read c.reader m.end m.end_cnt).1 ≡ false)
      → IsExact (λ x. C x ⊎ In x (extent msg)) (confirm_backend_queue backend c msg).0
        × ¬ (
            C (backend.confirmed (confirm_backend_queue backend c msg).0.reader)
            ⊎ In (backend.confirmed (confirm_backend_queue backend c msg).0.reader) (extent msg))
  unfolding confirm_backend_queue
  confirm_backend_queue-IsExact C c msg v nonempty plain unfinished fine =
      let new : ltb msg.offset (backend.confirmed c.reader) ≡ false =
        le→ltb_false msg.offset (backend.confirmed c.reader)
          (above C c msg v nonempty unfinished) in
      let exact' = confirm_merged-IsExact C c msg v nonempty unfinished fine in
      rw (plain, new) (exact', confirmed_first _ _ exact')
