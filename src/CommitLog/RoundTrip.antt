-- ===== src/CommitLog/RoundTrip.antt =====
-- A number in the log, turned into a position and back.
use nsq.Base.{
  ℕ, zero, suc, ◌+◌, ◌-◌, ◌*◌, ◌/◌, ◌%◌, ◌≤◌, ◌≡◌, inl, inr, refl, ap, ◌∙◌, arith, true, false,
  ◌&&◌, ◌||◌, Option, some, ltb, ◌==◌, Bool-cases,
}
use nsq.Base.Bytes.{ok, ◌>>=◌}
use nsq.CommitLog.{
  LogMgr, count_from_file, count_loop, convert_to_count_index, offset_loop, stop_at,
  convert_to_offset_index,
}

module _ (sizes : ℕ → Option ℕ) (entries : ℕ → ℕ) (mgr : LogMgr) where
  -- The entries from a segment on: of `left` segments that were rotated, and of the current one.
  abbrev pub remaining : (seg left : ℕ) → ℕ
  remaining seg zero = mgr.current_count
  remaining seg (suc left) = entries seg + remaining (seg + 1) left

  -- The entries of the first segment.
  abbrev pub first_entries : (seg left : ℕ) → ℕ
  first_entries seg zero = mgr.current_count
  first_entries seg (suc left) = entries seg

  -- The files of the segments that were rotated hold whole entries.
  abbrev pub IsRotated : (seg left : ℕ) → Type 0
  IsRotated seg zero = Unit
  IsRotated seg (suc left) = (sizes seg ≡ some (entries seg * 48)) × IsRotated (seg + 1) left

  -- The search ends `over` segments further, before the entry number `row` there, and counting up to
  -- there from `count` gives `count + more`.
  record Placed (seg left more o count : ℕ) : Type 0 where
    over : ℕ
    row : ℕ
    over_le : over ≤ left
    row_le : over ≡ 0 → o ≤ row
    goes : offset_loop sizes left more seg (o * 48) >>= stop_at mgr ≡ ok (seg + over, row * 48)
    counts : count_loop sizes seg over count (o * 48) (row * 48) ≡ ok (count + more)

  count_known :
      (seg : ℕ) → sizes seg ≡ some (entries seg * 48) → count_from_file sizes seg ≡ ok (entries seg)
  count_known seg e =
      let whole : (entries seg * 48) % 48 == 0 ≡ true = ground arith in
      rw (e, whole) (ap ok (omega arith))

  here :
      (seg left more o row count : ℕ)
      → o + more ≡ row
      → offset_loop sizes left more seg (o * 48) >>= stop_at mgr ≡ ok (seg, row * 48)
      → Placed seg left more o count
  unfolding count_loop
  here seg left more o row count e goes = record {
    over = 0;
    row = row;
    over_le = omega arith;
    row_le = λ q. omega (arith, e);
    goes = goes ∙ ap (λ s. ok (s, row * 48)) (omega arith);
    counts =
        let fits : ltb (row * 48) (o * 48) ≡ false = ground (arith, e) in
        rw fits (ap ok (omega (arith, e)));
  }

  -- The search goes on in the next segment.
  further :
      (left seg more o count : ℕ)
      → sizes seg ≡ some (entries seg * 48)
      → o ≤ entries seg
      → o ≤ count
      → ltb 0 more ≡ true
      → ltb (more + o * 48 / 48) (entries seg) ≡ false
      → Placed
          (seg + 1)
          left
          (more + o * 48 / 48 - entries seg)
          0
          (count + entries seg - o * 48 / 48)
      → Placed seg (suc left) more o count
  unfolding offset_loop count_loop
  further left seg more o count file within oc some_more beyond p = record {
    over = suc p.over;
    row = p.row;
    over_le = omega (arith, p.over_le);
    row_le = λ q. absurd (omega (arith, q));
    goes =
        rw (some_more, count_known seg file, beyond)
          (p.goes ∙ ap (λ x. ok (x, p.row * 48)) (omega arith));
    counts = rw (count_known seg file) (p.counts ∙ ap ok (ground (arith, within, oc, beyond)));
  }

  place :
      (left seg more o count : ℕ)
      → seg + left ≡ mgr.current_start
      → IsRotated seg left
      → o ≤ count
      → o ≤ first_entries seg left
      → more + o ≤ remaining seg left
      → Placed seg left more o count
  unfolding offset_loop
  place zero seg more o count at rot oc of fits = elim (Bool-cases (ltb 0 more)) [
    | inl some_more ↦
        let is_at : seg == mgr.current_start ≡ true = ground (arith, at) in
        let room : ltb mgr.current_count (more + o * 48 / 48) ≡ false = ground (arith, fits) in
        here seg 0 more o (o + more) count refl
          (rw (is_at, some_more, room) (ap (λ x. ok (seg, x)) (omega arith)))
    | inr no_more ↦
        let is_at : seg == mgr.current_start ≡ true = ground (arith, at) in
        here seg 0 more o o count (ground (arith, no_more)) (rw (is_at, no_more) refl)
  ]
  place (suc left) seg more o count at rot oc of fits = elim (Bool-cases (ltb 0 more)) [
    | inl some_more ↦ elim (Bool-cases (ltb (more + o * 48 / 48) (entries seg))) [
      | inl inside ↦
          here seg (suc left) more o (o + more) count refl
            (rw (some_more, count_known seg rot.0, inside) (ap (λ x. ok (seg, x)) (omega arith)))
      | inr beyond ↦ further left seg more o count rot.0 of oc some_more beyond (
          place left (seg + 1) (more + o * 48 / 48 - entries seg) 0
            (count + entries seg - o * 48 / 48) (omega (arith, at)) rot.1 (omega arith)
            (omega arith) (ground (arith, fits, beyond)))
    ]
    | inr no_more ↦
        let is_at : seg == mgr.current_start ≡ false = ground (arith, at) in
        here seg (suc left) more o o count (ground (arith, no_more)) (rw (no_more, is_at) refl)
  ]

  abbrev start_index : ℕ
  start_index = mgr.log_start_info.segment_start_index

  abbrev base : ℕ
  base = mgr.log_start_info.segment_start_count

  abbrev rotated_count : ℕ
  rotated_count = mgr.current_start - start_index

  -- The state of a log that starts after `skipped` entries of its first segment: the segments from the start to the current one, whole entries, and a start
  -- that passes over no more entries than the first segment has and than were counted before.
  pub record IsLog (skipped : ℕ) : Type 0 where
    pub start_le : mgr.log_start_info.segment_start_index ≤ mgr.current_start
    pub rotated :
        IsRotated mgr.log_start_info.segment_start_index
          (mgr.current_start - mgr.log_start_info.segment_start_index)
    pub at_entry : mgr.log_start_info.segment_start_offset ≡ skipped * 48
    pub counted : skipped ≤ mgr.log_start_info.segment_start_count
    pub in_first :
        skipped
        ≤ first_entries mgr.log_start_info.segment_start_index
            (mgr.current_start - mgr.log_start_info.segment_start_index)

  -- The number of entries in the log, with those before its start.
  abbrev pub end_count : (skipped : ℕ) → ℕ
  end_count skipped =
      mgr.log_start_info.segment_start_count
      + remaining mgr.log_start_info.segment_start_index
          (mgr.current_start - mgr.log_start_info.segment_start_index)
      - skipped

  goes_of :
      (skipped : ℕ) (v : IsLog skipped) (count : ℕ)
      → base ≤ count
      → (p : Placed start_index rotated_count (count - base) skipped base)
      → convert_to_offset_index sizes mgr count ≡ ok (start_index + p.over, p.row * 48)
  unfolding convert_to_offset_index
  goes_of skipped v count from p =
      let in_range : ltb count base ≡ false = ground (arith, from) in
      rw (in_range, v.at_entry) p.goes

  counts_of :
      (skipped : ℕ) (v : IsLog skipped) (count : ℕ)
      → base ≤ count
      → (p : Placed start_index rotated_count (count - base) skipped base)
      → convert_to_count_index sizes mgr (start_index + p.over) (p.row * 48) ≡ ok count
  unfolding convert_to_count_index
  counts_of skipped v count from p =
      let past : ltb mgr.current_start (start_index + p.over) ≡ false =
        ground (arith, p.over_le, v.start_le) in
      let whole : ltb 0 (p.row * 48 % 48) ≡ false = ground arith in
      let early : (ltb (start_index + p.over) start_index
            || (start_index + p.over == start_index && ltb (p.row * 48) (skipped * 48)))
          ≡ false =
        ground (arith, p.row_le) in
      let steps : start_index + p.over - start_index ≡ p.over = omega arith in
      rw (past, whole, v.at_entry, early, steps) (p.counts ∙ ap ok (omega (arith, from)))

  -- For a number from the start of the log to its end, ConvertToOffsetIndex returns a position, of a
  -- segment up to the current one and a multiple of an entry's size, and ConvertToCountIndex turns
  -- that position back into the number.
  pub convert_to_count_index-convert_to_offset_index :
      (skipped : ℕ) (v : IsLog skipped) (count : ℕ)
      → mgr.log_start_info.segment_start_count ≤ count
      → count ≤ end_count skipped
      → (seg row : ℕ) × (convert_to_offset_index sizes mgr count ≡ ok (seg, row * 48))
        × (convert_to_count_index sizes mgr seg (row * 48) ≡ ok count)
        × (seg ≤ mgr.current_start)
  convert_to_count_index-convert_to_offset_index skipped v count from to =
      let p =
        place rotated_count start_index (count - base) skipped base (omega (arith, v.start_le))
          v.rotated v.counted v.in_first (omega (arith, from, to, v.counted)) in
      (
        start_index + p.over,
        p.row,
        goes_of skipped v count from p,
        counts_of skipped v count from p,
        omega (arith, p.over_le, v.start_le),
      )
