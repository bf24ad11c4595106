-- ===== src/DiskQueue/Moves.antt =====
-- A confirmation of what was read succeeds, and finds the position in the files.
use nsq.Base.{
  ℕ, ◌-◌, ◌≤◌, ◌<◌, ◌≡◌, ◌≢◌, inl, inr, refl, sym, ap, subst, ◌∙◌, arith, Bool, true, false, ◌&&◌,
  not, Option, none, some, ltb, leb, ◌==◌, if◌then◌else◌, Bool-cases, lt→leb_false, le→ltb_false,
}
use nsq.DiskQueue.{Offset, EndInfo, great_than}
use nsq.DiskQueue.Step.Correct.{virtual, IsLaidOut, IsBefore, step_forward_correct}
use nsq.DiskQueue.Confirm.{
  is_exiting, DiskReader, difference, update_depth, confirm_at, confirm_offset, internal_confirm,
  mark_sync, confirm_read,
}
use nsq.DiskQueue.Confirm.Correct.{IsOrdered, update_depth-offset}

module _ (size : ℕ → Option ℕ) (start : ℕ → ℕ) where
  -- The position lies at its offset.
  abbrev pub IsPlaced : EndInfo → Type 0
  IsPlaced e = virtual size start e.end_offset ≡ e.virtual_end

  -- Every position lies at its offset, the confirmed one in no later file than the read one, and
  -- none beyond the next; and the files up to the read position are readable.
  pub record IsPlacedReader (d : DiskReader) : Type 0 where
    pub ordered : IsOrdered d
    pub confirmed : IsPlaced d.confirmed_info
    pub read : IsPlaced d.read_info
    pub end : IsPlaced d.end_info
    pub before_read : IsBefore size start d.confirmed_info.end_offset d.read_info.end_offset
    pub before_end : IsBefore size start d.read_info.end_offset d.end_info.end_offset
    pub laid : IsLaidOut size start d.read_info.end_offset

  IsBefore-trans :
      (a b c : Offset) → IsBefore size start a b → IsBefore size start b c → IsBefore size start a c
  unfolding great_than
  IsBefore-trans a b c p q = ground arith

  file_le : (a b : Offset) → IsBefore size start a b → a.file_num ≤ b.file_num
  unfolding great_than
  file_le a b p = ground arith

  update_depth-IsPlaced :
      (d : DiskReader)
      → IsPlaced d.confirmed_info
      → IsPlaced d.end_info
      → IsPlaced (update_depth d).confirmed_info
  unfolding update_depth
  update_depth-IsPlaced d c e =
      elim (Bool-cases (ltb d.end_info.end_offset.file_num d.confirmed_info.end_offset.file_num)) [
        | inl beyond ↦ rw beyond c
        | inr before ↦ rw before (
            choose (
              difference d.end_info.virtual_end d.confirmed_info.virtual_end == 0
              && not (difference d.end_info.total_msg_cnt d.confirmed_info.total_msg_cnt == 0)))
      ]
    where
      choose : (b : Bool) → IsPlaced (if b then d.end_info else d.confirmed_info)
      choose true = e
      choose false = c

  -- ConfirmRead, while the queue is not exiting, where every position lies at its offset and the files
  -- up to the read position are readable: for an offset that is beyond the confirmed one and was
  -- read, with a count that is not zero and is the read count if all that was read is confirmed, it
  -- returns no error, the confirmed offset becomes the one asked for, and the confirmed
  -- position in the files lies at it.
  pub confirm_read_moves :
      (offset cnt : ℕ) (d : DiskReader)
      → IsPlacedReader d
      → d.exit_flag ≡ false
      → d.confirmed_info.virtual_end < offset
      → offset ≤ d.read_info.virtual_end
      → cnt ≢ 0
      → (offset ≡ d.read_info.virtual_end → cnt ≡ d.read_info.total_msg_cnt)
      → ((confirm_read size (some offset) cnt d).1 ≡ none)
        × ((confirm_read size (some offset) cnt d).0.confirmed_info.virtual_end ≡ offset)
        × (virtual size start (confirm_read size (some offset) cnt d).0.confirmed_info.end_offset
            ≡ offset)
  unfolding confirm_read internal_confirm confirm_offset confirm_at
  confirm_read_moves offset cnt d v on new low counted at_end =
      let c = d.confirmed_info in
      let r = d.read_info in
      let diff = offset - c.virtual_end in
      let (o, run, at, before) =
        step_forward_correct size start c r diff v.laid
          (file_le c.end_offset r.end_offset v.before_read) v.before_read v.confirmed v.read
          (omega arith) in
      let d' = record d {
        confirmed_info = record { end_offset = o; virtual_end = offset; total_msg_cnt = cnt };
      } in
      let late : leb offset c.virtual_end ≡ false = lt→leb_false offset c.virtual_end new in
      let near : ltb r.virtual_end offset ≡ false = le→ltb_false r.virtual_end offset low in
      let given : (cnt == 0) ≡ false = ground arith in
      let right : ((offset == r.virtual_end) && not (cnt == r.total_msg_cnt)) ≡ false =
        ground (arith, at_end) in
      let in_file : great_than o d.end_info.end_offset ≡ false =
        IsBefore-trans o r.end_offset d.end_info.end_offset before v.before_end in
      let in_end : ltb d.end_info.virtual_end offset ≡ false = ground (arith, v.ordered.read_le) in
      let same_cnt : (if (offset == r.virtual_end) && (cnt == 0) then r.total_msg_cnt else cnt)
          ≡ cnt =
        ground arith in
      let placed = update_depth-IsPlaced d' (omega arith) v.end in
      let offset' = update_depth-offset d' (omega (arith, v.ordered.read_le)) v.ordered.bound in
      let inner : confirm_offset size offset cnt d ≡ (update_depth d', none) =
        rw (late, near, same_cnt, right, given, run, in_file, in_end) refl in
      let whole : confirm_read size (some offset) cnt d
          ≡ mark_sync c.virtual_end (update_depth d', none) =
        ap
          (λ b.
            if b
            then (d, some is_exiting)
            else mark_sync c.virtual_end (confirm_offset size offset cnt d))
          on
        ∙ ap (mark_sync c.virtual_end) inner in
      subst
        (λ x.
          (x.1 ≡ none)
          × (x.0.confirmed_info.virtual_end ≡ offset)
          × (virtual size start x.0.confirmed_info.end_offset ≡ offset))
        (sym whole) (refl, offset', placed ∙ offset')
