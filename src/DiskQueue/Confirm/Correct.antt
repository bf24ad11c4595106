-- ===== src/DiskQueue/Confirm/Correct.antt =====
-- A confirmation moves the confirmed position, or fails and leaves it.
use nsq.Base.{
  ℕ, ◌-◌, ◌≤◌, ◌<◌, ◌≡◌, inl, inr, refl, arith, Bool, true, false, ◌&&◌, ◌||◌, not, Option, none,
  some, ltb, leb, ◌==◌, if◌then◌else◌, Bool-cases, u64_mod, leb→le, ==_iff,
}
use nsq.Base.Bytes.{Outcome, ok, err, panic}
use nsq.DiskQueue.{Offset, great_than}
use nsq.DiskQueue.Step.{StepError, step_forward}
use nsq.DiskQueue.Confirm.{
  ConfirmError, confirm_size_invalid, confirm_cnt_invalid, is_exiting, DiskReader, update_depth,
  confirm_at, confirm_offset, internal_confirm, mark_sync, confirm_read,
}

-- The offsets lie in order, and are offsets in a file system.
pub record IsOrdered (d : DiskReader) : Type 0 where
  pub confirmed_le : d.confirmed_info.virtual_end ≤ d.read_info.virtual_end
  pub read_le : d.read_info.virtual_end ≤ d.end_info.virtual_end
  pub bound : d.end_info.virtual_end < u64_mod

-- updateDepth moves no offset of a reader in order.
pub update_depth-offset :
    (d : DiskReader)
    → d.confirmed_info.virtual_end ≤ d.end_info.virtual_end
    → d.end_info.virtual_end < u64_mod
    → (update_depth d).confirmed_info.virtual_end ≡ d.confirmed_info.virtual_end
unfolding update_depth
update_depth-offset d low bound =
    elim (Bool-cases (ltb d.end_info.end_offset.file_num d.confirmed_info.end_offset.file_num)) [
      | inl beyond ↦ rw beyond refl
      | inr before ↦ rw before (ground (arith, low, bound))
    ]

pub update_depth-same :
    (d : DiskReader)
    → ((update_depth d).read_info ≡ d.read_info) × ((update_depth d).end_info ≡ d.end_info)
unfolding update_depth
update_depth-same d =
    elim (Bool-cases (ltb d.end_info.end_offset.file_num d.confirmed_info.end_offset.file_num)) [
      | inl beyond ↦ rw beyond (refl, refl)
      | inr before ↦ rw before (refl, refl)
    ]

-- The ways that a confirmation up to `offset` can end.
pub data ConfirmsTo (offset : ℕ) (d : DiskReader) : DiskReader → Option ConfirmError → Type 0 where
  already : offset ≤ d.confirmed_info.virtual_end → ConfirmsTo offset d d none
  failed : (e : ConfirmError) → ConfirmsTo offset d d (some e)
  moved :
      (d' : DiskReader)
      → d.confirmed_info.virtual_end < offset
      → offset ≤ d.read_info.virtual_end
      → d'.confirmed_info.virtual_end ≡ offset
      → d'.read_info ≡ d.read_info
      → d'.end_info ≡ d.end_info
      → ConfirmsTo offset d d' none

confirm_at-ConfirmsTo :
    (offset cnt : ℕ) (found : Outcome StepError Offset) (d : DiskReader)
    → IsOrdered d
    → d.confirmed_info.virtual_end < offset
    → offset ≤ d.read_info.virtual_end
    → ConfirmsTo offset d (confirm_at offset cnt found d).0 (confirm_at offset cnt found d).1
unfolding confirm_at
confirm_at-ConfirmsTo offset cnt (err e) d o new low = failed confirm_size_invalid
confirm_at-ConfirmsTo offset cnt panic d o new low = failed confirm_size_invalid
confirm_at-ConfirmsTo offset cnt (ok p) d o new low =
    elim (Bool-cases (great_than p d.end_info.end_offset || ltb d.end_info.virtual_end offset)) [
      | inl out ↦ rw out (failed confirm_size_invalid)
      | inr fine ↦
          let d' = record d {
            confirmed_info = record { end_offset = p; virtual_end = offset; total_msg_cnt = cnt };
          } in
          let same = update_depth-same d' in
          rw fine (
            moved (update_depth d') new low
              (update_depth-offset d' (omega (arith, o.read_le)) o.bound) same.0 same.1)
    ]

module _ (size : ℕ → Option ℕ) where
  confirm_offset-ConfirmsTo :
      (offset cnt : ℕ) (d : DiskReader)
      → IsOrdered d
      → ConfirmsTo offset d
          (confirm_offset size offset cnt d).0
          (confirm_offset size offset cnt d).1
  unfolding confirm_offset
  confirm_offset-ConfirmsTo offset cnt0 d o =
      let r = d.read_info in
      let at_read = offset == r.virtual_end in
      let cnt = if at_read && cnt0 == 0 then r.total_msg_cnt else cnt0 in
      elim (Bool-cases (leb offset d.confirmed_info.virtual_end)) [
        | inl old ↦ rw old (already (leb→le offset d.confirmed_info.virtual_end old))
        | inr new ↦ elim (Bool-cases (ltb r.virtual_end offset)) [
          | inl far ↦ rw (new, far) (failed confirm_size_invalid)
          | inr near ↦ elim (Bool-cases (at_read && not (cnt == r.total_msg_cnt))) [
            | inl wrong ↦ rw (new, near, wrong) (failed confirm_cnt_invalid)
            | inr right ↦ elim (Bool-cases (cnt == 0 && not (offset == 0))) [
              | inl zero_cnt ↦ rw (new, near, right, zero_cnt) (failed confirm_cnt_invalid)
              | inr some_cnt ↦
                  rw (new, near, right, some_cnt)
                    (confirm_at-ConfirmsTo offset cnt
                      (step_forward size d.confirmed_info (offset - d.confirmed_info.virtual_end) r)
                      d o (ground arith) (ground arith))
            ]
          ]
        ]
      ]

  mark_sync-ConfirmsTo :
      (offset : ℕ) (d d' : DiskReader) (e : Option ConfirmError)
      → ConfirmsTo offset d d' e
      → ConfirmsTo offset d (mark_sync d.confirmed_info.virtual_end (d', e)).0 e
  mark_sync-ConfirmsTo offset d d' e (already old) =
      rw ((==_iff d.confirmed_info.virtual_end d.confirmed_info.virtual_end).1 refl) (already old)
  mark_sync-ConfirmsTo offset d d' e (failed x) =
      rw ((==_iff d.confirmed_info.virtual_end d.confirmed_info.virtual_end).1 refl) (failed x)
  mark_sync-ConfirmsTo offset d d' e (moved d'' new low at same same') =
      moved _ new low at same same'

  -- ConfirmRead on a reader whose offsets are in order. It does nothing for an offset that is
  -- confirmed already; it fails and changes nothing; or the confirmed offset becomes the one asked
  -- for, which was read before, and the read position and the queue's end stay. In each case
  -- the offsets are in order afterwards.
  pub confirm_read_correct :
      (offset cnt : ℕ) (d : DiskReader)
      → IsOrdered d
      → ConfirmsTo offset d
          (confirm_read size (some offset) cnt d).0
          (confirm_read size (some offset) cnt d).1
        × IsOrdered (confirm_read size (some offset) cnt d).0
  unfolding confirm_read internal_confirm
  confirm_read_correct offset cnt d o = by_exit d.exit_flag
    where
      ordered :
          (d' : DiskReader) (e : Option ConfirmError) → ConfirmsTo offset d d' e → IsOrdered d'
      ordered d' e (already old) = o
      ordered d' e (failed x) = o
      ordered d' e (moved d'' new low at same same') = record {
        confirmed_le = rw (at, same) low;
        read_le = rw (same, same') o.read_le;
        bound = rw same' o.bound;
      }

      call : DiskReader × Option ConfirmError
      call = confirm_offset size offset cnt d

      ends : ConfirmsTo offset d (mark_sync d.confirmed_info.virtual_end call).0 call.1
      ends = mark_sync-ConfirmsTo offset d call.0 call.1 (confirm_offset-ConfirmsTo offset cnt d o)

      by_exit :
          (b : Bool)
          → (let r =
                if b then (d, some is_exiting) else mark_sync d.confirmed_info.virtual_end call in
              ConfirmsTo offset d r.0 r.1 × IsOrdered r.0)
      by_exit true = (failed is_exiting, o)
      by_exit false = (ends, ordered _ _ ends)
