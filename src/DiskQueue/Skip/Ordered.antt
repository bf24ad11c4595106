-- ===== src/DiskQueue/Skip/Ordered.antt =====
-- The moves of the read position leave the offsets in order.
use nsq.Base.{
  ℕ, ◌≤◌, ◌<◌, ◌≡◌, ◌⊎◌, inl, inr, refl, sym, ap, ◌∙◌, arith, Bool, true, false, ◌&&◌, ◌||◌, not,
  Option, none, some, ltb, ◌==◌, if◌then◌else◌, Bool-cases, u64_mod, ==_iff,
}
use nsq.Base.Bytes.{Outcome, ok, err, panic}
use nsq.DiskQueue.{Offset, EndInfo, great_than}
use nsq.DiskQueue.Confirm.{DiskReader, update_depth, mark_sync}
use nsq.DiskQueue.Confirm.Correct.{IsOrdered, update_depth-offset, update_depth-same}
use nsq.DiskQueue.Skip.{
  SkipError, skip_exiting, skip_invalid, MetaRead, sync_cnt, land, land_on, find_position,
  internal_skip_to, unless_exiting,
}

pub update_depth-IsOrdered : (d : DiskReader) → IsOrdered d → IsOrdered (update_depth d)
update_depth-IsOrdered d o =
    let same = update_depth-same d in
    let low : d.confirmed_info.virtual_end ≤ d.end_info.virtual_end =
      omega (arith, o.confirmed_le, o.read_le) in
    record {
      confirmed_le = rw (update_depth-offset d low o.bound, same.0) o.confirmed_le;
      read_le = rw (same.0, same.1) o.read_le;
      bound = rw same.1 o.bound;
    }

-- The ways that a move to `voffset` can end: it fails and changes nothing, or the read and the
-- confirmed offset are both what was asked for, or the end of the queue.
pub data SkipsTo (voffset : ℕ) (back : Bool) (d : DiskReader)
    : DiskReader → Option SkipError → Type 0 where
  refused : (e : SkipError) → SkipsTo voffset back d d (some e)
  moved :
      (d' : DiskReader)
      → (d'.read_info.virtual_end ≡ voffset) ⊎ (d'.read_info.virtual_end ≡ d.end_info.virtual_end)
      → d'.confirmed_info.virtual_end ≡ d'.read_info.virtual_end
      → d'.end_info ≡ d.end_info
      → voffset ≤ d.end_info.virtual_end
      → (back ≡ false → d.confirmed_info.virtual_end ≤ voffset)
      → SkipsTo voffset back d d' none

pub SkipsTo-IsOrdered :
    (voffset : ℕ) (back : Bool) (d d' : DiskReader) (e : Option SkipError)
    → IsOrdered d
    → SkipsTo voffset back d d' e
    → IsOrdered d'
SkipsTo-IsOrdered voffset back d d' e o (refused x) = o
SkipsTo-IsOrdered voffset back d d' e o (moved d'' at same end low fwd) = record {
  confirmed_le = omega (arith, same);
  read_le = rw end (elim at [ inl here ↦ omega (arith, here) | inr last ↦ omega (arith, last) ]);
  bound = rw end o.bound;
}

-- Both positions are set to one place.
set_both :
    (r : EndInfo) (d : DiskReader)
    → r.virtual_end ≤ d.end_info.virtual_end
    → d.end_info.virtual_end < u64_mod
    → (let d' = update_depth (record d { read_info = r; confirmed_info = r }) in
        (d'.read_info.virtual_end ≡ r.virtual_end)
        × (d'.confirmed_info.virtual_end ≡ d'.read_info.virtual_end)
        × (d'.end_info ≡ d.end_info))
set_both r d low bound =
    let d' = record d { read_info = r; confirmed_info = r } in
    let same = update_depth-same d' in
    let at : (update_depth d').read_info.virtual_end ≡ r.virtual_end =
      ap (λ (x : EndInfo). x.virtual_end) same.0 in
    (at, update_depth-offset d' low bound ∙ sym at, same.1)

land-SkipsTo :
    (o : Offset) (voffset cnt : ℕ) (back : Bool) (d : DiskReader)
    → IsOrdered d
    → voffset ≤ d.end_info.virtual_end
    → (back ≡ false → d.confirmed_info.virtual_end ≤ voffset)
    → SkipsTo voffset back d (land o voffset cnt d) none
unfolding land
land-SkipsTo o voffset cnt back d v low fwd = choose (great_than o d.end_info.end_offset)
  where
    r : EndInfo
    r = record { end_offset = o; virtual_end = voffset; total_msg_cnt = cnt }

    choose :
        (b : Bool)
        → SkipsTo voffset back d
            (update_depth (record d {
              read_info = if b then d.end_info else r;
              confirmed_info = if b then d.end_info else r;
            }))
            none
    choose true =
        let (at, same, end) = set_both d.end_info d (omega arith) v.bound in
        moved _ (inr at) same end low fwd
    choose false =
        let (at, same, end) = set_both r d low v.bound in moved _ (inl at) same end low fwd

land_on-SkipsTo :
    (found : Outcome SkipError (Offset × ℕ)) (voffset : ℕ) (back : Bool) (d : DiskReader)
    → IsOrdered d
    → voffset ≤ d.end_info.virtual_end
    → (back ≡ false → d.confirmed_info.virtual_end ≤ voffset)
    → SkipsTo voffset back d (land_on found voffset d).0 (land_on found voffset d).1
land_on-SkipsTo (ok (o, cnt)) voffset back d v low fwd = land-SkipsTo o voffset cnt back d v low fwd
land_on-SkipsTo (err e) voffset back d v low fwd = refused e
land_on-SkipsTo panic voffset back d v low fwd = refused skip_invalid

pub unless_exiting-SkipsTo :
    (voffset : ℕ) (back : Bool) (op : DiskReader → DiskReader × Option SkipError) (d : DiskReader)
    → SkipsTo voffset back d (op d).0 (op d).1
    → (let q = unless_exiting op d in SkipsTo voffset back d q.0 q.1)
unless_exiting-SkipsTo voffset back op d ends = by_exit d.exit_flag
  where
    old : ℕ
    old = d.confirmed_info.virtual_end

    synced :
        (d' : DiskReader) (e : Option SkipError)
        → SkipsTo voffset back d d' e
        → SkipsTo voffset back d (mark_sync old (d', e)).0 e
    synced d' e (refused x) = rw ((==_iff old old).1 refl) (refused x)
    synced d' e (moved d'' at same end low fwd) = moved _ at same end low fwd

    by_exit :
        (b : Bool)
        → (let q = if b then (d, some skip_exiting) else mark_sync old (op d) in
            SkipsTo voffset back d q.0 q.1)
    by_exit true = refused skip_exiting
    by_exit false = synced _ _ ends

module _ (size : ℕ → Option ℕ) (gone : Bool) (meta : ℕ → MetaRead) where
  search_end :
      (voffset cnt : ℕ) (back : Bool) (d : DiskReader)
      → IsOrdered d
      → (back ≡ false → d.confirmed_info.virtual_end ≤ voffset)
      → (let q = land_on (find_position size gone meta voffset cnt d) voffset d in
          SkipsTo voffset back d q.0 q.1)
  unfolding find_position
  search_end voffset cnt back d v fwd =
      let e = d.end_info in
      elim (Bool-cases (ltb e.virtual_end voffset || ltb e.total_msg_cnt cnt)) [
        | inl out ↦ rw out (refused skip_invalid)
        | inr inside ↦
            land_on-SkipsTo (find_position size gone meta voffset cnt d) voffset back d v
              (ground arith) fwd
      ]

  -- internalSkipTo on a reader whose offsets are in order.
  pub internal_skip_to-SkipsTo :
      (voffset cnt : ℕ) (back : Bool) (d : DiskReader)
      → IsOrdered d
      → (let q = internal_skip_to size gone meta voffset cnt back d in
          SkipsTo voffset back d q.0 q.1)
  unfolding internal_skip_to
  internal_skip_to-SkipsTo voffset cnt back d v =
      let c = d.confirmed_info in
      let r = d.read_info in
      elim (Bool-cases (voffset == r.virtual_end)) [
        | inl at_read ↦
            let (at, same, end) = set_both (sync_cnt cnt r) d v.read_le v.bound in
            let here : voffset ≡ r.virtual_end = ground arith in
            rw at_read (
              moved _ (inl (at ∙ sym here)) same end (omega (arith, v.read_le))
                (λ h. omega (arith, v.confirmed_le)))
        | inr off_read ↦ elim (Bool-cases (voffset == c.virtual_end)) [
          | inl at_confirmed ↦
              let low : c.virtual_end ≤ d.end_info.virtual_end =
                omega (arith, v.read_le, v.confirmed_le) in
              let (at, same, end) = set_both (sync_cnt cnt c) d low v.bound in
              let here : voffset ≡ c.virtual_end = ground arith in
              rw (off_read, at_confirmed)
                (moved _ (inl (at ∙ sym here)) same end (omega arith) (λ h. omega arith))
          | inr off_confirmed ↦ elim (Bool-cases (ltb voffset c.virtual_end && not back)) [
            | inl before ↦ rw (off_read, off_confirmed, before) (refused skip_invalid)
            | inr after ↦
                rw (off_read, off_confirmed, after)
                  (search_end voffset cnt back d v (λ h. ground arith))
          ]
        ]
      ]
