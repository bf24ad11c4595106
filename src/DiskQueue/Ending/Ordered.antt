-- ===== src/DiskQueue/Ending/Ordered.antt =====
-- A new end of the queue leaves the offsets in order.
use nsq.Base.{
  ◌≤◌, ◌<◌, ◌≡◌, inl, inr, refl, arith, Bool, true, false, ◌&&◌, ◌||◌, Option, none, some, ltb,
  ◌==◌, if◌then◌else◌, Bool-cases, u64_mod,
}
use nsq.DiskQueue.{EndInfo, great_than}
use nsq.DiskQueue.Confirm.{DiskReader}
use nsq.DiskQueue.Confirm.Correct.{IsOrdered}
use nsq.DiskQueue.Skip.Ordered.{update_depth-IsOrdered}
use nsq.DiskQueue.Ending.{take_end, internal_update_end, update_queue_end}

-- The confirmed position is moved back to the read one, if it is past that.
at_most_read :
    (r c : EndInfo) (b : Bool)
    → (ltb r.virtual_end c.virtual_end ≡ true → b ≡ true)
    → (if b then r else c).virtual_end ≤ r.virtual_end
at_most_read r c true past = omega arith
at_most_read r c false past = elim (Bool-cases (ltb r.virtual_end c.virtual_end)) [
  | inl beyond ↦ absurd (cc (past beyond))
  | inr before ↦ ground arith
]

take_end-IsOrdered :
    (older : Bool) (end : EndInfo) (d : DiskReader)
    → end.virtual_end < u64_mod
    → (older ≡ false → d.read_info.virtual_end ≤ end.virtual_end)
    → IsOrdered (take_end older end d)
unfolding take_end
take_end-IsOrdered older end d bound low = update_depth-IsOrdered _ (by_age older low)
  where
    c : EndInfo
    c = d.confirmed_info

    past : EndInfo → Bool
    past r = great_than c.end_offset r.end_offset || ltb r.virtual_end c.virtual_end

    is_past : (r : EndInfo) → ltb r.virtual_end c.virtual_end ≡ true → past r ≡ true
    is_past r h = elim (Bool-cases (great_than c.end_offset r.end_offset)) [
      | inl g ↦ rw g refl
      | inr g ↦ rw (g, h) refl
    ]

    by_age :
        (b : Bool)
        → (b ≡ false → d.read_info.virtual_end ≤ end.virtual_end)
        → (let r = if b then end else d.read_info in
            let c' = if past r then r else c in
            IsOrdered (record d {
              read_info = r;
              confirmed_info = c';
              waiting_more_data =
                  if ltb c'.virtual_end end.virtual_end then false else d.waiting_more_data;
              end_info = end;
              need_sync = true;
            }))
    by_age true low = record {
      confirmed_le = at_most_read end c (past end) (is_past end);
      read_le = omega arith;
      bound = bound;
    }
    by_age false low = record {
      confirmed_le = at_most_read d.read_info c (past d.read_info) (is_past d.read_info);
      read_le = low refl;
      bound = bound;
    }

internal_update_end-IsOrdered :
    (end : EndInfo) (force_reload : Bool) (d : DiskReader)
    → end.virtual_end < u64_mod
    → IsOrdered d
    → IsOrdered (internal_update_end end force_reload d).0
unfolding internal_update_end
internal_update_end-IsOrdered end force_reload d bound v =
    let old = d.end_info in
    let r = d.read_info in
    let same = end.virtual_end == old.virtual_end && end.total_msg_cnt == old.total_msg_cnt in
    let older = great_than r.end_offset end.end_offset || ltb end.virtual_end r.virtual_end in
    elim (Bool-cases same) [
      | inl unchanged ↦ rw unchanged v
      | inr changed ↦ elim (Bool-cases older) [
        | inl back ↦ elim (Bool-cases force_reload) [
          | inl forced ↦
              rw (changed, back, forced) (take_end-IsOrdered true end d bound (λ h. absurd (cc h)))
          | inr kept ↦
              rw (changed, back, kept)
                (record { confirmed_le = v.confirmed_le; read_le = v.read_le; bound = v.bound })
        ]
        | inr on ↦ rw (changed, on) (take_end-IsOrdered false end d bound (λ h. ground arith))
      ]
    ]

-- UpdateQueueEnd, for a new end that is an offset in a file system, leaves the offsets in order.
pub update_queue_end-IsOrdered :
    (end : Option EndInfo) (force_reload : Bool) (d : DiskReader)
    → ((e : EndInfo) → end ≡ some e → e.virtual_end < u64_mod)
    → IsOrdered d
    → IsOrdered (update_queue_end end force_reload d).0
unfolding update_queue_end
update_queue_end-IsOrdered none force_reload d bound v = v
update_queue_end-IsOrdered (some end) force_reload d bound v = by_exit d.exit_flag
  where
    call : DiskReader × Bool
    call = internal_update_end end force_reload d

    by_exit :
        (b : Bool)
        → (let q : DiskReader × Option Bool = if b then (d, none) else (call.0, some call.1) in
            IsOrdered q.0)
    by_exit true = v
    by_exit false = internal_update_end-IsOrdered end force_reload d (bound end refl) v
