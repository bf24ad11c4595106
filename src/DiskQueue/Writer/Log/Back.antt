-- ===== src/DiskQueue/Writer/Log/Back.antt =====
-- RollbackWriteV2 and ResetWriteEndV2 cut the log.
use nsq.Base.{
  ℕ, ◌+◌, ◌-◌, ◌≤◌, ◌≡◌, inl, inr, refl, ◌∙◌, arith, Bool, true, false, ◌&&◌, ◌||◌, not, Option,
  none, some, take, length-append, ltb, if◌then◌else◌, Bool-cases,
}
use nsq.DiskQueue.Writer.{
  DiskWriter, content, sync_if_needed, sync, SyncEnd, synced, not_flushed, not_persisted,
  flush_lost, WriteError, invalid_offset, back_to, rollback_write_v2,
}
use nsq.DiskQueue.Writer.Log.{before, log, IsLog}
use nsq.DiskQueue.Writer.Log.Cut.{cut-IsLogOf}

-- The ways that a cut of the log at `offset` can end: it is refused and the log and the write end
-- stay, or the log is what lies before the offset, which is then the write end's.
pub data CutsTo (offset : ℕ) (allowed : Bool) (d : DiskWriter)
    : DiskWriter → Option WriteError → Type 0 where
  refused :
      (d' : DiskWriter) (e : WriteError)
      → allowed ≡ false
      → IsLog d'
      → log d' ≡ log d
      → d'.write_end ≡ d.write_end
      → CutsTo offset allowed d d' (some e)
  cut :
      (d' : DiskWriter)
      → allowed ≡ true
      → IsLog d'
      → log d' ≡ take (offset - d.queue_start.virtual_end) (log d)
      → d'.write_end.virtual_end ≡ offset
      → CutsTo offset allowed d d' none

-- A flush of the buffer fails.
abbrev pub is_lost : SyncEnd → Bool
is_lost synced = false
is_lost not_flushed = false
is_lost not_persisted = false
is_lost (flush_lost arrived s) = true

pub sync_if_needed-same :
    (t : SyncEnd) (d : DiskWriter)
    → is_lost t ≡ false
    → ((sync_if_needed t d).files ≡ d.files)
      × ((sync_if_needed t d).queue_start ≡ d.queue_start)
      × ((sync_if_needed t d).write_end ≡ d.write_end)
unfolding sync
sync_if_needed-same t d whole = by_need t d.need_sync whole
  where
    by_need :
        (t : SyncEnd) (b : Bool)
        → is_lost t ≡ false
        → (let d' = if b then (sync t d).0 else d in
            (d'.files ≡ d.files) × (d'.queue_start ≡ d.queue_start) × (d'.write_end ≡ d.write_end))
    by_need t false h = (refl, refl, refl)
    by_need synced true h = (refl, refl, refl)
    by_need not_flushed true h = (refl, refl, refl)
    by_need not_persisted true h = (refl, refl, refl)
    by_need (flush_lost arrived s) true h = absurd (cc h)

-- A sync changes nothing that the log depends on.
pub sync_if_needed-CutsTo :
    (offset : ℕ) (allowed : Bool) (t : SyncEnd) (d d' : DiskWriter) (e : Option WriteError)
    → is_lost t ≡ false
    → CutsTo offset allowed (sync_if_needed t d) d' e
    → CutsTo offset allowed d d' e
sync_if_needed-CutsTo offset allowed t d d' e whole (refused d'' x stop v same end) =
    let (f, s, w) = sync_if_needed-same t d whole in
    refused d'' x stop v (same ∙ rw (f, s, w) refl) (end ∙ w)
sync_if_needed-CutsTo offset allowed t d d' e whole (cut d'' on v same end) =
    let (f, s, w) = sync_if_needed-same t d whole in cut d'' on v (same ∙ rw (f, s, w) refl) end

pub sync_if_needed-IsLog :
    (t : SyncEnd) (d : DiskWriter) → is_lost t ≡ false → IsLog d → IsLog (sync_if_needed t d)
sync_if_needed-IsLog t d whole v = let (f, s, w) = sync_if_needed-same t d whole in rw (f, s, w) v

back_to-cut :
    (offset diff_cnt : ℕ) (d : DiskWriter)
    → IsLog d
    → d.queue_start.virtual_end ≤ offset
    → offset ≤ d.write_end.virtual_end
    → d.write_end.virtual_end ≤ offset + d.write_end.end_offset.pos
    → (let d' = back_to offset diff_cnt d in
        IsLog d'
        × (log d' ≡ take (offset - d.queue_start.virtual_end) (log d))
        × (d'.write_end.virtual_end ≡ offset))
unfolding back_to
back_to-cut offset diff_cnt d v low high near =
    let s = d.queue_start in
    let w = d.write_end in
    let n = w.end_offset.file_num in
    let p = w.end_offset.pos - (w.virtual_end - offset) in
    let pre = before d.files s w in
    let whole = length-append pre (content (d.files n)) in
    let (v', same) =
      cut-IsLogOf d.files s w v n p offset (w.total_msg_cnt - diff_cnt) v.ordered (omega arith)
        (omega (arith, v.exact)) (omega (arith, v.placed, v.exact, whole)) in
    (v', same, refl)

-- What RollbackWriteV2 asks for.
abbrev pub can_roll_back : ℕ → ℕ → DiskWriter → Bool
can_roll_back offset diff_cnt d =
    let w = d.write_end in
    not (
      ltb offset d.queue_start.virtual_end
      || ltb w.total_msg_cnt (d.queue_start.total_msg_cnt + diff_cnt))
    && (not (ltb w.virtual_end offset) && not (ltb (offset + w.end_offset.pos) w.virtual_end))

-- RollbackWriteV2, where the data files, with what is in the buffer, are a log, the write end is its
-- end, and no flush of the buffer fails. It is refused, and the
-- log and the write end stay, for an offset before the start of the queue, beyond the write end,
-- or before the file of the write end, and for a count that leaves fewer messages than lie
-- before the start. Otherwise the log is cut at the offset, which is then the write end's. In each
-- case the files are a log afterwards.
pub rollback_write_v2_correct :
    (offset diff_cnt : ℕ) (t : SyncEnd) (d : DiskWriter)
    → IsLog d
    → is_lost t ≡ false
    → (let q = rollback_write_v2 offset diff_cnt t d in
        CutsTo offset (can_roll_back offset diff_cnt d) d q.0 q.1)
unfolding rollback_write_v2
rollback_write_v2_correct offset diff_cnt t d v whole =
    let w = d.write_end in
    let d1 = sync_if_needed t d in
    let (f, s, e) = sync_if_needed-same t d whole in
    let v1 = sync_if_needed-IsLog t d whole v in
    let early =
      ltb offset d.queue_start.virtual_end
      || ltb w.total_msg_cnt (d.queue_start.total_msg_cnt + diff_cnt) in
    elim (Bool-cases early) [
      | inl wrong ↦ rw wrong (refused d invalid_offset refl v refl refl)
      | inr late ↦ elim (Bool-cases (ltb w.virtual_end offset)) [
        | inl beyond ↦
            rw (late, beyond)
              (sync_if_needed-CutsTo offset false t d d1 (some invalid_offset) whole
                (refused d1 invalid_offset refl v1 refl refl))
        | inr inside ↦ elim (Bool-cases (ltb (offset + w.end_offset.pos) w.virtual_end)) [
          | inl across ↦
              rw (late, inside, across)
                (sync_if_needed-CutsTo offset false t d d1 (some invalid_offset) whole
                  (refused d1 invalid_offset refl v1 refl refl))
          | inr near ↦
              let (v', same, at) =
                back_to-cut offset diff_cnt d1 v1 (rw s (ground arith)) (rw e (ground arith))
                  (rw e (ground arith)) in
              rw (late, inside, near)
                (sync_if_needed-CutsTo offset true t d (back_to offset diff_cnt d1) none whole
                  (cut (back_to offset diff_cnt d1) refl v' same at))
        ]
      ]
    ]
