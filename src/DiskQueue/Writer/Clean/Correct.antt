-- ===== src/DiskQueue/Writer/Clean/Correct.antt =====
-- After the removal of all data the log is empty.
use nsq.Base.{
  ℕ, ◌+◌, ◌-◌, ◌≤◌, ◌<◌, ◌≡◌, refl, sym, subst, arith, false, Option, none, some, [], leb,
  if◌then◌else◌,
}
use nsq.DiskQueue.{EndInfo}
use nsq.DiskQueue.Writer.{DiskWriter, WriteError, exiting}
use nsq.DiskQueue.Writer.Log.{Files, span, log_of, IsLogOf, log, IsLog}
use nsq.DiskQueue.Writer.Clean.{
  clean_old_data, delete_all_files, empty, reset_write_with_queue_start,
}

-- With no file from a start on, the log from there is empty.
empty-IsLogOf :
    (f : Files) (s : EndInfo)
    → s.end_offset.pos ≡ 0
    → ((k : ℕ) → s.end_offset.file_num ≤ k → f k ≡ none)
    → IsLogOf f s s × (log_of f s s ≡ [])
unfolding span
empty-IsLogOf f s first gone =
    let n = s.end_offset.file_num in
    let none_before : n - n ≡ 0 = omega arith in
    let here : f n ≡ none = gone n (omega arith) in
    let nothing : log_of f s s ≡ [] = rw (none_before, here) refl in
    (
      record {
        ordered = omega arith;
        exact = rw (here, first) refl;
        placed = rw nothing (omega arith);
        present = λ k low high. absurd (omega arith);
        ahead = λ k past. gone k (omega arith);
      },
      nothing,
    )

clean-gone :
    (d : DiskWriter)
    → IsLog d
    → (k : ℕ) → d.write_end.end_offset.file_num < k
    → (clean_old_data d).files k ≡ none
unfolding clean_old_data
clean-gone d v k past =
    let n = d.write_end.end_offset.file_num in
    let e : leb k n ≡ false = ground arith in rw e (v.ahead k past)

-- Empty and ResetWriteWithQueueStart, where the data files are a log. Unless the writer is exiting,
-- Empty leaves a log with no bytes that starts at the old write end's offset and in the next
-- file; ResetWriteWithQueueStart leaves one that starts at the offset given.
pub clean_correct :
    (offset cnt : ℕ) (d : DiskWriter)
    → IsLog d
    → d.exit_flag ≡ false
    → (let d' = (empty d).0 in
        IsLog d'
        × (log d' ≡ [])
        × (d'.queue_start.virtual_end ≡ d.write_end.virtual_end)
        × (d'.write_end.virtual_end ≡ d.write_end.virtual_end))
      × (let d' = reset_write_with_queue_start offset cnt d in
          IsLog d'
          × (log d' ≡ [])
          × (d'.write_end.virtual_end ≡ offset)
          × (d'.write_end.total_msg_cnt ≡ cnt))
unfolding empty delete_all_files reset_write_with_queue_start clean_old_data
clean_correct offset cnt d v on =
    let d1 = clean_old_data d in
    let n = d.write_end.end_offset.file_num in
    let s : EndInfo = record {
      end_offset = record { file_num = n + 1 + 1; pos = 0 };
      virtual_end = offset;
      total_msg_cnt = cnt;
    } in
    let (v1, none_left) =
      empty-IsLogOf d1.files d1.queue_start refl (λ k low. clean-gone d v k (omega arith)) in
    let (v2, none_left') =
      empty-IsLogOf d1.files s refl (λ k low. clean-gone d v k (omega arith)) in
    (
      subst
          (λ b.
            let q : DiskWriter × Option WriteError =
              if b then (d, some exiting) else (delete_all_files false d, none) in
            IsLog q.0
            × (log q.0 ≡ [])
            × (q.0.queue_start.virtual_end ≡ d.write_end.virtual_end)
            × (q.0.write_end.virtual_end ≡ d.write_end.virtual_end))
          (sym on) (v1, none_left, refl, refl),
      (v2, none_left', refl, refl),
    )
