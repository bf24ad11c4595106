-- ===== src/DiskQueue/Writer/Log/Append.antt =====
-- What is put is appended to the log; the parts of PutV2 and PutRawV2.
use nsq.Base.{
  ℕ, ◌+◌, ◌-◌, ◌≤◌, ◌≡◌, inl, inr, refl, sym, ap, arith, false, none, some, List, ◌++◌, length,
  length-append, append_assoc, append-nil, ltb, Bool-cases,
}
use nsq.DiskQueue.{EndInfo}
use nsq.DiskQueue.Writer.{
  DiskWriter, content, with_file, open_file, write_at, append_bytes, to_next_file, roll, sync,
  SyncEnd, flush_lost, synced, not_flushed, not_persisted,
}
use nsq.DiskQueue.Writer.Log.Back.{is_lost}
use nsq.DiskQueue.Writer.Log.{
  Files, span, before, log_of, IsLogOf, log, IsLog, span-last, take_all, drop_all, with_file_here,
  with_file_other, before-with_file, pad_inside,
}

-- The last file gets its bytes, and the end moves to the end of them.
put-IsLogOf :
    (f : Files) (s w : EndInfo) (old bytes : List ℕ) (cnt : ℕ)
    → IsLogOf f s w
    → content (f w.end_offset.file_num) ≡ old
    → (let n = w.end_offset.file_num in
        let f' = with_file f n (some (old ++ bytes)) in
        let w' : EndInfo = record {
          end_offset = record { file_num = n; pos = w.end_offset.pos + length bytes };
          virtual_end = w.virtual_end + length bytes;
          total_msg_cnt = cnt;
        } in
        IsLogOf f' s w' × (log_of f' s w' ≡ log_of f s w ++ bytes))
put-IsLogOf f s w old bytes cnt v e =
    let n = w.end_offset.file_num in
    let f' = with_file f n (some (old ++ bytes)) in
    let here : f' n ≡ some (old ++ bytes) = with_file_here f n (some (old ++ bytes)) in
    let same : before f' s w ≡ before f s w =
      before-with_file f s w (some (old ++ bytes)) v.ordered in
    let joined : before f' s w ++ content (f' n) ≡ (before f s w ++ content (f n)) ++ bytes =
      rw (here, same, e) (sym (append_assoc (before f s w) old bytes)) in
    (
      record {
        ordered = v.ordered;
        exact = rw here (omega (arith, length-append old bytes, v.exact, ap length e));
        placed = rw joined (omega (arith, v.placed, length-append (log_of f s w) bytes));
        present = λ k low high.
            let other : f' k ≡ f k =
              with_file_other f n k (some (old ++ bytes)) (λ q. omega arith) in
            rw other (v.present k low high);
        ahead = λ k past.
            let other : f' k ≡ f k =
              with_file_other f n k (some (old ++ bytes)) (λ q. omega arith) in
            rw other (v.ahead k past);
      },
      joined,
    )

-- At the end of the last file, the bytes are written behind it.
pub write_at_end :
    (bytes : List ℕ) (d : DiskWriter)
    → IsLog d
    → (let old = content (d.files d.write_end.end_offset.file_num) in
        write_at d.write_end.end_offset.pos bytes old ≡ old ++ bytes)
write_at_end bytes d v =
    let p = d.write_end.end_offset.pos in
    let old = content (d.files d.write_end.end_offset.file_num) in
    rw
      (
        pad_inside p old (omega (arith, v.exact)),
        take_all old p (omega (arith, v.exact)),
        drop_all old (p + length bytes) (omega (arith, v.exact)),
        append-nil bytes,
      )
      refl

pub append_bytes-IsLog :
    (bytes : List ℕ) (cnt : ℕ) (d : DiskWriter)
    → IsLog d
    → IsLog (append_bytes bytes cnt d) × (log (append_bytes bytes cnt d) ≡ log d ++ bytes)
unfolding append_bytes
append_bytes-IsLog bytes cnt d v =
    let w = d.write_end in
    let old = content (d.files w.end_offset.file_num) in
    rw (write_at_end bytes d v)
      (put-IsLogOf d.files d.queue_start w old bytes (w.total_msg_cnt + cnt) v refl)

pub append_bytes-there :
    (bytes : List ℕ) (cnt : ℕ) (d : DiskWriter)
    → (b : List ℕ) × ((append_bytes bytes cnt d).files
          (append_bytes bytes cnt d).write_end.end_offset.file_num
        ≡ some b)
unfolding append_bytes
append_bytes-there bytes cnt d =
    let n = d.write_end.end_offset.file_num in
    let b = write_at d.write_end.end_offset.pos bytes (content (d.files n)) in
    (b, with_file_here d.files n (some b))

-- A file that is missing, is created with no bytes.
pub open_file-IsLog : (d : DiskWriter) → IsLog d → IsLog (open_file d) × (log (open_file d) ≡ log d)
open_file-IsLog d v =
    let w = d.write_end in
    let n = w.end_offset.file_num in
    let f = d.files in
    let f' = (open_file d).files in
    let here : f' n ≡ some (content (f n)) = with_file_here f n (some (content (f n))) in
    let same : before f' d.queue_start w ≡ before f d.queue_start w =
      before-with_file f d.queue_start w (some (content (f n))) v.ordered in
    let joined : log (open_file d) ≡ log d = rw (here, same) refl in
    (
      record {
        ordered = v.ordered;
        exact = rw here v.exact;
        placed = rw joined v.placed;
        present = λ k low high.
            let other : f' k ≡ f k =
              with_file_other f n k (some (content (f n))) (λ q. omega arith) in
            rw other (v.present k low high);
        ahead = λ k past.
            let other : f' k ≡ f k =
              with_file_other f n k (some (content (f n))) (λ q. omega arith) in
            rw other (v.ahead k past);
      },
      joined,
    )

-- The end may move to the start of the next file.
pub next_file-log :
    (f : Files) (s w : EndInfo)
    → s.end_offset.file_num ≤ w.end_offset.file_num
    → f (w.end_offset.file_num + 1) ≡ none
    → log_of f s (to_next_file w) ≡ log_of f s w
next_file-log f s w ordered none_yet =
    let n = w.end_offset.file_num in
    let m = s.end_offset.file_num in
    let count : n + 1 - m ≡ n - m + 1 = omega (arith, ordered) in
    let last : m + (n - m) ≡ n = omega (arith, ordered) in
    rw (none_yet, count, span-last f m (n - m), last)
      (append-nil (span f m (n - m) ++ content (f n)))

next_file-IsLogOf :
    (f : Files) (s w : EndInfo)
    → IsLogOf f s w
    → ((b : List ℕ) × (f w.end_offset.file_num ≡ some b))
    → IsLogOf f s (to_next_file w) × (log_of f s (to_next_file w) ≡ log_of f s w)
next_file-IsLogOf f s w v (b, there) =
    let n = w.end_offset.file_num in
    let none_yet : f (n + 1) ≡ none = v.ahead (n + 1) (omega arith) in
    let joined : log_of f s (to_next_file w) ≡ log_of f s w =
      next_file-log f s w v.ordered none_yet in
    (
      record {
        ordered = omega (arith, v.ordered);
        exact = rw none_yet refl;
        placed = rw joined v.placed;
        present = λ k low high. elim (Bool-cases (ltb k n)) [
          | inl earlier ↦ v.present k low (ground arith)
          | inr late ↦ let same : k ≡ n = ground arith in (b, rw same there)
        ];
        ahead = λ k past. v.ahead k (omega arith);
      },
      joined,
    )

pub roll-IsLog :
    (s : SyncEnd) (d : DiskWriter)
    → IsLog d
    → ((b : List ℕ) × (d.files d.write_end.end_offset.file_num ≡ some b))
    → is_lost s ≡ false
    → IsLog (roll s d).0 × (log (roll s d).0 ≡ log d)
unfolding roll sync
roll-IsLog synced d v there h = next_file-IsLogOf d.files d.queue_start d.write_end v there
roll-IsLog not_flushed d v there h = next_file-IsLogOf d.files d.queue_start d.write_end v there
roll-IsLog not_persisted d v there h = next_file-IsLogOf d.files d.queue_start d.write_end v there
roll-IsLog (flush_lost arrived s) d v there h = absurd (cc h)
