-- ===== src/DiskQueue/Writer/Log/Lost.antt =====
-- What a flush or a write that fails leaves of the log.
use nsq.Base.{
  ℕ, ◌+◌, ◌-◌, ◌≤◌, ◌≡◌, inl, inr, refl, sym, ap, subst, ◌∙◌, arith, Bool, true, false, some, List,
  ◌++◌, length, take, length-append, append_assoc, ◌==◌, if◌then◌else◌, Bool-cases,
}
use nsq.DiskQueue.{EndInfo}
use nsq.DiskQueue.Writer.{
  DiskWriter, content, with_file, arrived_in, lose, sync, SyncEnd, synced, not_flushed,
  not_persisted, flush_lost, write_lost, write_at,
}
use nsq.DiskQueue.Writer.Log.{
  Files, before, log_of, log, IsLog, take_over, take_all, take-append_le, with_file_here,
  with_file_other, before-with_file,
}
use nsq.DiskQueue.Writer.Log.Append.{write_at_end}

-- The log is cut, but only in its last `most` bytes; the write end stays.
pub record Shortened (all : List ℕ) (most : ℕ) (d d' : DiskWriter) : Type 0 where
  pub kept : ℕ
  pub cut : log d' ≡ take kept all
  pub bound : length all ≤ kept + most
  pub end : d'.write_end ≡ d.write_end
  pub start : d'.queue_start ≡ d.queue_start
  pub next :
      d'.files (d.write_end.end_offset.file_num + 1) ≡ d.files (d.write_end.end_offset.file_num + 1)

-- The last file is cut, and so is the log.
cut_last :
    (f : Files) (s w : EndInfo) (j : ℕ) (all : List ℕ)
    → s.end_offset.file_num ≤ w.end_offset.file_num
    → log_of (with_file f w.end_offset.file_num (some (take j all))) s w
      ≡ take (length (before f s w) + j) (before f s w ++ all)
cut_last f s w j all ordered =
    let n = w.end_offset.file_num in
    let b = some (take j all) in
    rw (with_file_here f n b, before-with_file f s w b ordered)
      (sym (take_over (before f s w) all j))

length-log :
    (d : DiskWriter)
    → IsLog d
    → length (log d)
      ≡ length (before d.files d.queue_start d.write_end) + d.write_end.end_offset.pos
length-log d v = omega (
  arith,
  v.exact,
  length-append (before d.files d.queue_start d.write_end)
      (content (d.files d.write_end.end_offset.file_num)),
)

none_lost :
    (d : DiskWriter) (d' : DiskWriter)
    → d'.files ≡ d.files
    → d'.write_end ≡ d.write_end
    → d'.queue_start ≡ d.queue_start
    → (most : ℕ) → Shortened (log d) most d d'
none_lost d d' f e s most = record {
  kept = length (log d);
  cut = rw (f, e, s) (sym (take_all (log d) (length (log d)) (omega arith)));
  bound = omega arith;
  end = e;
  start = s;
  next = rw f refl;
}

lose-Shortened :
    (arrived : ℕ) (d : DiskWriter) → IsLog d → Shortened (log d) d.unflushed d (lose arrived d)
unfolding lose
lose-Shortened arrived d v = elim (Bool-cases (d.unflushed == 0)) [
  | inl empty ↦ rw empty (none_lost d d refl refl refl d.unflushed)
  | inr some_left ↦
      let n = d.write_end.end_offset.file_num in
      let j = d.write_end.end_offset.pos - d.unflushed + arrived in
      let pre = before d.files d.queue_start d.write_end in
      rw some_left (record {
        kept = length pre + j;
        cut = cut_last d.files d.queue_start d.write_end j (content (d.files n)) v.ordered;
        bound = omega (arith, length-log d v);
        end = refl;
        start = refl;
        next = with_file_other d.files n (n + 1) _ (λ q. omega arith);
      })
]

lose-none_left : (arrived : ℕ) (d : DiskWriter) → (lose arrived d).unflushed ≡ 0
unfolding lose
lose-none_left arrived d = elim (Bool-cases (d.unflushed == 0)) [
  | inl empty ↦ rw empty (ground (arith, empty))
  | inr some_left ↦ rw some_left refl
]

lose_empty : (arrived : ℕ) (d : DiskWriter) → d.unflushed ≡ 0 → lose arrived d ≡ d
unfolding lose
lose_empty arrived d h = let empty : (d.unflushed == 0) ≡ true = ground (arith, h) in rw empty refl

-- With an empty buffer a sync changes no file.
pub sync_empty :
    (s : SyncEnd) (d : DiskWriter)
    → d.unflushed ≡ 0
    → ((sync s d).0.files ≡ d.files)
      × ((sync s d).0.write_end ≡ d.write_end)
      × ((sync s d).0.queue_start ≡ d.queue_start)
unfolding sync
sync_empty synced d h = (refl, refl, refl)
sync_empty not_flushed d h = (refl, refl, refl)
sync_empty not_persisted d h = (refl, refl, refl)
sync_empty (flush_lost arrived s) d h =
    subst
      (λ x.
        ((sync s x).0.files ≡ d.files)
        × ((sync s x).0.write_end ≡ d.write_end)
        × ((sync s x).0.queue_start ≡ d.queue_start))
      (sym (lose_empty arrived d h)) (sync_empty s d h)

pub sync-Shortened :
    (s : SyncEnd) (d : DiskWriter) → IsLog d → Shortened (log d) d.unflushed d (sync s d).0
unfolding sync
sync-Shortened synced d v = none_lost d _ refl refl refl d.unflushed
sync-Shortened not_flushed d v = none_lost d _ refl refl refl d.unflushed
sync-Shortened not_persisted d v = none_lost d _ refl refl refl d.unflushed
sync-Shortened (flush_lost arrived s) d v =
    let r = lose-Shortened arrived d v in
    let (f, e, q) = sync_empty s (lose arrived d) (lose-none_left arrived d) in
    record {
      kept = r.kept;
      cut = rw (f, e, q) r.cut;
      bound = r.bound;
      end = e ∙ r.end;
      start = q ∙ r.start;
      next = rw f r.next;
    }

pub write_lost-Shortened :
    (arrived : ℕ) (bytes : List ℕ) (d : DiskWriter)
    → IsLog d
    → (kept : ℕ) × (log (write_lost arrived bytes d) ≡ take kept (log d ++ bytes))
      × (length (log d) ≤ kept + d.unflushed)
unfolding write_lost
write_lost-Shortened arrived bytes d v = by_buffer d.buffer_failed
  where
    n : ℕ
    n = d.write_end.end_offset.file_num

    j : ℕ
    j = d.write_end.end_offset.pos - d.unflushed + arrived

    by_buffer :
        (b : Bool)
        → (kept : ℕ) × (log_of
              (if b
                then d.files
                else with_file d.files n (
                    some (
                      arrived_in arrived d
                        (write_at d.write_end.end_offset.pos bytes (content (d.files n))))))
              d.queue_start
              d.write_end
            ≡ take kept (log d ++ bytes))
          × (length (log d) ≤ kept + d.unflushed)
    by_buffer true = (
      length (log d),
      sym (
          take-append_le (log d) bytes (length (log d)) (omega arith)
          ∙ take_all (log d) (length (log d)) (omega arith)),
      omega arith,
    )
    by_buffer false =
        let pre = before d.files d.queue_start d.write_end in
        let old = content (d.files n) in
        (
          length pre + j,
          rw (write_at_end bytes d v) (
              cut_last d.files d.queue_start d.write_end j (old ++ bytes) v.ordered
              ∙ ap (λ l. take (length pre + j) l) (sym (append_assoc pre old bytes))),
          omega (arith, length-log d v),
        )
