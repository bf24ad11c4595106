-- ===== src/DiskQueue/Writer/Log/Reset.antt =====
-- ResetWriteEndV2 cuts the log, also across files.
use nsq.Base.{
  ℕ, zero, suc, ◌+◌, ◌-◌, ◌≤◌, ◌<◌, ◌≡◌, inl, inr, refl, sym, ap, subst, ◌∙◌, arith, Bool, true,
  false, ◌&&◌, ◌||◌, not, none, some, List, length, take, length-append, ltb, ◌==◌, Bool-cases,
  dec_le,
}
use nsq.DiskQueue.{EndInfo}
use nsq.DiskQueue.Writer.{
  DiskWriter, content, cut_files, truncate_to_write_end, sync_if_needed, SyncEnd, invalid_offset,
  at_end, find_write_end, reset_to, reset_write_end_v2,
}
use nsq.DiskQueue.Writer.Log.{Files, span, before, log_of, IsLogOf, log, IsLog, span-last}
use nsq.DiskQueue.Writer.Log.Cut.{cut-IsLogOf}
use nsq.DiskQueue.Writer.Log.Back.{
  is_lost, CutsTo, refused, cut, sync_if_needed-same, sync_if_needed-CutsTo, sync_if_needed-IsLog,
}

-- The place of an offset in the files from `s` on.
pub record IsPlace (f : Files) (s : EndInfo) (offset last n p : ℕ) : Type 0 where
  pub from : s.end_offset.file_num ≤ n
  pub to : n ≤ last
  pub inside : p ≤ length (content (f n))
  pub at :
      offset ≡ s.virtual_end + length (span f s.end_offset.file_num (n - s.end_offset.file_num)) + p

module _ (f : Files) (s : EndInfo) (offset : ℕ) (low : s.virtual_end ≤ offset) where
  -- The search ends at the place of the offset.
  find_write_end_correct :
      (file pos end : ℕ)
      → s.end_offset.file_num ≤ file
      → ((k : ℕ) → s.end_offset.file_num ≤ k → k < file → (b : List ℕ) × (f k ≡ some b))
      → pos ≡ length (content (f file))
      → end
        ≡ s.virtual_end + length (span f s.end_offset.file_num (file - s.end_offset.file_num)) + pos
      → offset ≤ end
      → (n : ℕ) × (p : ℕ) × (find_write_end f file pos end offset ≡ at_end n p)
        × IsPlace f s offset file n p
  unfolding find_write_end span
  find_write_end_correct zero pos end first there size at high =
      let m = s.end_offset.file_num in
      let none_before : zero - m ≡ 0 = omega arith in
      let at' : end ≡ s.virtual_end + 0 + pos = rw none_before at at in
      let near : ltb (offset + pos) end ≡ false = ground (arith, at', low) in
      (
        0,
        pos - (end - offset),
        rw near refl,
        record {
          from = first;
          to = omega arith;
          inside = omega (arith, size);
          at = rw none_before (omega (arith, at', high));
        },
      )
  find_write_end_correct (suc file) pos end first there size at high =
      let m = s.end_offset.file_num in
      elim (Bool-cases (ltb (offset + pos) end)) [
        | inr near ↦
            let near' : end ≤ offset + pos = ground arith in
            (
              suc file,
              pos - (end - offset),
              rw near refl,
              record {
                from = first;
                to = omega arith;
                inside = omega (arith, size);
                at = omega (arith, at, near', high);
              },
            )
        | inl far ↦
            let far' : offset + pos < end = ground arith in
            elim (dec_le m file) [
              | no later ↦
                  let none_before : suc file - m ≡ 0 = omega (arith, first) in
                  let at' : end ≡ s.virtual_end + 0 + pos = rw none_before at at in
                  absurd (omega (arith, at', far', low))
              | yes earlier ↦
                  let (b, e) = there file earlier (omega arith) in
                  let count : suc file - m ≡ file - m + 1 = omega arith in
                  let last : m + (file - m) ≡ file = omega arith in
                  let pre = span f m (file - m) in
                  let whole : length (span f m (suc file - m)) ≡ length pre + length b =
                    rw (count, span-last f m (file - m), last, e) (length-append pre b) in
                  let (n, p, run, place) =
                    find_write_end_correct file (length b) (end - pos) earlier
                      (λ k from to. there k from (omega arith)) (rw e refl)
                      (omega (arith, at, whole)) (omega (arith, far')) in
                  (
                    n,
                    p,
                    rw (far, e) run,
                    record {
                      from = place.from;
                      to = omega (arith, place.to);
                      inside = place.inside;
                      at = place.at;
                    },
                  )
            ]
      ]

-- What ResetWriteEndV2 asks for.
abbrev pub can_reset : ℕ → ℕ → DiskWriter → Bool
can_reset offset total_cnt d =
    not (ltb offset d.queue_start.virtual_end || ltb total_cnt d.queue_start.total_msg_cnt)
    && not (ltb d.write_end.virtual_end offset)

reset_found :
    (offset total_cnt n p : ℕ) (d1 : DiskWriter)
    → IsLog d1
    → IsPlace d1.files d1.queue_start offset d1.write_end.end_offset.file_num n p
    → (let q = reset_to offset total_cnt (at_end n p) d1 in CutsTo offset true d1 q.0 q.1)
reset_found offset total_cnt n p d1 v place =
    let (v', same) =
      cut-IsLogOf d1.files d1.queue_start d1.write_end v n p offset total_cnt place.from place.to
        place.inside place.at in
    cut _ refl v' same refl

reset_to_start :
    (x : EndInfo) (d : DiskWriter)
    → IsLog d
    → d.queue_start ≡ x
    → x.end_offset.pos ≡ 0
    → CutsTo x.virtual_end true d
        (truncate_to_write_end (record d { write_end = x; read_end = x }))
        none
unfolding span
reset_to_start x d v start first =
    subst
      (λ (y : EndInfo).
        CutsTo y.virtual_end true d
          (truncate_to_write_end (record d { write_end = y; read_end = y })) none)
      start (cut _ refl cut_log.0 cut_log.1 refl)
  where
    s : EndInfo
    s = d.queue_start

    n : ℕ
    n = s.end_offset.file_num

    none_before : n - n ≡ 0
    none_before = omega arith

    first' : s.end_offset.pos ≡ 0
    first' = ap (λ (y : EndInfo). y.end_offset.pos) start ∙ first

    cut_log :
        (let w : EndInfo = record {
          end_offset = record { file_num = n; pos = s.end_offset.pos };
          virtual_end = s.virtual_end;
          total_msg_cnt = s.total_msg_cnt;
        } in
          let f = cut_files d.files n s.end_offset.pos in
          IsLogOf f s w × (log_of f s w ≡ take (s.virtual_end - s.virtual_end) (log d)))
    cut_log =
        cut-IsLogOf d.files s d.write_end v n s.end_offset.pos s.virtual_end s.total_msg_cnt
          (omega arith) v.ordered (omega (arith, first')) (rw none_before (omega (arith, first')))

-- ResetWriteEndV2, where the data files, with what is in the buffer, are a log, the write end is its
-- end, the queue starts at the start of a file, and no flush of the buffer fails. It is refused, and the log and the write end stay, for an offset before
-- the start of the queue or beyond the write end, and for a count below the start's. Otherwise it
-- finds the file of the offset, and the log is cut at the offset, which is then the write end's.
-- In each case the files are a log afterwards.
pub reset_write_end_v2_correct :
    (offset total_cnt : ℕ) (t : SyncEnd) (d : DiskWriter)
    → IsLog d
    → d.queue_start.end_offset.pos ≡ 0
    → is_lost t ≡ false
    → (let q = reset_write_end_v2 offset total_cnt t d in
        CutsTo offset (can_reset offset total_cnt d) d q.0 q.1)
unfolding reset_write_end_v2
reset_write_end_v2_correct offset total_cnt t d v first flushes =
    let w = d.write_end in
    let d1 = sync_if_needed t d in
    let (f, s, e) = sync_if_needed-same t d flushes in
    let v1 = sync_if_needed-IsLog t d flushes v in
    let early = ltb offset d.queue_start.virtual_end || ltb total_cnt d.queue_start.total_msg_cnt in
    elim (Bool-cases early) [
      | inl wrong ↦ rw wrong (refused d invalid_offset refl v refl refl)
      | inr late ↦ elim (Bool-cases (ltb w.virtual_end offset)) [
        | inl beyond ↦ rw (late, beyond) (refused d invalid_offset refl v refl refl)
        | inr inside ↦ elim (Bool-cases (offset == 0)) [
          | inl whole ↦
              let zero_start : d.queue_start.virtual_end ≡ offset = ground arith in
              let x = d.queue_start in
              let q = truncate_to_write_end (record d1 { write_end = x; read_end = x }) in
              let ends =
                subst (λ o. CutsTo o true d1 q none) zero_start (reset_to_start x d1 v1 s first) in
              rw (late, inside, whole) (sync_if_needed-CutsTo offset true t d q none flushes ends)
          | inr some_left ↦
              let pre = before d.files d.queue_start w in
              let (n, p, run, place) =
                find_write_end_correct d.files d.queue_start offset (ground arith)
                  w.end_offset.file_num w.end_offset.pos w.virtual_end v.ordered v.present
                  (sym v.exact)
                  (omega (
                    arith,
                    v.placed,
                    v.exact,
                    length-append pre (content (d.files w.end_offset.file_num)),
                  ))
                  (ground arith) in
              let place' : IsPlace d1.files d1.queue_start offset d1.write_end.end_offset.file_num n
                  p =
                rw (f, s, e) place in
              rw (late, inside, some_left, run)
                (sync_if_needed-CutsTo offset true t d _ none flushes
                  (reset_found offset total_cnt n p d1 v1 place'))
        ]
      ]
    ]
