-- ===== src/DiskQueue/Read/Placed.antt =====
-- A read moves the read position in the files and its offset together, and never past the end.
use nsq.Base.{
  ℕ, zero, suc, ◌+◌, ◌-◌, ◌≤◌, ◌<◌, ◌≡◌, ◌⊎◌, inl, inr, refl, ap, arith, true, false, ◌&&◌, ◌||◌,
  Option, none, some, ltb, leb, ◌==◌, Bool-cases, leb→le, dec_lt,
}
use nsq.Base.Bytes.{Outcome}
use nsq.DiskQueue.{Offset, EndInfo, great_than}
use nsq.DiskQueue.Step.Correct.{virtual, IsLaidOut, IsBefore}
use nsq.DiskQueue.Confirm.{DiskReader}
use nsq.DiskQueue.Read.{
  ReadError, ReadResult, max_possible_msg_size, read_past, read_message, in_file, next_file,
  check_file_open, read_one,
}

module _ (size : ℕ → Option ℕ) (start : ℕ → ℕ) where
  -- The position lies at its offset, not beyond the end of the queue, nor beyond its file's end.
  pub record IsAt (r e : EndInfo) : Type 0 where
    pub placed : virtual size start r.end_offset ≡ r.virtual_end
    pub before : IsBefore size start r.end_offset e.end_offset
    pub inside : (k : ℕ) → size r.end_offset.file_num ≡ some k → r.end_offset.pos ≤ k

  pub record IsReading (d : DiskReader) : Type 0 where
    pub at : IsAt d.read_info d.end_info
    pub end_placed : virtual size start d.end_info.end_offset ≡ d.end_info.virtual_end
    pub laid : IsLaidOut size start d.end_info.end_offset

  start_le :
      (e : Offset)
      → IsLaidOut size start e
      → (n m : ℕ) → n + m ≤ e.file_num
      → start n ≤ start (n + m)
  start_le e laid n zero h = let e : n + 0 ≡ n = omega arith in omega (arith, ap start e)
  start_le e laid n (suc m) h =
      let (k, f, seam) = laid.full (n + m) (omega arith) in
      let up : n + suc m ≡ suc (n + m) = omega arith in
      omega (arith, seam, start_le e laid n m (omega arith), ap start up)

  -- A position that is not beyond the end has no greater offset.
  IsAt-offset : (d : DiskReader) → IsReading d → d.read_info.virtual_end ≤ d.end_info.virtual_end
  unfolding great_than
  IsAt-offset d v =
      let a = d.read_info.end_offset in
      let b = d.end_info.end_offset in
      elim (dec_lt a.file_num b.file_num) [
        | yes earlier ↦
            let (k, f, seam) = v.laid.full a.file_num earlier in
            let gap = b.file_num - suc a.file_num in
            let up : suc a.file_num + gap ≡ b.file_num = omega arith in
            omega (
              arith,
              seam,
              v.at.inside k f,
              v.at.placed,
              v.end_placed,
              ap start up,
              start_le b v.laid (suc a.file_num) gap (omega arith),
            )
        | no late ↦
            let same : a.file_num ≡ b.file_num = ground (arith, v.at.before) in
            let low : a.pos ≤ b.pos = ground (arith, v.at.before) in
            omega (arith, ap start same, v.at.placed, v.end_placed)
      ]

  size_once : (n : ℕ) {j k : ℕ} → size n ≡ some j → size n ≡ some k → j ≡ k
  size_once n e f = cc

  module _ (length_at : ℕ → ℕ → ℕ) where
    -- The message ends inside the file.
    read_past-IsAt :
        (total file_end : ℕ) (e r : EndInfo)
        → IsAt r e
        → IsLaidOut size start e.end_offset
        → r.end_offset.pos + total ≤ file_end
        → ((r.end_offset.file_num ≡ e.end_offset.file_num) × (file_end ≡ e.end_offset.pos))
          ⊎ ((r.end_offset.file_num < e.end_offset.file_num)
              × (size r.end_offset.file_num ≡ some file_end))
        → IsAt (read_past total file_end e r) e
    unfolding read_past great_than
    read_past-IsAt total file_end e r v laid fits (inl (same, last)) =
        let f = r.end_offset.file_num in
        let here : ltb f e.end_offset.file_num ≡ false = ground arith in
        let (k, known, long) = laid.last in
        rw here (record {
          placed = omega (arith, v.placed);
          before = ground (arith, same, last);
          inside = λ k' known'.
              let one : k ≡ k' = size_once (e.end_offset.file_num) known (rw (← same) known') in
              omega (arith, one);
        })
    read_past-IsAt total file_end e r v laid fits (inr (earlier, known)) =
        let f = r.end_offset.file_num in
        let pos' = r.end_offset.pos + total in
        let here : ltb f e.end_offset.file_num ≡ true = ground arith in
        let (k, known', seam) = laid.full f earlier in
        let one : k ≡ file_end = size_once f known' known in
        let up : suc f ≡ f + 1 = omega arith in
        elim (Bool-cases (leb file_end pos')) [
          | inl over ↦
              rw (here, over)
                (record {
                  placed =
                      omega (arith, v.placed, seam, one, ap start up, leb→le file_end pos' over);
                  before = ground arith;
                  inside = λ _ _. omega arith;
                })
          | inr within ↦
              rw (here, within)
                (record {
                  placed = omega (arith, v.placed);
                  before = ground arith;
                  inside = λ k'' known''. omega (arith, size_once f known known'');
                })
        ]

    read_message-IsReading :
        (file_end : ℕ) (d : DiskReader)
        → IsReading d
        → ((d.read_info.end_offset.file_num ≡ d.end_info.end_offset.file_num)
            × (file_end ≡ d.end_info.end_offset.pos))
          ⊎ ((d.read_info.end_offset.file_num < d.end_info.end_offset.file_num)
              × (size d.read_info.end_offset.file_num ≡ some file_end))
        → IsReading (read_message size length_at file_end d).0
    unfolding read_message
    read_message-IsReading file_end d v which =
        let r = d.read_info in
        let pos = r.end_offset.pos in
        let len = length_at r.end_offset.file_num pos in
        elim (Bool-cases (ltb file_end (pos + 4))) [
          | inl short ↦ rw short v
          | inr long ↦ elim (Bool-cases (len == 0 || ltb max_possible_msg_size len)) [
            | inl wrong ↦ rw (long, wrong) v
            | inr right ↦ elim (Bool-cases (ltb file_end (pos + (4 + len)))) [
              | inl cut ↦ rw (long, right, cut) v
              | inr whole ↦
                  let at =
                    read_past-IsAt (4 + len) file_end d.end_info r v.at v.laid (ground arith)
                      which in
                  rw (long, right, whole)
                    (record { at = at; end_placed = v.end_placed; laid = v.laid })
            ]
          ]
        ]

    -- A file that was read to its end is followed by the start of the next.
    next_file-IsReading :
        (d : DiskReader) (k : ℕ)
        → IsReading d
        → size d.read_info.end_offset.file_num ≡ some k
        → d.read_info.end_offset.file_num < d.end_info.end_offset.file_num
        → k ≤ d.read_info.end_offset.pos
        → IsReading (next_file d)
    unfolding great_than
    next_file-IsReading d k v known earlier over =
        let f = d.read_info.end_offset.file_num in
        let (k', known', seam) = v.laid.full f earlier in
        let one : k ≡ k' = size_once f known known' in
        let up : suc f ≡ f + 1 = omega arith in
        let at : IsAt (next_file d).read_info d.end_info = record {
          placed = omega (arith, v.at.placed, v.at.inside k known, seam, one, ap start up);
          before = ground arith;
          inside = λ _ _. omega arith;
        } in
        record { at = at; end_placed = v.end_placed; laid = v.laid }

    in_file-IsReading :
        (end : Option ℕ) (d : DiskReader) (go : ℕ → DiskReader × Outcome ReadError ReadResult)
        → IsReading d
        → ((k : ℕ) → end ≡ some k → IsReading (go k).0)
        → IsReading (in_file end d go).0
    in_file-IsReading none d go v reads = v
    in_file-IsReading (some k) d go v reads = reads k refl

    check_file_open-IsReading :
        (left : ℕ) (d : DiskReader)
        → IsReading d
        → d.read_info.end_offset.file_num + left ≡ d.end_info.end_offset.file_num
        → IsReading (check_file_open size length_at left d).0
    unfolding check_file_open
    check_file_open-IsReading zero d v far =
        let file = d.read_info.end_offset.file_num in
        in_file-IsReading (size file) d _ v (λ k e.
          elim (Bool-cases (file == d.end_info.end_offset.file_num)) [
            | inl here ↦
                rw here
                  (read_message-IsReading d.end_info.end_offset.pos d v (inl (omega arith, refl)))
            | inr past ↦ rw past v
          ])
    check_file_open-IsReading (suc left) d v far =
        in_file-IsReading (size d.read_info.end_offset.file_num) d _ v (λ k e.
          elim (Bool-cases (leb k d.read_info.end_offset.pos)) [
            | inl over ↦
                let next =
                  next_file-IsReading d k v e (omega arith)
                    (leb→le k d.read_info.end_offset.pos over) in
                rw over (check_file_open-IsReading left (next_file d) next (omega arith))
            | inr inside ↦ rw inside (read_message-IsReading k d v (inr (omega arith, e)))
          ])

    file_le :
        (d : DiskReader)
        → IsReading d
        → d.read_info.end_offset.file_num ≤ d.end_info.end_offset.file_num
    unfolding great_than
    file_le d v = ground (arith, v.at.before)

    -- readOne, where the data files up to the end of the queue are readable and each starts at the
    -- offset where the one before ends. From a read position that lies at its offset, not beyond the
    -- end of the queue nor of its file, a read leads to such a position, whatever the lengths in the
    -- files say and whether or not it fails, and the read offset is not beyond the end's.
    pub read_one_in_bounds :
        (d : DiskReader)
        → IsReading d
        → IsReading (read_one size length_at d).0
          × (let d' = (read_one size length_at d).0 in
              d'.read_info.virtual_end ≤ d'.end_info.virtual_end)
    unfolding read_one
    read_one_in_bounds d v =
        let r = d.read_info in
        let left = d.end_info.end_offset.file_num - r.end_offset.file_num in
        let w : IsReading (read_one size length_at d).0 =
          elim (Bool-cases (r.total_msg_cnt == 0 && ltb 0 r.virtual_end)) [
            | inl missing ↦ rw missing v
            | inr given ↦ rw given (check_file_open-IsReading left d v (omega (arith, file_le d v)))
          ] in
        (w, IsAt-offset (read_one size length_at d).0 w)
