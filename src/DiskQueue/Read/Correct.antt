-- ===== src/DiskQueue/Read/Correct.antt =====
-- What a read returns, and by how much it moves the read position.
use nsq.Base.{
  ℕ, zero, suc, ◌+◌, ◌-◌, ◌≤◌, ◌<◌, ◌≡◌, inl, inr, refl, arith, ◌&&◌, ◌||◌, Option, none, some, ltb,
  leb, ◌==◌, Bool-cases,
}
use nsq.Base.Bytes.{Outcome, ok, err}
use nsq.DiskQueue.Confirm.{DiskReader}
use nsq.DiskQueue.Read.{
  ReadError, count_missing, not_open, exceeds_end, invalid_readable, invalid_size, ReadResult,
  max_possible_msg_size, read_past, read_message, in_file, next_file, check_file_open, read_one,
}

-- The ways that a read can end. A read that fails may have passed into a later file, but its offset
-- stays; a message that was read started at the read offset, and the offset has moved by its
-- size, which is that of its length and of a body of one byte at least.
pub data ReadsTo (d : DiskReader) : DiskReader → Outcome ReadError ReadResult → Type 0 where
  failed :
      (d' : DiskReader) (e : ReadError)
      → d'.read_info.virtual_end ≡ d.read_info.virtual_end
      → d'.confirmed_info ≡ d.confirmed_info
      → d'.end_info ≡ d.end_info
      → ReadsTo d d' (err e)
  read :
      (d' : DiskReader) (r : ReadResult)
      → r.offset ≡ d.read_info.virtual_end
      → d'.read_info.virtual_end ≡ r.offset + r.moved_size
      → 4 < r.moved_size
      → r.moved_size ≤ 4 + max_possible_msg_size
      → r.cur_cnt ≡ d.read_info.total_msg_cnt + 1
      → d'.confirmed_info ≡ d.confirmed_info
      → d'.end_info ≡ d.end_info
      → ReadsTo d d' (ok r)

ReadsTo-next_file :
    {d d' : DiskReader} {e : Outcome ReadError ReadResult}
    → ReadsTo (next_file d) d' e
    → ReadsTo d d' e
ReadsTo-next_file (failed d' e at same end) = failed d' e at same end
ReadsTo-next_file (read d' r at on low high cnt same end) = read d' r at on low high cnt same end

module _ (size : ℕ → Option ℕ) (length_at : ℕ → ℕ → ℕ) where
  read_message-ReadsTo :
      (file_end : ℕ) (d : DiskReader)
      → (let q = read_message size length_at file_end d in ReadsTo d q.0 q.1)
  unfolding read_message read_past
  read_message-ReadsTo file_end d =
      let r = d.read_info in
      let pos = r.end_offset.pos in
      let len = length_at r.end_offset.file_num pos in
      elim (Bool-cases (ltb file_end (pos + 4))) [
        | inl short ↦ rw short (failed d invalid_readable refl refl refl)
        | inr long ↦ elim (Bool-cases (len == 0 || ltb max_possible_msg_size len)) [
          | inl wrong ↦ rw (long, wrong) (failed d invalid_size refl refl refl)
          | inr right ↦ elim (Bool-cases (ltb file_end (pos + (4 + len)))) [
            | inl cut ↦ rw (long, right, cut) (failed d invalid_readable refl refl refl)
            | inr whole ↦
                rw (long, right, whole)
                  (read _ _ refl refl (ground arith) (ground arith) refl refl refl)
          ]
        ]
      ]

  in_file-ReadsTo :
      (end : Option ℕ) (d : DiskReader) (go : ℕ → DiskReader × Outcome ReadError ReadResult)
      → ((k : ℕ) → end ≡ some k → ReadsTo d (go k).0 (go k).1)
      → (let q = in_file end d go in ReadsTo d q.0 q.1)
  in_file-ReadsTo none d go reads = failed d not_open refl refl refl
  in_file-ReadsTo (some k) d go reads = reads k refl

  check_file_open-ReadsTo :
      (left : ℕ) (d : DiskReader)
      → (let q = check_file_open size length_at left d in ReadsTo d q.0 q.1)
  unfolding check_file_open
  check_file_open-ReadsTo zero d =
      let file = d.read_info.end_offset.file_num in
      in_file-ReadsTo (size file) d _ (λ k e.
        elim (Bool-cases (file == d.end_info.end_offset.file_num)) [
          | inl here ↦ rw here (read_message-ReadsTo d.end_info.end_offset.pos d)
          | inr past ↦ rw past (failed d exceeds_end refl refl refl)
        ])
  check_file_open-ReadsTo (suc left) d =
      in_file-ReadsTo (size d.read_info.end_offset.file_num) d _ (λ k e.
        elim (Bool-cases (leb k d.read_info.end_offset.pos)) [
          | inl over ↦ rw over (ReadsTo-next_file (check_file_open-ReadsTo left (next_file d)))
          | inr inside ↦ rw inside (read_message-ReadsTo k d)
        ])

  -- readOne. It fails, and the read offset, the confirmed position and the end of the queue stay; or
  -- it returns the offset at which the message starts, with the number of bytes by which the read
  -- offset has moved, which are more than four and at most four more than the greatest size of a
  -- message, and with the next count.
  pub read_one_correct :
      (d : DiskReader) → ReadsTo d (read_one size length_at d).0 (read_one size length_at d).1
  unfolding read_one
  read_one_correct d =
      let r = d.read_info in
      elim (Bool-cases (r.total_msg_cnt == 0 && ltb 0 r.virtual_end)) [
        | inl missing ↦ rw missing (failed d count_missing refl refl refl)
        | inr given ↦
            rw given
              (check_file_open-ReadsTo (d.end_info.end_offset.file_num - r.end_offset.file_num) d)
      ]
