-- ===== src/DiskQueue/Step/Correct.antt =====
-- stepOffset moves by exactly as many bytes as it is asked to.
use nsq.Base.{
  ℕ, zero, suc, ◌+◌, ◌-◌, ◌≤◌, ◌<◌, ◌≡◌, ◌⊎◌, inl, inr, refl, ap, ◌∙◌, arith, Bool, true, false,
  Option, some, ltb, leb, ◌==◌, Bool-cases, ltb→lt, leb→le, dec_lt,
}
use nsq.Base.Bytes.{Outcome, ok}
use nsq.DiskQueue.{Offset, EndInfo, great_than}
use nsq.DiskQueue.Step.{
  StepError, advance, forward_loop, step_forward, backward_loop, step_backward,
}

module _ (size : ℕ → Option ℕ) (start : ℕ → ℕ) where
  -- The offset from the start of the queue at which a position lies.
  abbrev pub virtual : Offset → ℕ
  virtual o = start o.file_num + o.pos

  -- Every file before the limit's is readable, and the next one starts where it ends; the limit's
  -- own file has at least the bytes up to the limit.
  pub record IsLaidOut (max : Offset) : Type 0 where
    pub full :
        (n : ℕ) → n < max.file_num → (k : ℕ) × (size n ≡ some k) × (start (suc n) ≡ start n + k)
    pub last : (k : ℕ) × (size max.file_num ≡ some k) × (max.pos ≤ k)

  -- Not beyond the limit.
  abbrev pub IsBefore : Offset → Offset → Type 0
  IsBefore o max = great_than o max ≡ false

  module _ (max : Offset) (laid : IsLaidOut max) where
    advance_correct :
        (again : Offset → ℕ → Outcome StepError Offset) (o : Offset) (step end : ℕ)
        → o.file_num ≤ max.file_num
        → virtual o + step ≤ virtual max
        → ((o.file_num ≡ max.file_num) × (max.pos ≤ end))
          ⊎ ((o.file_num < max.file_num) × (start (suc o.file_num) ≡ start o.file_num + end))
        → ((next : Offset) (left : ℕ)
            → next.file_num ≡ o.file_num + 1
            → next.file_num ≤ max.file_num
            → virtual next + left ≡ virtual o + step
            → (r : Offset) × (again next left ≡ ok r)
              × (virtual r ≡ virtual o + step)
              × IsBefore r max)
        → (r : Offset) × (advance size max again o step end ≡ ok r)
          × (virtual r ≡ virtual o + step)
          × IsBefore r max
    unfolding advance great_than
    advance_correct again o step end low fits ends rest =
        elim (Bool-cases (ltb end (o.pos + step))) [
          | inr inside ↦
              let here : Offset = record { file_num = o.file_num; pos = o.pos + step } in
              let before : IsBefore here max = ground (arith, ends, ap start) in
              (here, rw (inside, before) refl, omega arith, before)
          | inl beyond ↦ elim ends [
            | inl (same, long) ↦
                absurd (omega (arith, ap start same, ltb→lt end (o.pos + step) beyond))
            | inr (inner, seam) ↦
                let next : Offset = record { file_num = o.file_num + 1; pos = 0 } in
                let before : IsBefore next max = ground arith in
                let up : suc o.file_num ≡ o.file_num + 1 = omega arith in
                let at : virtual next + (o.pos + step - end) ≡ virtual o + step =
                  omega (arith, seam, ap start up, ltb→lt end (o.pos + step) beyond) in
                let (r, run, v, b) = rest next (o.pos + step - end) refl (omega arith) at in
                (r, rw (beyond, before) run, v, b)
          ]
        ]

    forward_loop_correct :
        (fuel : ℕ) (inner : Bool) (o : Offset) (step : ℕ)
        → o.file_num ≤ max.file_num
        → max.file_num < o.file_num + fuel
        → virtual o + step ≤ virtual max
        → (inner ≡ false → o.file_num ≡ max.file_num)
        → (r : Offset) × (forward_loop size fuel inner max o step ≡ ok r)
          × (virtual r ≡ virtual o + step)
          × IsBefore r max
    unfolding forward_loop
    forward_loop_correct zero inner o step low enough fits only = absurd (omega arith)
    forward_loop_correct (suc fuel) inner o step low enough fits only =
        let rest : (next : Offset) (left : ℕ)
            → next.file_num ≡ o.file_num + 1
            → next.file_num ≤ max.file_num
            → virtual next + left ≡ virtual o + step
            → (r : Offset) × (forward_loop size fuel inner max next left ≡ ok r)
              × (virtual r ≡ virtual o + step)
              × IsBefore r max =
          λ next left up below at.
            let (r, run, v, b) =
              forward_loop_correct fuel inner next left below (omega arith) (omega arith)
                (λ e. absurd (omega (arith, only e))) in
            (r, run, v ∙ at, b) in
        elim (Bool-cases inner) [
          | inr outer ↦ rw outer (
              advance_correct _ o step max.pos low fits (inl (only outer, omega arith))
                (λ n l a b c. rw outer at rest n l a b c))
          | inl further ↦ elim (dec_lt o.file_num max.file_num) [
            | yes earlier ↦
                let (k, e, seam) = laid.full o.file_num earlier in
                rw (further, e)
                  (advance_correct _ o step k low fits (inr (earlier, seam))
                    (λ n l a b c. rw further at rest n l a b c))
            | no here ↦
                let same : o.file_num ≡ max.file_num = omega arith in
                let (k, e, long) = laid.last in
                let e' : size o.file_num ≡ some k = ap size same ∙ e in
                rw (further, e')
                  (advance_correct _ o step k low fits (inl (same, long))
                    (λ n l a b c. rw further at rest n l a b c))
          ]
        ]

  -- stepOffset, forward: from a position that lies at its offset and not beyond the limit's file,
  -- by a number of bytes that ends at or before the limit, where every file between is readable.
  -- It returns the position that lies that many bytes further on, which is not beyond the limit.
  pub step_forward_correct :
      (cur max : EndInfo) (step : ℕ)
      → IsLaidOut max.end_offset
      → cur.end_offset.file_num ≤ max.end_offset.file_num
      → IsBefore cur.end_offset max.end_offset
      → virtual cur.end_offset ≡ cur.virtual_end
      → virtual max.end_offset ≡ max.virtual_end
      → cur.virtual_end + step ≤ max.virtual_end
      → (r : Offset) × (step_forward size cur step max ≡ ok r)
        × (virtual r ≡ cur.virtual_end + step)
        × IsBefore r max.end_offset
  unfolding step_forward
  step_forward_correct cur max step laid low before at at' fits =
      let a = cur.end_offset in
      let b = max.end_offset in
      let (r, run, v, ok_r) =
        forward_loop_correct b laid (b.file_num + 1 - a.file_num) (ltb a.file_num b.file_num) a step
          low (omega arith) (omega arith) (λ e. ground arith) in
      let in_order : ltb b.file_num a.file_num ≡ false = ground arith in
      let in_reach : ltb max.virtual_end (cur.virtual_end + step) ≡ false = ground arith in
      elim (Bool-cases (step == 0)) [
        | inl none_asked ↦ (a, rw (in_order, none_asked) refl, ground arith, before)
        | inr some_asked ↦ (r, rw (in_order, some_asked, in_reach) run, omega arith, ok_r)
      ]

  backward_loop_correct :
      (n pos step : ℕ)
      → ((m : ℕ) → m < n → (k : ℕ) × (size m ≡ some k) × (start (suc m) ≡ start m + k))
      → start 0 + step ≤ start n + pos
      → (r : Offset) × (backward_loop size n pos step ≡ ok r) × (virtual r + step ≡ start n + pos)
  unfolding backward_loop
  backward_loop_correct zero pos step full reach =
      let inside : leb step pos ≡ true = ground arith in
      (record { file_num = 0; pos = pos - step }, rw inside refl, omega arith)
  backward_loop_correct (suc n) pos step full reach = elim (Bool-cases (leb step pos)) [
    | inl inside ↦ (
      record { file_num = suc n; pos = pos - step },
      rw inside refl,
      omega (arith, leb→le step pos inside),
    )
    | inr beyond ↦
        let (k, e, seam) = full n (omega arith) in
        let more : pos < step = ground arith in
        let (r, run, v) =
          backward_loop_correct n k (step - pos) (λ m h. full m (omega arith))
            (omega (arith, seam)) in
        (r, rw (beyond, e) run, omega (arith, seam, v))
  ]

  -- stepOffset, backward: from a position that lies at its offset and not beyond the limit's file, by
  -- no more bytes than lie before it, to an offset that is not beyond the limit's, where every file
  -- before is readable. It returns the position that lies that many bytes back.
  pub step_backward_correct :
      (cur max : EndInfo) (step : ℕ)
      → ((m : ℕ)
          → m < cur.end_offset.file_num
          → (k : ℕ) × (size m ≡ some k) × (start (suc m) ≡ start m + k))
      → cur.end_offset.file_num ≤ max.end_offset.file_num
      → virtual cur.end_offset ≡ cur.virtual_end
      → start 0 + step ≤ cur.virtual_end
      → cur.virtual_end ≤ max.virtual_end + step
      → (r : Offset) × (step_backward size cur step max ≡ ok r)
        × (virtual r + step ≡ cur.virtual_end)
  unfolding step_backward
  step_backward_correct cur max step full low at reach fits =
      let a = cur.end_offset in
      let (r, run, v) = backward_loop_correct a.file_num a.pos step full (omega arith) in
      let in_order : ltb max.end_offset.file_num a.file_num ≡ false = ground arith in
      let in_reach : ltb cur.virtual_end step ≡ false = ground arith in
      let in_limit : ltb max.virtual_end (cur.virtual_end - step) ≡ false = ground arith in
      elim (Bool-cases (step == 0)) [
        | inl none_asked ↦ (a, rw (in_order, none_asked) refl, ground arith)
        | inr some_asked ↦ (r, rw (in_order, some_asked, in_reach, in_limit) run, omega arith)
      ]
