-- ===== src/DiskQueue/Writer/Log/Cut.antt =====
-- The files are cut at a place, and so is the log.
use nsq.Base.{
  ℕ, zero, suc, ◌+◌, ◌-◌, ◌≤◌, ◌<◌, ◌≡◌, inl, inr, refl, sym, ap, ◌∙◌, arith, true, false, Option,
  none, some, List, [], ◌++◌, length, take, length-append, length-take, append_assoc, append-nil,
  ltb, ◌==◌, if◌then◌else◌, Bool-cases, dec_lt,
}
use nsq.DiskQueue.{EndInfo}
use nsq.DiskQueue.Writer.{content, run_exists, cut_files}
use nsq.DiskQueue.Writer.Log.{
  Files, span, log_of, IsLogOf, span_congr, span-add, take_over, take-append_le, pad_inside,
}

run_complete :
    (f : Files) (from count : ℕ)
    → ((k : ℕ) → from ≤ k → k < from + count → (b : List ℕ) × (f k ≡ some b))
    → run_exists f from count ≡ true
unfolding run_exists
run_complete f from zero there = refl
run_complete f from (suc count) there =
    let (b, e) = there from (omega arith) (omega arith) in
    let rest =
      run_complete f (from + 1) count (λ k low high. there k (omega arith) (omega arith)) in
    rw (e, rest) refl

span-suc : (f : Files) (n c : ℕ) → span f n (suc c) ≡ content (f n) ++ span f (n + 1) c
unfolding span
span-suc f n c = refl

module _ (f : Files) (s w : EndInfo) (v : IsLogOf f s w) (n p : ℕ) where
  abbrev m : ℕ
  m = s.end_offset.file_num

  cut_here : p ≤ length (content (f n)) → cut_files f n p n ≡ some (take p (content (f n)))
  unfolding cut_files
  cut_here fits =
      let e : (n == n) ≡ true = ground arith in rw (e, pad_inside p (content (f n)) fits) refl

  cut_before : (k : ℕ) → k < n → cut_files f n p k ≡ f k
  unfolding cut_files
  cut_before k low =
      let e : (k == n) ≡ false = ground arith in
      let e' : ltb n k ≡ false = ground arith in rw (e, e') refl

  -- No file is left after the cut.
  cut_after : s.end_offset.file_num ≤ n → (k : ℕ) → n < k → cut_files f n p k ≡ none
  unfolding cut_files
  cut_after low k past =
      let e : (k == n) ≡ false = ground arith in
      let e' : ltb n k ≡ true = ground arith in rw (e, e') (by_found (f k) refl)
    where
      by_found :
          (o : Option (List ℕ))
          → f k ≡ o
          → (if run_exists f (n + 1) (k - n) then none else f k) ≡ none
      by_found none h = elim (Bool-cases (run_exists f (n + 1) (k - n))) [
        | inl all ↦ rw all refl
        | inr some_gone ↦ rw some_gone h
      ]
      by_found (some b) h = elim (dec_lt w.end_offset.file_num k) [
        | yes beyond ↦ absurd (cc (v.ahead k beyond, h))
        | no inside ↦
            let all : run_exists f (n + 1) (k - n) ≡ true =
              run_complete f (n + 1) (k - n) (λ j from to. elim (dec_lt j k) [
                | yes earlier ↦ v.present j (omega arith) (omega arith)
                | no last ↦ let same : j ≡ k = omega arith in (b, rw same h)
              ]) in
            rw all refl
      ]

  -- The log has the file's bytes after those before the file.
  log_split :
      s.end_offset.file_num ≤ n
      → n ≤ w.end_offset.file_num
      → (tail : List ℕ) × (log_of f s w
          ≡ span f s.end_offset.file_num (n - s.end_offset.file_num) ++ (content (f n) ++ tail))
  log_split low high = elim (dec_lt n w.end_offset.file_num) [
    | yes earlier ↦
        let a = n - m in
        let c = w.end_offset.file_num - n - 1 in
        let last = content (f w.end_offset.file_num) in
        let count : w.end_offset.file_num - m ≡ a + suc c = omega arith in
        let there : m + a ≡ n = omega arith in
        let rest = span f (n + 1) c in
        (
          rest ++ last,
          rw (count, span-add f m a (suc c), there, span-suc f n c)
              (append_assoc (span f m a) (content (f n) ++ rest) last
                ∙ ap (λ l. span f m a ++ l) (append_assoc (content (f n)) rest last)),
        )
    | no late ↦
        let same : w.end_offset.file_num ≡ n = omega arith in
        ([], rw (same, append-nil (content (f n))) refl)
  ]

  pub cut-IsLogOf :
      (offset cnt : ℕ)
      → s.end_offset.file_num ≤ n
      → n ≤ w.end_offset.file_num
      → p ≤ length (content (f n))
      → offset
        ≡ s.virtual_end + length (span f s.end_offset.file_num (n - s.end_offset.file_num)) + p
      → (let w' : EndInfo = record {
        end_offset = record { file_num = n; pos = p };
        virtual_end = offset;
        total_msg_cnt = cnt;
      } in
          IsLogOf (cut_files f n p) s w'
          × (log_of (cut_files f n p) s w' ≡ take (offset - s.virtual_end) (log_of f s w)))
  cut-IsLogOf offset cnt low high fits at =
      let f' = cut_files f n p in
      let pre = span f m (n - m) in
      let kept = take p (content (f n)) in
      let same : span f' m (n - m) ≡ pre =
        span_congr f' f m (n - m) (λ k from to. cut_before k (omega arith)) in
      let joined : span f' m (n - m) ++ content (f' n) ≡ pre ++ kept =
        rw (same, cut_here fits) refl in
      let size : length kept ≡ p = omega (arith, length-take p (content (f n))) in
      let (tail, split) = log_split low high in
      let far : offset - s.virtual_end ≡ length pre + p = omega arith in
      let cut : take (offset - s.virtual_end) (log_of f s w) ≡ pre ++ kept =
        rw
          (
            split,
            far,
            take_over pre (content (f n) ++ tail) p,
            take-append_le (content (f n)) tail p fits,
          )
          refl in
      (
        record {
          ordered = low;
          exact = rw (cut_here fits) size;
          placed = rw joined (omega (arith, length-append pre kept, size, at));
          present = λ k from to. rw (cut_before k to) (v.present k from (omega arith));
          ahead = cut_after low;
        },
        joined ∙ sym cut,
      )
