-- ===== src/DiskQueue/Writer/Log.antt =====
-- The queue as one log of bytes: the data files from the start of the queue, joined.
pub mod Cut
pub mod Append
pub mod Lost
pub mod Puts
pub mod Back
pub mod Reset
use nsq.Base.{
  ℕ, zero, suc, ◌+◌, ◌-◌, ◌≤◌, ◌<◌, ◌≡◌, ◌≢◌, inl, inr, refl, sym, ap, ◌∙◌, arith, Bool, true,
  false, Option, none, some, List, [], ◌∷◌, ◌++◌, length, take, drop, length-append, append_assoc,
  append-nil, ltb, ◌==◌, if◌then◌else◌, Bool-cases,
}
use nsq.DiskQueue.{EndInfo}
use nsq.DiskQueue.Writer.{DiskWriter, content, with_file, pad}

abbrev pub Files : Type 0
Files = ℕ → Option (List ℕ)

-- The bytes of `count` files, from one on.
unfoldable pub span : Files → (from count : ℕ) → List ℕ
span files from zero = []
span files from (suc count) = content (files from) ++ span files (from + 1) count

-- The bytes before the file of the end `w`, and up to it, from the start `s`.
abbrev pub before : Files → EndInfo → EndInfo → List ℕ
before files s w = span files s.end_offset.file_num (w.end_offset.file_num - s.end_offset.file_num)

abbrev pub log_of : Files → EndInfo → EndInfo → List ℕ
log_of files s w = before files s w ++ content (files w.end_offset.file_num)

-- The end is the end of its file and of the log. The files from the start up to that file are there,
-- and none after it.
pub record IsLogOf (files : Files) (s w : EndInfo) : Type 0 where
  pub ordered : s.end_offset.file_num ≤ w.end_offset.file_num
  pub exact : length (content (files w.end_offset.file_num)) ≡ w.end_offset.pos
  pub placed : w.virtual_end ≡ s.virtual_end + length (log_of files s w)
  pub present :
      (k : ℕ)
      → s.end_offset.file_num ≤ k
      → k < w.end_offset.file_num
      → (b : List ℕ) × (files k ≡ some b)
  pub ahead : (k : ℕ) → w.end_offset.file_num < k → files k ≡ none

abbrev pub log : DiskWriter → List ℕ
log d = log_of d.files d.queue_start d.write_end

abbrev pub IsLog : DiskWriter → Type 0
IsLog d = IsLogOf d.files d.queue_start d.write_end

pub span_congr :
    (f g : Files) (from count : ℕ)
    → ((k : ℕ) → from ≤ k → k < from + count → f k ≡ g k)
    → span f from count ≡ span g from count
unfolding span
span_congr f g from zero same = refl
span_congr f g from (suc count) same =
    rw
      (
        same from (omega arith) (omega arith),
        span_congr f g (from + 1) count (λ k low high. same k (omega arith) (omega arith)),
      )
      refl

pub span-add :
    (f : Files) (from a b : ℕ) → span f from (a + b) ≡ span f from a ++ span f (from + a) b
unfolding span
span-add f from zero b =
    let none_before : zero + b ≡ b = omega arith in
    let same : from + zero ≡ from = omega arith in rw (none_before, same) refl
span-add f from (suc a) b =
    let up : suc a + b ≡ suc (a + b) = omega arith in
    let over : from + 1 + a ≡ from + suc a = omega arith in
    rw (up, span-add f (from + 1) a b, over)
      (sym (append_assoc (content (f from)) (span f (from + 1) a) (span f (from + suc a) b)))

pub span-last :
    (f : Files) (from count : ℕ)
    → span f from (count + 1) ≡ span f from count ++ content (f (from + count))
unfolding span
span-last f from count = rw (span-add f from count 1, append-nil (content (f (from + count)))) refl

pub take_over : (xs ys : List ℕ) (n : ℕ) → take (length xs + n) (xs ++ ys) ≡ xs ++ take n ys
take_over [] ys n = let e : 0 + n ≡ n = omega arith in rw e refl
take_over (x ∷ xs) ys n =
    let e : suc (length xs) + n ≡ suc (length xs + n) = omega arith in
    rw (e, take_over xs ys n) refl

pub take-append_le : (xs ys : List ℕ) (n : ℕ) → n ≤ length xs → take n (xs ++ ys) ≡ take n xs
take-append_le xs ys zero h = refl
take-append_le [] ys (suc n) h = absurd (omega arith)
take-append_le (x ∷ xs) ys (suc n) h = rw (take-append_le xs ys n (omega arith)) refl

pub take_all : (xs : List ℕ) (n : ℕ) → length xs ≤ n → take n xs ≡ xs
take_all [] zero h = refl
take_all [] (suc n) h = refl
take_all (x ∷ xs) zero h = absurd (omega arith)
take_all (x ∷ xs) (suc n) h = rw (take_all xs n (omega arith)) refl

pub pad_inside : (n : ℕ) (old : List ℕ) → n ≤ length old → pad n old ≡ take n old
unfolding pad
pad_inside n old fits =
    let none_over : n - length old ≡ 0 = omega (arith, fits) in
    rw none_over (append-nil (take n old))

pub drop_all : (xs : List ℕ) (n : ℕ) → length xs ≤ n → drop n xs ≡ []
drop_all [] zero h = refl
drop_all [] (suc n) h = refl
drop_all (x ∷ xs) zero h = absurd (omega arith)
drop_all (x ∷ xs) (suc n) h = drop_all xs n (omega arith)

pub with_file_here : {A : Type 0} (f : ℕ → A) (n : ℕ) (b : A) → with_file f n b n ≡ b
with_file_here f n b = let e : (n == n) ≡ true = ground arith in rw e refl

pub with_file_other : {A : Type 0} (f : ℕ → A) (n k : ℕ) (b : A) → k ≢ n → with_file f n b k ≡ f k
with_file_other f n k b h = let e : (k == n) ≡ false = ground (arith, h) in rw e refl

-- A change of the last file leaves what is before it.
pub before-with_file :
    (f : Files) (s w : EndInfo) (b : Option (List ℕ))
    → s.end_offset.file_num ≤ w.end_offset.file_num
    → before (with_file f w.end_offset.file_num b) s w ≡ before f s w
before-with_file f s w b h =
    span_congr (with_file f w.end_offset.file_num b) f s.end_offset.file_num _
      (λ k low high. with_file_other f w.end_offset.file_num k b (λ e. omega arith))
