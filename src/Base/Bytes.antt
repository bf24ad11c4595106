-- ===== src/Base/Bytes.antt =====
-- Byte buffers: Go's slice expressions, which panic out of range, and big-endian words.
use Prim.Native.Nat.{ℕ, zero, suc, ◌+◌, ◌-◌, ◌*◌, ◌/◌, ◌%◌, ◌^◌, ◌≤◌, ◌<◌}
use mathlib.Core.Path.{◌≡◌, refl, sym, ap, ◌∙◌}
use mathlib.Core.Bool.{◌&&◌}
use mathlib.Core.List.{List, [], ◌∷◌, ◌++◌, append-nil}
use native.Mathlib.Omega.{arith}
use native.Mathlib.Nat.{pow-suc, div-lt_iff_lt-mul, div-add-mod'}
use nsq.Base.Tests.{leb, le→leb, lt→leb_false, if◌then◌else◌}
use nsq.Base.Lists.{length, take, drop, length-append}

-- How a call ends: a value, a returned error, or a run-time panic.
pub data Outcome {ℓ κ} (E : Type ℓ) (A : Type κ) : Type (ℓ ⊔ κ) where
  ok : A → Outcome E A
  err : E → Outcome E A
  panic : Outcome E A

infixl 5 ◌>>=◌
abbrev pub ◌>>=◌ {ℓ κ ι} :
    {E : Type ℓ} {A : Type κ} {B : Type ι} → Outcome E A → (A → Outcome E B) → Outcome E B
ok a >>= f = f a
err e >>= f = err e
panic >>= f = panic

module _ {ℓ} {A : Type ℓ} where
  take-length_append : (xs ys : List A) → take (length xs) (xs ++ ys) ≡ xs
  take-length_append [] ys = refl
  take-length_append (x ∷ xs) ys = ap (◌∷◌ x) (take-length_append xs ys)

  drop-length_append : (xs ys : List A) → drop (length xs) (xs ++ ys) ≡ ys
  drop-length_append [] ys = refl
  drop-length_append (x ∷ xs) ys = drop-length_append xs ys

module _ {ℓ κ} {E : Type ℓ} {A : Type κ} where
  -- b[lo:hi]
  pub slice : List A → ℕ → ℕ → Outcome E (List A)
  slice b lo hi = if leb lo hi && leb hi (length b) then ok (take (hi - lo) (drop lo b)) else panic

  -- The slice that covers one part of a buffer is that part.
  pub slice_part :
      (b pre mid post : List A) {lo hi : ℕ}
      → b ≡ pre ++ (mid ++ post)
      → lo ≡ length pre
      → hi ≡ lo + length mid
      → slice b lo hi ≡ ok mid
  unfolding slice
  slice_part b pre mid post {lo} {hi} e l h =
      let size : hi ≤ length b =
        rw e (omega (arith, length-append pre (mid ++ post), length-append mid post)) in
      let width : hi - lo ≡ length mid = omega arith in
      let rest : take (hi - lo) (drop lo b) ≡ mid =
        rw (width, e, l, drop-length_append pre (mid ++ post)) (take-length_append mid post) in
      rw (le→leb lo hi (omega arith), le→leb hi (length b) size, rest)

  -- b[lo:] is what follows the first part.
  pub slice_rest :
      (b pre post : List A) {lo : ℕ}
      → b ≡ pre ++ post
      → lo ≡ length pre
      → slice b lo (length b) ≡ ok post
  slice_rest b pre post e l =
      slice_part b pre post [] (e ∙ ap (λ x. pre ++ x) (sym (append-nil post))) l
        (rw (e, l) (length-append pre post))

  -- A slice whose upper bound lies below its lower bound panics.
  pub slice_reversed : (b : List A) (lo hi : ℕ) → hi < lo → slice b lo hi ≡ panic
  unfolding slice
  slice_reversed b lo hi h = rw (lt→leb_false lo hi h)

-- binary.BigEndian.PutUint16, PutUint32 and PutUint64: the low `k` bytes, the highest first.
pub put_be : ℕ → ℕ → List ℕ
put_be zero n = []
put_be (suc k) n = put_be k (n / 256) ++ (n % 256 ∷ [])

pub get_be_from : ℕ → List ℕ → ℕ
get_be_from acc [] = acc
get_be_from acc (x ∷ xs) = get_be_from (acc * 256 + x) xs

-- binary.BigEndian.Uint16, Uint32 and Uint64
pub get_be : List ℕ → ℕ
get_be = get_be_from 0

get_be_from-append :
    (acc : ℕ) (xs : List ℕ) (x : ℕ)
    → get_be_from acc (xs ++ (x ∷ [])) ≡ get_be_from acc xs * 256 + x
unfolding get_be_from
get_be_from-append acc [] x = refl
get_be_from-append acc (y ∷ xs) x = get_be_from-append (acc * 256 + y) xs x

pub length-put_be : (k n : ℕ) → length (put_be k n) ≡ k
unfolding put_be
length-put_be zero n = refl
length-put_be (suc k) n =
    omega (arith, length-append (put_be k (n / 256)) (n % 256 ∷ []), length-put_be k (n / 256))

-- Reading the bytes of a word that fits gives the word.
pub get_be-put_be : (k n : ℕ) → n < 256 ^ k → get_be (put_be k n) ≡ n
unfolding get_be put_be get_be_from
get_be-put_be zero n h = omega arith
get_be-put_be (suc k) n h =
    let below : n / 256 < 256 ^ k = (div-lt_iff_lt-mul (omega arith)).1 (rw pow-suc at h) in
    get_be_from-append 0 (put_be k (n / 256)) (n % 256)
    ∙ rw (get_be-put_be k (n / 256) below) (div-add-mod' n 256)

module _ {ℓ} {E : Type ℓ} where
  -- A big-endian word read from b[lo:hi].
  pub uint : List ℕ → ℕ → ℕ → Outcome E ℕ
  uint b lo hi = slice b lo hi >>= λ s. ok (get_be s)

  pub uint_part :
      (b pre : List ℕ) (k n : ℕ) (post : List ℕ) {lo hi : ℕ}
      → b ≡ pre ++ (put_be k n ++ post)
      → lo ≡ length pre
      → hi ≡ lo + k
      → n < 256 ^ k
      → uint b lo hi ≡ ok n
  unfolding uint
  uint_part b pre k n post {lo} {hi} e l h small =
      rw (slice_part {E = E} b pre (put_be k n) post {hi = hi} e l (rw length-put_be h))
        (ap ok (get_be-put_be k n small))

  -- b[i]
  pub byte : List ℕ → ℕ → Outcome E ℕ
  byte [] i = panic
  byte (x ∷ b) zero = ok x
  byte (x ∷ b) (suc i) = byte b i

  byte-length_append :
      (pre : List ℕ) (x : ℕ) (post : List ℕ) → byte (pre ++ (x ∷ post)) (length pre) ≡ ok x
  unfolding byte
  byte-length_append [] x post = refl
  byte-length_append (y ∷ pre) x post = byte-length_append pre x post

  pub byte_part :
      (b pre : List ℕ) (x : ℕ) (post : List ℕ) {i : ℕ}
      → b ≡ pre ++ (x ∷ post)
      → i ≡ length pre
      → byte b i ≡ ok x
  byte_part b pre x post e l = rw (e, l) (byte-length_append pre x post)
