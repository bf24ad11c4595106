-- ===== src/Placement/Cycle.antt =====
-- Counting the numbers below a bound that have a given remainder.
use native.Mathlib.Nat.{
  div-add-mod, div-eq_of_lt, mod-eq_of_lt, mod-lt, mul-add-div, mul-add-mod_self_left,
  add-div_right, add-mod_right, zero-div, zero-mod, mod-add-mod,
}
use nsq.Base.{
  ℕ, ◌+◌, ◌-◌, ◌*◌, ◌/◌, ◌%◌, ◌≤◌, ◌<◌, ◌≡◌, ◌≢◌, ◌⊎◌, inl, inr, sym, ap, ◌∙◌, arith, ltb, ◌==◌,
  if◌then◌else◌, dec_lt,
}

div-one : (n : ℕ) → 0 < n → n / n ≡ 1
div-one n pos = ap (λ x. x / n) (omega arith) ∙ (add-div_right 0 pos ∙ ap (λ x. x + 1) (zero-div n))

mod-none : (n : ℕ) → n % n ≡ 0
mod-none n = ap (λ x. x % n) (omega arith) ∙ (add-mod_right 0 n ∙ zero-mod n)

-- One further: in the same round, or the first of the next.
next_in_round :
    (n i : ℕ)
    → 0 < n
    → ((i % n + 1 < n) × ((i + 1) / n ≡ i / n) × ((i + 1) % n ≡ i % n + 1))
      ⊎ ((i % n + 1 ≡ n) × ((i + 1) / n ≡ i / n + 1) × ((i + 1) % n ≡ 0))
next_in_round n i pos =
    let e = div-add-mod i n in
    let e' : i + 1 ≡ n * (i / n) + (i % n + 1) = omega (arith, e) in
    let below = mod-lt i pos in
    elim (dec_lt (i % n + 1) n) [
      | yes lt ↦ inl (
        lt,
        ap (λ x. x / n) e' ∙ (mul-add-div pos (i / n) (i % n + 1) ∙ omega (arith, div-eq_of_lt lt)),
        ap (λ x. x % n) e' ∙ (mul-add-mod_self_left n (i / n) (i % n + 1) ∙ mod-eq_of_lt lt),
      )
      | no ge ↦
          let last : i % n + 1 ≡ n = omega (arith, ge, below) in
          inr (
            last,
            ap (λ x. x / n) (e' ∙ ap (λ r. n * (i / n) + r) last)
                ∙ (mul-add-div pos (i / n) n ∙ ap (λ x. i / n + x) (div-one n pos)),
            ap (λ x. x % n) (e' ∙ ap (λ r. n * (i / n) + r) last)
                ∙ (mul-add-mod_self_left n (i / n) n ∙ mod-none n),
          )
    ]

-- How many of the numbers below `i` have the remainder `k`.
abbrev pub passed : (n k i : ℕ) → ℕ
passed n k i = i / n + (if ltb k (i % n) then 1 else 0)

pub passed-step :
    (n k i : ℕ) → k < n → passed n k (i + 1) ≡ passed n k i + (if k == i % n then 1 else 0)
passed-step n k i below = elim (next_in_round n i (omega (arith, below))) [
  | inl (lt, d, m) ↦ rw (d, m) (ground arith)
  | inr (last, d, m) ↦ rw (d, m) (ground (arith, last, below))
]

pub passed_close : (n j k i : ℕ) → passed n j i ≤ passed n k i + 1
passed_close n j k i = ground arith

-- Two numbers less than a round apart have other remainders.
pub remainders_differ : (n i d : ℕ) → d + 1 < n → i % n ≢ (i + 1 + d) % n
remainders_differ n i d lt q =
    let r : i % n < n = mod-lt i (omega (arith, lt)) in
    let e : (i % n + (d + 1)) % n ≡ i % n =
      mod-add-mod i n (d + 1) ∙ (ap (λ x. x % n) (omega arith) ∙ sym q) in
    elim (dec_lt (i % n + (d + 1)) n) [
      | yes small ↦ omega (arith, mod-eq_of_lt small, e)
      | no big ↦
          let over : i % n + (d + 1) ≡ n * 1 + (i % n + (d + 1) - n) = omega (arith, big) in
          let less = mod-eq_of_lt {n = i % n + (d + 1) - n} {m = n} (omega (arith, lt, r)) in
          let back =
            ap (λ x. x % n) over ∙ (mul-add-mod_self_left n 1 (i % n + (d + 1) - n) ∙ less) in
          omega (arith, back, e, lt, r)
    ]
