-- ===== src/Protocol.antt =====
-- internal/protocol/byte_base10.go: numbers in the text protocol.
mod Tests
use nsq.Base.{
  ℕ, ◌+◌, ◌-◌, ◌*◌, ◌%◌, ◌≤◌, ◌<◌, ◌≡◌, ◌⊎◌, inl, inr, refl, arith, Bool, true, false, ◌&&◌, List,
  [], ◌∷◌, leb, if◌then◌else◌, Bool-cases, u64_mod,
}

-- The loop, with `n` as it is when the bytes `b` are still to come. The flag is the error.
unfoldable pub base10_loop : List ℕ → ℕ → ℕ × Bool
base10_loop [] n = (n, false)
base10_loop (d ∷ b) n =
    let rest = base10_loop b ((n * 10 % u64_mod + (d - 48)) % u64_mod) in
    if leb 48 d && leb d 57 then rest else (0, true)

unfoldable pub byte_to_base10 : List ℕ → ℕ × Bool
byte_to_base10 b = base10_loop b 0

-- The digits that a byte string spells, and the number that they are, after one that was read.
abbrev pub AllDigits : List ℕ → Type 0
AllDigits [] = Unit {0}
AllDigits (d ∷ b) = ((48 ≤ d) × (d ≤ 57)) × AllDigits b

unfoldable pub decimal : List ℕ → ℕ → ℕ
decimal [] n = n
decimal (d ∷ b) n = decimal b (n * 10 + (d - 48))

base10_loop_correct :
    (b : List ℕ) (n : ℕ)
    → (AllDigits b × (base10_loop b (n % u64_mod) ≡ (decimal b n % u64_mod, false)))
      ⊎ (¬ AllDigits b × (base10_loop b (n % u64_mod) ≡ (0, true)))
unfolding base10_loop decimal
base10_loop_correct [] n = inl (tt, refl)
base10_loop_correct (d ∷ b) n =
    let wraps : (n % u64_mod * 10 % u64_mod + (d - 48)) % u64_mod ≡ (n * 10 + (d - 48)) % u64_mod =
      omega arith in
    elim (Bool-cases (leb 48 d && leb d 57)) [
      | inr other ↦ inr (λ h. ground (arith, h.0), rw other refl)
      | inl digit ↦
          let range : (48 ≤ d) × (d ≤ 57) = ground arith in
          elim (base10_loop_correct b (n * 10 + (d - 48))) [
            | inl (h, e) ↦ inl ((range, h), rw (digit, wraps) e)
            | inr (h, e) ↦ inr (λ g. h g.1, rw (digit, wraps) e)
          ]
    ]

-- ByteToBase10 on a string of decimal digits returns the number that they spell, modulo 2 ^ 64, and
-- no error. On any other string it returns 0 and an error.
pub byte_to_base10_correct :
    (b : List ℕ)
    → (AllDigits b × (byte_to_base10 b ≡ (decimal b 0 % u64_mod, false)))
      ⊎ (¬ AllDigits b × (byte_to_base10 b ≡ (0, true)))
unfolding byte_to_base10
byte_to_base10_correct b = base10_loop_correct b 0
