-- ===== src/Base/Numbers.antt =====
-- Machine words: the moduli, and wrapping addition on the unsigned types.
use Prim.Native.Nat.{ℕ, ◌+◌, ◌%◌}

abbrev pub u16_mod : ℕ
u16_mod = 65536

abbrev pub u32_mod : ℕ
u32_mod = 4294967296

abbrev pub u64_mod : ℕ
u64_mod = 18446744073709551616

abbrev pub add_u16 : ℕ → ℕ → ℕ
add_u16 a b = (a + b) % u16_mod
