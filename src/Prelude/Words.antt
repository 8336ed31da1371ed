-- ===== src/Prelude/Words.antt =====
-- Unsigned C arithmetic: the wrap-around of uint8_t, uint32_t and uint64_t written out.
use Prim.Native.Nat.{ℕ, ◌+◌, ◌-◌, ◌%◌, ◌^◌}

abbrev pub wrap8 : ℕ → ℕ
wrap8 a = a % 256

abbrev pub wrap32 : ℕ → ℕ
wrap32 a = a % 2 ^ 32

abbrev pub wrap64 : ℕ → ℕ
wrap64 a = a % 2 ^ 64

-- `a - b` on uint32_t, for operands below 2 ^ 32
abbrev pub sub32 : ℕ → ℕ → ℕ
sub32 a b = (a + 2 ^ 32 - b) % 2 ^ 32

-- `a - b` on uint64_t and size_t, for operands below 2 ^ 64
abbrev pub sub64 : ℕ → ℕ → ℕ
sub64 a b = (a + 2 ^ 64 - b) % 2 ^ 64
