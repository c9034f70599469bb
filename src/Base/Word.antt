-- ===== src/Base/Word.antt =====
-- `uint32` counters, as numbers below 2^32.
use Prim.Native.Nat.{ℕ, ◌+◌, ◌-◌, ◌%◌}

abbrev pub u32_mod : ℕ
u32_mod = 4294967296

-- `v + 1`, `v - 1` and `a - b` of a `uint32`; `int32` shares them, read as bit patterns.
abbrev pub inc32 : ℕ → ℕ
inc32 v = (v + 1) % u32_mod

abbrev pub dec32 : ℕ → ℕ
dec32 v = (v + (u32_mod - 1)) % u32_mod

abbrev pub sub32 : ℕ → ℕ → ℕ
sub32 a b = (a + u32_mod - b) % u32_mod
