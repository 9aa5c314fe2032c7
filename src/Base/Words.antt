-- ===== src/Base/Words.antt =====
-- Unsigned machine words: `usize`, `u64` and `u32` with their wrap-around.
use Prim.Native.Nat.{ℕ, ◌+◌, ◌-◌, ◌%◌}
use f4kvs_lsm.Base.Tests.{ltb, if◌then◌else◌}

-- 2 ^ 64 and 2 ^ 32
abbrev pub u64_mod : ℕ
u64_mod = 18446744073709551616

abbrev pub u32_mod : ℕ
u32_mod = 4294967296

-- `a + b` on `usize` (64 bits) and `u64`
abbrev pub usize_add : ℕ → ℕ → ℕ
usize_add a b = (a + b) % u64_mod

-- `a - b` on `usize` and `u64`
abbrev pub usize_sub : ℕ → ℕ → ℕ
usize_sub a b = (a + u64_mod - b) % u64_mod

-- `a + b` and `a.saturating_add(b)` on `u32` and `u64`
abbrev pub u32_add : ℕ → ℕ → ℕ
u32_add a b = (a + b) % u32_mod

abbrev pub u64_saturating_add : ℕ → ℕ → ℕ
u64_saturating_add a b = if ltb (a + b) u64_mod then a + b else u64_mod - 1
