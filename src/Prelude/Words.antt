-- ===== src/Prelude/Words.antt =====
-- Machine words: `u64` and `usize` (64 bits on the gateway's hosts) and `u32`, with their
-- wrap-around. A release build of Rust wraps on overflow; a debug build stops there.
use Prim.Native.Nat.{ℕ, ◌+◌, ◌%◌, ◌<◌, ◌≤◌}
use mathlib.Core.Path.{◌≡◌}
use native.Mathlib.Omega.{arith}

abbrev pub u64_mod : ℕ
u64_mod = 18446744073709551616

abbrev pub u32_mod : ℕ
u32_mod = 4294967296

unfoldable pub add64 : ℕ → ℕ → ℕ
add64 a b = (a + b) % u64_mod

unfoldable pub add32 : ℕ → ℕ → ℕ
add32 a b = (a + b) % u32_mod

-- `n as u32`.
unfoldable pub as_u32 : ℕ → ℕ
as_u32 n = n % u32_mod

pub add64_lem : (a b : ℕ) → a + b < u64_mod → add64 a b ≡ a + b
unfolding add64
add64_lem a b h = omega arith

pub add32_lem : (a b : ℕ) → a + b < u32_mod → add32 a b ≡ a + b
unfolding add32
add32_lem a b h = omega arith

pub as_u32_lem : (n : ℕ) → n < u32_mod → as_u32 n ≡ n
unfolding as_u32
as_u32_lem n h = omega arith

pub as_u32-le : (n : ℕ) → as_u32 n ≤ n
unfolding as_u32
as_u32-le n = omega arith
