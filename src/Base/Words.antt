-- ===== src/Base/Words.antt =====
-- Rust's `u64::saturating_add`; `saturating_sub` is the truncated `-` of the native numbers.
use Prim.Native.Nat.{ℕ, ◌+◌, ◌≤◌, min}
use mathlib.Core.Path.{◌≡◌}
use native.Mathlib.Omega.{arith}

abbrev pub u64_max : ℕ
u64_max = 18446744073709551615

abbrev pub saturating_add : ℕ → ℕ → ℕ
saturating_add a b = min (a + b) u64_max

pub saturating_add_exact : (a b : ℕ) → a + b ≤ u64_max → saturating_add a b ≡ a + b
saturating_add_exact a b h = omega arith
