-- ===== src/Prelude/Words.antt =====
-- `u64` arithmetic as a release build has it: it wraps.
use Prim.Native.Nat.{ℕ, ◌+◌, ◌-◌, ◌*◌, ◌%◌, ◌≤◌, ◌<◌}
use mathlib.Core.Path.{◌≡◌}
use native.Mathlib.Omega.{arith}

abbrev pub u64_mod : ℕ
u64_mod = 18446744073709551616

abbrev pub add64 : ℕ → ℕ → ℕ
add64 a b = (a + b) % u64_mod

abbrev pub sub64 : ℕ → ℕ → ℕ
sub64 a b = (a + (u64_mod - b)) % u64_mod

abbrev pub mul64 : ℕ → ℕ → ℕ
mul64 a b = (a * b) % u64_mod

pub add64-lt : (a b : ℕ) → a + b < u64_mod → add64 a b ≡ a + b
add64-lt a b h = omega arith

pub sub64-le : (a b : ℕ) → b ≤ a → a < u64_mod → sub64 a b ≡ a - b
sub64-le a b h k = omega arith
