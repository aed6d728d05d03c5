-- ===== src/Prelude/Rounding.antt =====
-- Times rounded down to a multiple.
use native.Mathlib.Nat.{mul-le-mul_right, le-div_iff_mul-le}
use Prim.Native.Nat.{ℕ, suc, ◌+◌, ◌-◌, ◌*◌, ◌/◌, ◌%◌, ◌≤◌, ◌<◌}
use mathlib.Core.Path.{◌≡◌}
use native.Mathlib.Omega.{arith}

pub round-monotone : (x y c : ℕ) → 0 < c → x ≤ y → x / c * c ≤ y / c * c
round-monotone x y c p h = grind arith

pub round_down : (x c : ℕ) → x / c * c ≤ x
round_down x c = grind arith

-- From the last part of a multiple, one part more is in a later multiple.
pub round_past :
    (x y c part : ℕ)
    → 0 < c
    → x % c ≡ c - part
    → part ≤ c
    → x + part ≤ y
    → x / c * c + c ≤ y / c * c
round_past x y c part p last small h =
    let past : suc (x / c) * c ≤ y = grind arith in
    omega
      (arith, mul-le-mul_right c ((le-div_iff_mul-le {k = c} {x = suc (x / c)} {y = y} p).1 past))
