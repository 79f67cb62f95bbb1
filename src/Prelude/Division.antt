-- ===== src/Prelude/Division.antt =====
-- Division of native numbers is monotone.
use Prim.Native.Nat.{ℕ, ◌/◌, ◌≤◌, ◌<◌}
use native.Mathlib.Nat.{le-div_iff_mul-le, div-mul-le_self, le_trans}

pub div_mono : (x y k : ℕ) → 0 < k → x ≤ y → x / k ≤ y / k
div_mono x y k h le = (le-div_iff_mul-le h).1 (le_trans (div-mul-le_self x k) le)
