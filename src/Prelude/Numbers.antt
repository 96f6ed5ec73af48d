-- ===== src/Prelude/Numbers.antt =====
-- Division and powers of two, in the form that the block arithmetic wants.
use Prim.Native.Nat.{ℕ, ◌+◌, ◌-◌, ◌*◌, ◌/◌, ◌^◌, ◌≤◌, ◌<◌}
use native.Mathlib.Nat.{
  le_trans, le-div_iff_mul-le, div-mul-le_self, one-le-pow, lt-div-mul-add, div-lt_iff_lt-mul,
}
use native.Mathlib.Omega.{arith}

pub pow_pos : (k : ℕ) → 0 < 2 ^ k
pow_pos k = one-le-pow k 2 (omega arith)

pub div_mono : (m a b : ℕ) → 0 < m → a ≤ b → a / m ≤ b / m
div_mono m a b p h = (le-div_iff_mul-le p).1 (le_trans (div-mul-le_self a m) h)

pub div-lt : (m a n : ℕ) → 0 < m → a < n * m → a / m < n
div-lt m a n p h = (div-lt_iff_lt-mul p).1 h

-- The number of blocks of size `m` that cover `a`: they do, and one less would not.
pub ceil_covers : (m a : ℕ) → 0 < m → a ≤ (a + m - 1) / m * m
ceil_covers m a p = omega (arith, lt-div-mul-add {a = a + m - 1} {b = m} p)

pub ceil_least : (m a : ℕ) → 0 < m → (a + m - 1) / m * m < a + m
ceil_least m a p = omega (arith, div-mul-le_self (a + m - 1) m)
