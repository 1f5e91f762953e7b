-- ===== src/Prelude/Int.antt =====
-- Whole numbers, as the program's number inputs may be negative.
use Prim.Native.Nat.{ℕ, ◌≤◌}
use mathlib.Core.Path.{◌≡◌}
use mathlib.Core.Bool.{Bool, true, false, ◌&&◌}
use native.Mathlib.Omega.{arith}
use block_feed_prototype.Prelude.Tests.{leb}

-- `negsuc n` is -(n + 1).
pub data ℤ : Type 0 where
  pos : ℕ → ℤ
  negsuc : ℕ → ℤ

-- Whether a number lies between two natural bounds.
abbrev pub between : ℕ → ℕ → ℤ → Bool
between lo hi (pos n) = leb lo n && leb n hi
between lo hi (negsuc n) = false

abbrev pub Between : ℕ → ℕ → ℤ → Type 0
Between lo hi (pos n) = (lo ≤ n) × (n ≤ hi)
Between lo hi (negsuc n) = ⊥

pub between-Between : (lo hi : ℕ) (z : ℤ) → between lo hi z ≡ true → Between lo hi z
between-Between lo hi (pos n) h = ground arith
between-Between lo hi (negsuc n) h = ground arith
