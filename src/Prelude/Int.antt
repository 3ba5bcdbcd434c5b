-- ===== src/Prelude/Int.antt =====
-- The values of a C `int` that the kernel passes: process ids, and -1 for an error or for none.
use Prim.Native.Nat.{ℕ}
use mathlib.Core.Bool.{Bool, false}
use saturn_os.Prelude.Tests.{◌==◌}

-- `negsuc n` is -(n + 1).
pub data ℤ : Type 0 where
  pos : ℕ → ℤ
  negsuc : ℕ → ℤ

abbrev pub minus_one : ℤ
minus_one = negsuc 0

-- Whether an `int` equals a number that is not negative.
abbrev pub int_is : ℤ → ℕ → Bool
int_is (pos m) n = m == n
int_is (negsuc m) n = false
