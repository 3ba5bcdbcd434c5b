-- ===== src/Prelude/Count.antt =====
-- How many of the first `n` places pass a test.
use Prim.Native.Nat.{ℕ, zero, suc, ◌+◌, ◌≤◌, ◌<◌}
use mathlib.Core.Path.{◌≡◌, refl}
use mathlib.Core.Logic.{◌≢◌, inl, inr}
use mathlib.Core.Bool.{Bool, true, false}
use native.Mathlib.Omega.{arith}
use saturn_os.Prelude.Tests.{◌==◌, Bool-cases, if◌then◌else◌}

abbrev pub bit : Bool → ℕ
bit b = if b then 1 else 0

unfoldable pub count : ℕ → (ℕ → Bool) → ℕ
count zero p = 0
count (suc n) p = bit (p n) + count n p

pub count-le : (n : ℕ) (p : ℕ → Bool) → count n p ≤ n
unfolding count
count-le zero p = omega arith
count-le (suc n) p = ground (arith, count-le n p)

pub count_same : (n : ℕ) (p q : ℕ → Bool) → ((i : ℕ) → i < n → p i ≡ q i) → count n p ≡ count n q
unfolding count
count_same zero p q h = refl
count_same (suc n) p q h =
    ground (arith, h n (omega arith), count_same n p q (λ i l. h i (omega arith)))

-- A change at one place moves the count by that place.
pub count_change :
    (n : ℕ) (p q : ℕ → Bool) (k : ℕ)
    → k < n
    → ((i : ℕ) → i ≢ k → q i ≡ p i)
    → count n q + bit (p k) ≡ count n p + bit (q k)
unfolding count
count_change zero p q k l h = absurd (omega arith)
count_change (suc n) p q k l h = elim (Bool-cases (n == k)) [
  | inl e ↦ ground (arith, count_same n p q (λ i a. ground (arith, h i (ground arith))))
  | inr e ↦ ground (arith, h n (ground arith), count_change n p q k (ground arith) h)
]

-- Where some place fails the test the count is short of `n`.
pub count_lt : (n : ℕ) (p : ℕ → Bool) (k : ℕ) → k < n → p k ≡ false → count n p < n
unfolding count
count_lt zero p k l e = absurd (omega arith)
count_lt (suc n) p k l e = elim (Bool-cases (n == k)) [
  | inl same ↦ ground (arith, count-le n p)
  | inr other ↦ ground (arith, count_lt n p k (ground arith) e)
]

-- Where some place passes it the count is positive.
pub count_pos : (n : ℕ) (p : ℕ → Bool) (k : ℕ) → k < n → p k ≡ true → 0 < count n p
unfolding count
count_pos zero p k l e = absurd (omega arith)
count_pos (suc n) p k l e = elim (Bool-cases (n == k)) [
  | inl same ↦ ground arith
  | inr other ↦ ground (arith, count_pos n p k (ground arith) e)
]

pub count_none : (n : ℕ) (p : ℕ → Bool) → ((i : ℕ) → i < n → p i ≡ false) → count n p ≡ 0
unfolding count
count_none zero p h = refl
count_none (suc n) p h =
    ground (arith, h n (omega arith), count_none n p (λ i l. h i (omega arith)))

pub count_all : (n : ℕ) (p : ℕ → Bool) → ((i : ℕ) → i < n → p i ≡ true) → count n p ≡ n
unfolding count
count_all zero p h = refl
count_all (suc n) p h = ground (arith, h n (omega arith), count_all n p (λ i l. h i (omega arith)))
