-- ===== src/Prelude/Words.antt =====
-- `bit_and` and `bit_or` of numbers in two fields: the fields are combined one by one.
use Prim.Native.Nat.{
  ℕ, zero, suc, ◌+◌, ◌-◌, ◌*◌, ◌/◌, ◌%◌, ◌^◌, ◌≤◌, ◌<◌, min, max, digits, bit_and, bit_or,
  bit_and-bitwise, bit_or-bitwise,
}
use mathlib.Core.Path.{◌≡◌, refl, ap, ◌∙◌}
use native.Mathlib.Nat.{pow-suc}
use native.Mathlib.Omega.{arith}

-- More fuel than digits makes no difference.
module _ (rest : ℕ → ℕ) (op : ℕ → ℕ → ℕ) where
  digits_enough : (m n a b : ℕ) → a ≤ m → a ≤ n → digits rest op m a b ≡ digits rest op n a b
  digits_enough zero zero a b h k = refl
  digits_enough zero (suc n) zero b h k = refl
  digits_enough zero (suc n) (suc a) b h k = absurd (omega arith)
  digits_enough (suc m) zero zero b h k = refl
  digits_enough (suc m) zero (suc a) b h k = absurd (omega arith)
  digits_enough (suc m) (suc n) zero b h k = refl
  digits_enough (suc m) (suc n) (suc a) b h k =
      let higher = digits_enough m n (suc a / 2) (b / 2) (omega arith) (omega arith) in
      ap (λ (t : ℕ). t * 2 + op (suc a % 2) (b % 2)) higher

and_lowest : (a b : ℕ) → bit_and a b ≡ bit_and (a / 2) (b / 2) * 2 + min (a % 2) (b % 2)
and_lowest zero b = simp bit_and-bitwise (omega arith)
and_lowest (suc a) b =
    let same =
      digits_enough (λ y. 0) min a (suc a / 2) (suc a / 2) (b / 2) (omega arith) (omega arith) in
    simp bit_and-bitwise (omega (arith, same))

or_lowest : (a b : ℕ) → bit_or a b ≡ bit_or (a / 2) (b / 2) * 2 + max (a % 2) (b % 2)
or_lowest zero b = simp bit_or-bitwise (omega arith)
or_lowest (suc a) b =
    let same =
      digits_enough (λ y. y) max a (suc a / 2) (suc a / 2) (b / 2) (omega arith) (omega arith) in
    simp bit_or-bitwise (omega (arith, same))

twice : (q k : ℕ) → q * 2 ^ suc k ≡ 2 * (q * 2 ^ k)
twice q k = omega (arith, ap (λ (t : ℕ). q * t) (pow-suc 2 k))

-- What holds of an operation that works digit by digit.
module _ (whole op : ℕ → ℕ → ℕ) (none_left : whole 0 0 ≡ 0)
    (lowest : (a b : ℕ) → whole a b ≡ whole (a / 2) (b / 2) * 2 + op (a % 2) (b % 2)) where
  fields :
      (k q p r s : ℕ)
      → r < 2 ^ k
      → s < 2 ^ k
      → whole (q * 2 ^ k + r) (p * 2 ^ k + s) ≡ whole q p * 2 ^ k + whole r s
  fields zero q p r s hr hs =
      let er : r ≡ 0 = omega arith in
      let es : s ≡ 0 = omega arith in
      let eq : q * 2 ^ 0 + r ≡ q = omega arith in
      let ep : p * 2 ^ 0 + s ≡ p = omega arith in rw (eq, ep, er, es, none_left) (omega arith)
  fields (suc k) q p r s hr hs =
      let tq = twice q k in
      let tp = twice p k in
      let eq : (q * 2 ^ suc k + r) / 2 ≡ q * 2 ^ k + r / 2 = omega (arith, tq) in
      let ep : (p * 2 ^ suc k + s) / 2 ≡ p * 2 ^ k + s / 2 = omega (arith, tp) in
      let dq : (q * 2 ^ suc k + r) % 2 ≡ r % 2 = omega (arith, tq) in
      let dp : (p * 2 ^ suc k + s) % 2 ≡ s % 2 = omega (arith, tp) in
      let more = pow-suc 2 k in
      let rest = fields k q p (r / 2) (s / 2) (omega (arith, more)) (omega (arith, more)) in
      lowest (q * 2 ^ suc k + r) (p * 2 ^ suc k + s)
      ∙ rw (eq, ep, dq, dp, rest) (omega (arith, twice (whole q p) k, lowest r s))

-- The same for two numbers that are given as their fields.
pub bit_and_fields :
    (k q p r s : ℕ) {a b : ℕ}
    → a ≡ q * 2 ^ k + r
    → b ≡ p * 2 ^ k + s
    → r < 2 ^ k
    → s < 2 ^ k
    → bit_and a b ≡ bit_and q p * 2 ^ k + bit_and r s
bit_and_fields k q p r s ea eb hr hs =
    rw (ea, eb) (fields bit_and min refl and_lowest k q p r s hr hs)

pub bit_or_fields :
    (k q p r s : ℕ) {a b : ℕ}
    → a ≡ q * 2 ^ k + r
    → b ≡ p * 2 ^ k + s
    → r < 2 ^ k
    → s < 2 ^ k
    → bit_or a b ≡ bit_or q p * 2 ^ k + bit_or r s
bit_or_fields k q p r s ea eb hr hs = rw (ea, eb) (fields bit_or max refl or_lowest k q p r s hr hs)

or_zero_up_to : (n a : ℕ) → a ≤ n → bit_or a 0 ≡ a
or_zero_up_to n zero h = refl
or_zero_up_to zero (suc a) h = absurd (omega arith)
or_zero_up_to (suc n) (suc a) h =
    omega (arith, or_lowest (suc a) 0, or_zero_up_to n (suc a / 2) (omega arith))

pub bit_or-zero : (a : ℕ) → bit_or a 0 ≡ a
bit_or-zero a = or_zero_up_to a a (omega arith)

and_zero_up_to : (n a : ℕ) → a ≤ n → bit_and a 0 ≡ 0
and_zero_up_to n zero h = refl
and_zero_up_to zero (suc a) h = absurd (omega arith)
and_zero_up_to (suc n) (suc a) h =
    omega (arith, and_lowest (suc a) 0, and_zero_up_to n (suc a / 2) (omega arith))

pub bit_and-zero : (a : ℕ) → bit_and a 0 ≡ 0
bit_and-zero a = and_zero_up_to a a (omega arith)

-- A mask of ones keeps a number that fits.
pub bit_and-ones : (k a : ℕ) → a < 2 ^ k → bit_and a (2 ^ k - 1) ≡ a
bit_and-ones zero a h = let e : a ≡ 0 = omega arith in rw e refl
bit_and-ones (suc k) a h =
    let more = pow-suc 2 k in
    let half : (2 ^ suc k - 1) / 2 ≡ 2 ^ k - 1 = omega (arith, more) in
    let odd : (2 ^ suc k - 1) % 2 ≡ 1 = omega (arith, more) in
    let rest = bit_and-ones k (a / 2) (omega (arith, more)) in
    and_lowest a (2 ^ suc k - 1) ∙ rw (half, odd, rest) (omega arith)

pub zero-bit_or : (b : ℕ) → bit_or 0 b ≡ b
zero-bit_or b = simp bit_or-bitwise refl
