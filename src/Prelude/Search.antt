-- ===== src/Prelude/Search.antt =====
-- `for (i = start; i < start + n; i++) if (test(i)) return i;`
use Prim.Native.Nat.{ℕ, zero, suc, ◌+◌, ◌≤◌, ◌<◌, compare, Ordering}
use mathlib.Core.Path.{◌≡◌, refl, ap, ◌∙◌}
use mathlib.Core.Logic.{inl, inr}
use mathlib.Core.Bool.{Bool, true, false}
use mathlib.Core.Option.{Option, none, some}
use native.Mathlib.Omega.{arith}
use saturn_os.Prelude.Tests.{◌==◌, Bool-cases}

unfoldable pub find_first : (ℕ → Bool) → ℕ → ℕ → Option ℕ
find_first test zero i = none
find_first test (suc n) i = elim (test i) [ true ↦ some i | false ↦ find_first test n (suc i) ]

-- What a search from `start` over `n` places promises of its result.
abbrev pub Finds : (ℕ → Bool) → ℕ → ℕ → Option ℕ → Type 0
Finds test n start none = (j : ℕ) → start ≤ j → j < start + n → test j ≡ false
Finds test n start (some i) =
    (test i ≡ true) × (start ≤ i) × (i < start + n) × ((j : ℕ) → start ≤ j → j < i → test j ≡ false)

Finds-step :
    (test : ℕ → Bool) (n start : ℕ) (r : Option ℕ)
    → test start ≡ false
    → Finds test n (suc start) r
    → Finds test (suc n) start r
Finds-step test n start none miss f = λ j a b. elim (Bool-cases (j == start)) [
  | inl e ↦ ground arith
  | inr e ↦ f j (ground arith) (omega arith)
]
Finds-step test n start (some i) miss (hit, a, b, c) =
    (hit, omega arith, omega arith, λ j p q. first j p q)
  where
    first : (j : ℕ) → start ≤ j → j < i → test j ≡ false
    first j p q = elim (Bool-cases (j == start)) [
      | inl e ↦ ground arith
      | inr e ↦ c j (ground arith) q
    ]

pub find_first-Finds :
    (test : ℕ → Bool) (n start : ℕ) → Finds test n start (find_first test n start)
unfolding find_first
find_first-Finds test zero start = λ j a b. absurd (omega arith)
find_first-Finds test (suc n) start = elim (Bool-cases (test start)) [
  | inl hit ↦ rw (hit, find_first) (hit, omega arith, omega arith, λ j a b. absurd (omega arith))
  | inr miss ↦
      rw (miss, find_first)
        (Finds-step test n start (find_first test n (suc start)) miss
          (find_first-Finds test n (suc start)))
]

pub find_first-first :
    (test : ℕ → Bool) (n i : ℕ)
    → i < n
    → test i ≡ true
    → ((j : ℕ) → j < i → test j ≡ false)
    → find_first test n 0 ≡ some i
find_first-first test n i l hit before = go (find_first test n 0) (find_first-Finds test n 0)
  where
    go : (r : Option ℕ) → Finds test n 0 r → r ≡ some i
    go none f = let miss = f i (omega arith) (omega arith) in absurd (ground arith)
    go (some k) (at, low, inside, first) =
        elim (compare k i) as (λ o. compare k i ≡ o → some k ≡ some i) [
          | Ordering.lt ↦ λ e. let miss = before k (ground arith) in absurd (ground arith)
          | Ordering.eq ↦ λ e. ap some (ground arith)
          | Ordering.gt ↦
              λ e. let miss = first i (omega arith) (ground arith) in absurd (ground arith)
        ]
          refl

pub find_first_same :
    (test test' : ℕ → Bool) (n i : ℕ)
    → ((j : ℕ) → i ≤ j → j < i + n → test j ≡ test' j)
    → find_first test n i ≡ find_first test' n i
unfolding find_first
find_first_same test test' zero i same = refl
find_first_same test test' (suc n) i same =
    let first = same i (omega arith) (omega arith) in
    let rest = find_first_same test test' n (suc i) (λ j l m. same j (omega arith) (omega arith)) in
    elim (Bool-cases (test' i)) [
      | inl hit ↦ rw (first ∙ hit, hit, find_first) refl
      | inr miss ↦ rw (first ∙ miss, miss, find_first) rest
    ]
