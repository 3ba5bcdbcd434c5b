-- ===== src/Memory/Pmm/Bits.antt =====
-- The bit operations of the page bitmap, by evaluation over all bytes and bit positions.
use saturn_os.Prelude.{
  ℕ, ◌+◌, ◌*◌, ◌/◌, ◌%◌, ◌<◌, ◌≡◌, refl, Bool, true, false, not, ◌&&◌, ◌||◌, arith, ltb, ◌==◌,
  subst, none, find_first, Finds, find_first-Finds,
}
use saturn_os.Memory.Pmm.{byte_test, byte_set, byte_clear}

abbrev same : Bool → Bool → Bool
same true b = b
same false b = not b

-- A search for a failure that finds none checks every number below the bound.
no_failure :
    (test : ℕ → Bool) (n x : ℕ) → find_first (λ i. not (test i)) n 0 ≡ none → x < n → test x ≡ true
no_failure test n x e h =
    let passes =
      subst (Finds (λ i. not (test i)) n 0) e (find_first-Finds (λ i. not (test i)) n 0) in
    ground (arith, passes x (omega arith) (omega arith))

good_at : ℕ → ℕ → ℕ → Bool
good_at b k j =
    same (byte_test (byte_set b k) j) ((j == k) || byte_test b j)
    && same (byte_test (byte_clear b k) j) (not (j == k) && byte_test b j)
    && ltb (byte_set b k) 256
    && ltb (byte_clear b k) 256

-- The place `x` stands for the byte `x / 64` and two bit positions.
good : ℕ → Bool
unfolding good_at
good x = good_at (x / 64) (x / 8 % 8) (x % 8)

good_table : find_first (λ x. not (good x)) 16384 0 ≡ none
unfolding find_first good byte_test byte_set byte_clear
good_table = refl

module _ (b k j : ℕ) (hb : b < 256) (hk : k < 8) (hj : j < 8) where
  place : good_at b k j ≡ true
  unfolding good
  place =
      let eb : (b * 64 + k * 8 + j) / 64 ≡ b = omega arith in
      let ek : (b * 64 + k * 8 + j) / 8 % 8 ≡ k = omega arith in
      let ej : (b * 64 + k * 8 + j) % 8 ≡ j = omega arith in
      subst (λ x. good_at x k j ≡ true) eb
        (subst (λ x. good_at ((b * 64 + k * 8 + j) / 64) x j ≡ true) ek
          (subst (λ x. good_at ((b * 64 + k * 8 + j) / 64) ((b * 64 + k * 8 + j) / 8 % 8) x ≡ true)
            ej (no_failure good 16384 (b * 64 + k * 8 + j) good_table (omega arith))))

  pub test-set : byte_test (byte_set b k) j ≡ ((j == k) || byte_test b j)
  unfolding good_at
  test-set = ground (arith, place)

  pub test-clear : byte_test (byte_clear b k) j ≡ (not (j == k) && byte_test b j)
  unfolding good_at
  test-clear = ground (arith, place)

  pub set_bound : byte_set b k < 256
  unfolding good_at
  set_bound = ground (arith, place)

  pub clear_bound : byte_clear b k < 256
  unfolding good_at
  clear_bound = ground (arith, place)

test_empty_table : find_first (λ k. not (not (byte_test 0 k))) 8 0 ≡ none
unfolding find_first byte_test
test_empty_table = refl

pub test_empty : (k : ℕ) → k < 8 → byte_test 0 k ≡ false
test_empty k h = ground (arith, no_failure (λ k. not (byte_test 0 k)) 8 k test_empty_table h)
