-- ===== src/Fs/Paths/Laws.antt =====
-- Facts about paths: equality, the parent, and what is below what.
use saturn_os.Prelude.{
  ℕ, zero, suc, ◌+◌, ◌≡◌, ◌≢◌, refl, subst, sym, inl, inr, ◌⊎◌, true, [], ◌∷◌, arith, ◌==◌,
  Bool-cases,
}
use saturn_os.Fs.Paths.{
  FilePath, slash, take, path_equals, last_slash, last_slash_from, parent_path, is_below,
}

pub path_equals_self : (p : FilePath) → path_equals p p ≡ true
path_equals_self [] = refl
path_equals_self (c ∷ p) = ground (arith, path_equals_self p)

pub eq_of_path_equals : (p q : FilePath) → path_equals p q ≡ true → p ≡ q
eq_of_path_equals [] [] h = refl
eq_of_path_equals [] (d ∷ q) h = cc
eq_of_path_equals (c ∷ p) [] h = cc
eq_of_path_equals (c ∷ p) (d ∷ q) h = ground (arith, eq_of_path_equals p q)

-- The byte at a place, 0 behind the end.
abbrev pub byte_at : FilePath → ℕ → ℕ
byte_at [] i = 0
byte_at (c ∷ cs) zero = c
byte_at (c ∷ cs) (suc i) = byte_at cs i

-- The loop ends with the last slash of the rest, or with what it had.
last_slash_from_lem :
    (cs : FilePath) (i last : ℕ)
    → (last_slash_from cs i last ≡ last)
      ⊎ ((k : ℕ) × (last_slash_from cs i last ≡ i + k) × (byte_at cs k ≡ slash))
unfolding last_slash_from
last_slash_from_lem [] i last = inl refl
last_slash_from_lem (c ∷ cs) i last = elim (Bool-cases (c == slash)) [
  | inl hit ↦ rw hit (elim (last_slash_from_lem cs (suc i) i) [
    | inl e ↦ inr (0, omega (arith, e), ground arith)
    | inr (k, e, at) ↦ inr (suc k, omega (arith, e), at)
  ])
  | inr miss ↦ rw miss (elim (last_slash_from_lem cs (suc i) last) [
    | inl e ↦ inl e
    | inr (k, e, at) ↦ inr (suc k, omega (arith, e), at)
  ])
]

is_below-take : (cs : FilePath) (k : ℕ) → byte_at cs k ≡ slash → is_below (take k cs) cs ≡ true
is_below-take [] k h = absurd (omega arith)
is_below-take (c ∷ cs) zero h = ground arith
is_below-take (c ∷ cs) (suc k) h = ground (arith, is_below-take cs k h)

-- A path with more than the leading slash is below its parent.
pub is_below-parent_path :
    (path : FilePath) → last_slash path ≢ 0 → is_below (parent_path path) path ≡ true
unfolding last_slash parent_path
is_below-parent_path path h = elim (last_slash_from_lem path 0 0) [
  | inl e ↦ absurd (h e)
  | inr (k, e, at) ↦
      let same : last_slash_from path 0 0 ≡ k = omega arith in
      subst (λ n. is_below (take n path) path ≡ true) (sym same) (is_below-take path k at)
]
