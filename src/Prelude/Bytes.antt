-- ===== src/Prelude/Bytes.antt =====
-- Little-endian numbers in arrays of bytes, and C strings in arrays of characters.
use Prim.Native.Nat.{ℕ, zero, suc, ◌+◌, ◌*◌, ◌/◌, ◌%◌, ◌^◌, ◌≤◌, ◌<◌}
use mathlib.Core.Path.{◌≡◌, ap, ◌∙◌, refl}
use mathlib.Core.Bool.{false}
use mathlib.Core.List.{List, [], ◌∷◌}
use native.Mathlib.Omega.{arith}
use saturn_os.Prelude.Tests.{◌==◌, if◌then◌else◌}
use saturn_os.Prelude.Arrays.{Array}

-- The byte `k` of a number, the lowest first, for `k` below 4.
abbrev pub byte_of : ℕ → ℕ → ℕ
byte_of v k =
    if k == 0
    then v % 256
    else if k == 1
    then v / 256 % 256
    else if k == 2
    then v / 65536 % 256
    else v / 16777216 % 256

abbrev pub word32_at : Array ℕ → ℕ → ℕ
word32_at a i =
    a i % 256 + a (i + 1) % 256 * 256 + a (i + 2) % 256 * 65536 + a (i + 3) % 256 * 16777216

pub word32-bytes :
    (a : Array ℕ) (i v : ℕ)
    → v < 2 ^ 32
    → ((k : ℕ) → k < 4 → a (i + k) ≡ byte_of v k)
    → word32_at a i ≡ v
word32-bytes a i v h e =
    let e0 : a i ≡ v % 256 = ap a (omega arith) ∙ e 0 (omega arith) in
    let e1 : a (i + 1) ≡ v / 256 % 256 = e 1 (omega arith) in
    let e2 : a (i + 2) ≡ v / 65536 % 256 = e 2 (omega arith) in
    let e3 : a (i + 3) ≡ v / 16777216 % 256 = e 3 (omega arith) in omega (arith, e0, e1, e2, e3)

-- The characters from `i` on before the first zero, at most `n` of them.
unfoldable pub text_from : ℕ → Array ℕ → ℕ → List ℕ
text_from zero a i = []
text_from (suc n) a i = let rest = text_from n a (suc i) in if a i == 0 then [] else a i ∷ rest

abbrev pub string_length : List ℕ → ℕ
string_length [] = 0
string_length (c ∷ cs) = suc (string_length cs)

-- The character at a place, 0 behind the end.
abbrev pub char_at : List ℕ → ℕ → ℕ
char_at [] i = 0
char_at (c ∷ cs) zero = c
char_at (c ∷ cs) (suc i) = char_at cs i

-- No character of the string is the zero that ends it.
abbrev pub IsString : List ℕ → Type 0
IsString [] = Unit {0}
IsString (c ∷ cs) = ((c == 0) ≡ false) × IsString cs

pub text_from-string :
    (n : ℕ) (a : Array ℕ) (i : ℕ) (s : List ℕ)
    → IsString s
    → string_length s < n
    → ((j : ℕ) → j ≤ string_length s → a (i + j) ≡ char_at s j)
    → text_from n a i ≡ s
unfolding text_from
text_from-string zero a i s ok l h = absurd (omega arith)
text_from-string (suc n) a i [] ok l h = let e = h 0 (omega arith) in ground arith
text_from-string (suc n) a i (c ∷ cs) (c0, ok) l h =
    let e : a i ≡ c = ap a (omega arith) ∙ h 0 (omega arith) in
    let rest =
      text_from-string n a (suc i) cs ok (omega arith)
        (λ j p. ap a (omega arith) ∙ h (suc j) (omega arith)) in
    ground (arith, rest)

pub text_from_same :
    (n : ℕ) (a b : Array ℕ) (i : ℕ)
    → ((j : ℕ) → i ≤ j → j < i + n → a j ≡ b j)
    → text_from n a i ≡ text_from n b i
unfolding text_from
text_from_same zero a b i same = λ k. []
text_from_same (suc n) a b i same =
    let first = same i (omega arith) (omega arith) in
    let rest = text_from_same n a b (suc i) (λ j l m. same j (omega arith) (omega arith)) in
    rw (first, rest) refl
