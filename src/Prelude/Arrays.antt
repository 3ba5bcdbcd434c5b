-- ===== src/Prelude/Arrays.antt =====
-- A C array is a function of its index; a write replaces one place.
use Prim.Native.Nat.{ℕ}
use saturn_os.Prelude.Tests.{◌==◌, if◌then◌else◌}

abbrev pub Array {ℓ} : Type ℓ → Type ℓ
Array A = ℕ → A

abbrev pub update {ℓ} : {A : Type ℓ} → Array A → ℕ → A → Array A
update a i v j = if j == i then v else a j
