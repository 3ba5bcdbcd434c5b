-- ===== src/Prelude/Loops.antt =====
-- `for (k = i; k < i + n; k++) a[k] = body(k, a[k]);`
use Prim.Native.Nat.{ℕ, zero, suc, ◌+◌}
use mathlib.Core.Path.{◌≡◌}
use mathlib.Core.Bool.{◌&&◌}
use native.Mathlib.Omega.{arith}
use saturn_os.Prelude.Tests.{leb, ltb, if◌then◌else◌}
use saturn_os.Prelude.Arrays.{Array, update}

unfoldable pub map_range {ℓ} : {A : Type ℓ} → (ℕ → A → A) → ℕ → ℕ → Array A → Array A
map_range body zero i a = a
map_range body (suc n) i a = map_range body n (suc i) (update a i (body i (a i)))

-- Each round reads its own place only, so the loop changes each place of the range once.
pub map_range_lem {ℓ} :
    {A : Type ℓ} (body : ℕ → A → A) (n i : ℕ) (a : Array A) (j : ℕ)
    → map_range body n i a j ≡ (if leb i j && ltb j (i + n) then body j (a j) else a j)
unfolding map_range
map_range_lem body zero i a j = ground arith
map_range_lem body (suc n) i a j =
    ground (arith, map_range_lem body n (suc i) (update a i (body i (a i))) j)
