-- ===== src/Memory/Space/Examples.antt =====
-- The checks of user addresses at the regions of a new user space.
use saturn_os.Prelude.{ℕ, ◌<◌, ◌≡◌, ◌↔◌, ◌⊎◌, arith, true, false, some, word}
use saturn_os.Sched.Task.{AddressSpace, is_user_kind}
use saturn_os.Sched.Examples.{user_space}
use saturn_os.Memory.Space.{
  region_count, accessible, writable_by_user, address_space_user_range_valid,
  address_space_user_writable_range_valid, set_user_regions, set_user_region, clear_user_regions,
  cleared_region, data_start,
}
use saturn_os.Memory.Space.Ranges.{
  HasRegion, user_range_valid_iff, user_writable_range_valid_iff, set_user_regions-Rights,
  GivesRights,
}

abbrev new_space : AddressSpace
new_space = set_user_regions user_space

abbrev some_bytes : ℕ
some_bytes = 64

new_ends : (i : ℕ) → i < region_count → (new_space.user_regions i).end < word
unfolding set_user_regions set_user_region clear_user_regions cleared_region
new_ends i l = ground arith

user_range_valid_iff_example :
    (address_space_user_range_valid (some new_space) data_start some_bytes ≡ true) ↔ (
      (is_user_kind new_space.kind ≡ true)
      × ((some_bytes ≡ 0) ⊎ HasRegion accessible new_space data_start some_bytes))
user_range_valid_iff_example =
    user_range_valid_iff new_space data_start some_bytes (omega arith) (omega arith) new_ends

user_writable_range_valid_iff_example :
    (address_space_user_writable_range_valid (some new_space) data_start some_bytes ≡ true) ↔ (
      (is_user_kind new_space.kind ≡ true)
      × ((some_bytes ≡ 0) ⊎ HasRegion writable_by_user new_space data_start some_bytes))
user_writable_range_valid_iff_example =
    user_writable_range_valid_iff new_space data_start some_bytes (omega arith) (omega arith)
      new_ends

-- The first byte of the data.
set_user_regions-Rights_example : GivesRights (new_space.user_regions 1) true false
unfolding set_user_regions set_user_region clear_user_regions
set_user_regions-Rights_example =
    set_user_regions-Rights user_space 1 data_start (omega arith) (omega arith) (omega arith)
