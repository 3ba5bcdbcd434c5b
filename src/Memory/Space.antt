-- ===== src/Memory/Space.antt =====
-- kernel/memory/address_space.c: the checks of the addresses that user tasks pass to the kernel, and
-- the regions of a user's address space.
pub mod Ranges
mod Examples
use Prim.Native.String.{String}
use saturn_os.Prelude.{
  ℕ, ◌+◌, ◌-◌, ◌^◌, Bool, true, false, not, ◌&&◌, ◌||◌, Option, none, some, ltb, leb, ◌==◌,
  if◌then◌else◌, Array, update, find_first, map_range, add64, bit_and, bit_or,
}
use saturn_os.Arch.Mmu.{
  normal_memory_attr, desc_ap_mask, desc_ap_ro_el0, desc_ap_rw_el0, desc_pxn, desc_uxn,
}
use saturn_os.Sched.Task.{AddressSpace, UserRegion, SpaceKind, is_user_kind}

abbrev pub region_count : ℕ
region_count = 3

abbrev pub code_start : ℕ
code_start = 0x00100000

abbrev pub code_end : ℕ
code_end = 0x00200000

abbrev pub data_start : ℕ
data_start = 0x00200000

abbrev pub data_end : ℕ
data_end = 0x00300000

abbrev pub user_stack_start : ℕ
user_stack_start = 0x3fff0000

abbrev pub user_stack_end : ℕ
user_stack_end = 0x40000000

abbrev pub is_named : Option String → Bool
is_named none = false
is_named (some name) = true

abbrev pub accessible : UserRegion → Bool
accessible r = is_named r.name && r.user_access

abbrev pub writable_by_user : UserRegion → Bool
writable_by_user r = accessible r && r.writable

abbrev pub covers : UserRegion → ℕ → ℕ → Bool
covers r address end = leb r.start address && leb end r.end

abbrev pub is_found : Option ℕ → Bool
is_found none = false
is_found (some i) = true

abbrev pub is_user_space : Option AddressSpace → Bool
is_user_space none = false
is_user_space (some space) = is_user_kind space.kind

-- The loop over the regions, for the test of one.
unfoldable pub some_region : (UserRegion → Bool) → AddressSpace → Bool
some_region test space = is_found (find_first (λ i. test (space.user_regions i)) region_count 0)

-- `none` is the null pointer.
unfoldable pub address_space_user_range_valid : Option AddressSpace → ℕ → ℕ → Bool
address_space_user_range_valid none address size = false
address_space_user_range_valid (some space) address size =
    if not (is_user_kind space.kind)
    then false
    else if size == 0
    then true
    else if ltb (add64 address size) address
    then false
    else some_region (λ r. accessible r && covers r address (add64 address size)) space

unfoldable pub address_space_user_writable_range_valid : Option AddressSpace → ℕ → ℕ → Bool
address_space_user_writable_range_valid none address size = false
address_space_user_writable_range_valid (some space) address size =
    if not (is_user_kind space.kind) || (size == 0)
    then (size == 0) && is_user_kind space.kind
    else if ltb (add64 address size) address
    then false
    else some_region (λ r. writable_by_user r && covers r address (add64 address size)) space

unfoldable pub cleared_region : UserRegion
cleared_region = record {
  name = none;
  start = 0;
  end = 0;
  attributes = 0;
  user_access = false;
  writable = false;
  executable = false;
}

unfoldable pub clear_user_regions : AddressSpace → AddressSpace
clear_user_regions space = record space {
  user_regions = map_range (λ i r. cleared_region) region_count 0 space.user_regions;
}

unfoldable pub set_user_region :
    AddressSpace → ℕ → Option String → ℕ → ℕ → ℕ → Bool → Bool → AddressSpace
set_user_region space index name start end attributes writable executable =
    if leb region_count index then space else record space {
      user_regions = update space.user_regions index (record {
        name = name;
        start = start;
        end = end;
        attributes = attributes;
        user_access = true;
        writable = writable;
        executable = executable;
      });
    }

-- `ARM64_NORMAL_MEMORY_ATTR & ~ARM64_DESC_AP_MASK`
abbrev pub without_access : ℕ
without_access = bit_and normal_memory_attr (2 ^ 64 - 1 - desc_ap_mask)

abbrev pub user_code_attr : ℕ
user_code_attr = bit_or (bit_or without_access desc_ap_ro_el0) desc_pxn

abbrev pub user_data_attr : ℕ
user_data_attr = bit_or (bit_or (bit_or without_access desc_ap_rw_el0) desc_pxn) desc_uxn

abbrev pub user_stack_attr : ℕ
user_stack_attr = user_data_attr

-- The part of `address_space_init_user` that lays out the three regions.
unfoldable pub set_user_regions : AddressSpace → AddressSpace
set_user_regions space =
    set_user_region
      (set_user_region
        (set_user_region (clear_user_regions space) 0 (some "code") code_start code_end
          user_code_attr false true)
        1 (some "data") data_start data_end user_data_attr true false)
      2 (some "stack") user_stack_start user_stack_end user_stack_attr true false

unfoldable pub region_is_valid : UserRegion → Bool → Bool → Bool
region_is_valid r want_writable want_executable =
    is_named r.name
    && r.user_access
    && ltb r.start r.end
    && same r.writable want_writable
    && same r.executable want_executable
  where
    same : Bool → Bool → Bool
    same true b = b
    same false b = not b
