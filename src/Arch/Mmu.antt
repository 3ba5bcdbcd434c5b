-- ===== src/Arch/Mmu.antt =====
-- arch/arm64/mmu.c and mmu.h: indices into the page tables, and descriptors, as 64-bit numbers.
pub mod Descriptors
pub mod Encoding
mod Examples
use saturn_os.Prelude.{
  ℕ, ◌+◌, ◌-◌, ◌*◌, ◌/◌, ◌^◌, Bool, true, false, not, ◌||◌, ◌==◌, if◌then◌else◌, bit_and, bit_or,
}
use Prim.Native.String.{String}

abbrev pub page_size : ℕ
page_size = 2 ^ 12

abbrev pub table_entries : ℕ
table_entries = 512

abbrev pub table_size : ℕ
table_size = table_entries * 8

abbrev pub l2_block_size : ℕ
l2_block_size = 2 ^ 21

-- `~(size - 1)` of an unsigned long.
abbrev pub mask_down : ℕ → ℕ
mask_down size = 2 ^ 64 - 1 - (size - 1)

abbrev pub desc_valid : ℕ
desc_valid = 1

abbrev pub desc_table : ℕ
desc_table = 2

abbrev pub desc_addr_mask : ℕ
desc_addr_mask = 0x0000fffffffff000

abbrev pub desc_l2_block_addr_mask : ℕ
desc_l2_block_addr_mask = 0x0000ffffffe00000

abbrev pub desc_l3_page_addr_mask : ℕ
desc_l3_page_addr_mask = 0x0000fffffffff000

abbrev pub desc_block : ℕ
desc_block = desc_valid

abbrev pub desc_page : ℕ
desc_page = bit_or desc_valid desc_table

-- `ARM64_DESC_ATTR_INDEX(index)`
abbrev pub desc_attr_index : ℕ → ℕ
desc_attr_index index = index * 2 ^ 2

abbrev pub desc_ap_mask : ℕ
desc_ap_mask = 3 * 2 ^ 6

abbrev pub desc_ap_rw_el1 : ℕ
desc_ap_rw_el1 = 0

abbrev pub desc_ap_rw_el0 : ℕ
desc_ap_rw_el0 = 2 ^ 6

abbrev pub desc_ap_ro_el1 : ℕ
desc_ap_ro_el1 = 2 * 2 ^ 6

abbrev pub desc_ap_ro_el0 : ℕ
desc_ap_ro_el0 = 3 * 2 ^ 6

abbrev pub desc_sh_inner : ℕ
desc_sh_inner = 3 * 2 ^ 8

abbrev pub desc_af : ℕ
desc_af = 2 ^ 10

abbrev pub desc_pxn : ℕ
desc_pxn = 2 ^ 53

abbrev pub desc_uxn : ℕ
desc_uxn = 2 ^ 54

abbrev pub attr_index_normal : ℕ
attr_index_normal = 0

abbrev pub attr_index_device : ℕ
attr_index_device = 1

abbrev pub normal_memory_attr : ℕ
normal_memory_attr =
    bit_or (bit_or (bit_or (desc_attr_index attr_index_normal) desc_ap_rw_el1) desc_sh_inner)
      desc_af

abbrev pub device_memory_attr : ℕ
device_memory_attr =
    bit_or
      (bit_or (bit_or (bit_or (desc_attr_index attr_index_device) desc_ap_rw_el1) desc_af) desc_pxn)
      desc_uxn

unfoldable pub l1_index : ℕ → ℕ
l1_index address = bit_and (address / 2 ^ 30) (table_entries - 1)

unfoldable pub l2_index : ℕ → ℕ
l2_index address = bit_and (address / 2 ^ 21) (table_entries - 1)

unfoldable pub l3_index : ℕ → ℕ
l3_index address = bit_and (address / 2 ^ 12) (table_entries - 1)

unfoldable pub table_desc : ℕ → ℕ
table_desc physical = bit_or (bit_or (bit_and physical (mask_down page_size)) desc_valid) desc_table

unfoldable pub desc_is_valid : ℕ → Bool
desc_is_valid descriptor = not (bit_and descriptor desc_valid == 0)

unfoldable pub desc_is_table : ℕ → Bool
desc_is_table descriptor =
    bit_and descriptor (bit_or desc_valid desc_table) == bit_or desc_valid desc_table

unfoldable pub desc_is_l2_block : ℕ → Bool
desc_is_l2_block descriptor = bit_and descriptor (bit_or desc_valid desc_table) == desc_valid

unfoldable pub desc_is_l3_page : ℕ → Bool
desc_is_l3_page descriptor =
    bit_and descriptor (bit_or desc_valid desc_table) == bit_or desc_valid desc_table

unfoldable pub desc_address : ℕ → ℕ
desc_address descriptor = bit_and descriptor desc_addr_mask

unfoldable pub l2_block_address : ℕ → ℕ
l2_block_address descriptor = bit_and descriptor desc_l2_block_addr_mask

unfoldable pub l3_page_address : ℕ → ℕ
l3_page_address descriptor = bit_and descriptor desc_l3_page_addr_mask

unfoldable pub desc_is_execute_never : ℕ → Bool
desc_is_execute_never descriptor = not (bit_and descriptor (bit_or desc_pxn desc_uxn) == 0)

unfoldable pub desc_execute_state : ℕ → String
desc_execute_state descriptor = if desc_is_execute_never descriptor then "xn" else "exec"

unfoldable pub desc_is_read_only : ℕ → Bool
desc_is_read_only descriptor = bit_and descriptor desc_ap_mask == desc_ap_ro_el1

unfoldable pub desc_write_state : ℕ → String
desc_write_state descriptor = if desc_is_read_only descriptor then "ro" else "rw"

unfoldable pub desc_has_user_access : ℕ → Bool
desc_has_user_access descriptor =
    let access : ℕ = bit_and descriptor desc_ap_mask in
    (access == desc_ap_rw_el0) || (access == desc_ap_ro_el0)

unfoldable pub desc_user_access_state : ℕ → String
desc_user_access_state descriptor = if desc_has_user_access descriptor then "el0" else "el1"

unfoldable pub l2_block_desc : ℕ → ℕ → ℕ
l2_block_desc physical attributes =
    bit_or (bit_or (bit_and physical (mask_down l2_block_size)) attributes) desc_block

unfoldable pub l3_page_desc : ℕ → ℕ → ℕ
l3_page_desc physical attributes =
    bit_or (bit_or (bit_and physical (mask_down page_size)) attributes) desc_page
