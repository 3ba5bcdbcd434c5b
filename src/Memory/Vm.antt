-- ===== src/Memory/Vm.antt =====
-- kernel/memory/vm.c: the page tables of the kernel. The tables are arrays; where the linker puts them
-- and the sections of the kernel is the parameter `Layout`.
pub mod Build
pub mod Walk
pub mod Blocks
pub mod Regions
pub mod Tables
pub mod Translate
pub mod Protection
pub mod Validate
pub mod Counts
pub mod Validation
pub mod Start
mod Examples
use saturn_os.Prelude.{
  ℕ, ◌+◌, ◌-◌, ◌*◌, ◌/◌, ◌%◌, ◌^◌, Bool, true, false, not, ◌&&◌, Option, none, some, List, [], ◌∷◌,
  ltb, leb, ◌==◌, if◌then◌else◌, Array, bit_and, bit_or, add64,
}
use saturn_os.Arch.Mmu.{
  page_size, table_entries, l2_block_size, mask_down, normal_memory_attr, device_memory_attr,
  desc_ap_mask, desc_ap_ro_el1, desc_pxn, desc_uxn,
}
use saturn_os.Sched.Stacks.{address_is_stack_guard}

abbrev pub l2_table_capacity : ℕ
l2_table_capacity = 4

abbrev pub device_mmio_end : ℕ
device_mmio_end = 0x0a200000

abbrev pub kernel_l3_base : ℕ
kernel_l3_base = 0x40000000

abbrev pub kernel_l3_end : ℕ
kernel_l3_end = kernel_l3_base + l2_block_size

abbrev pub normal_xn_memory_attr : ℕ
normal_xn_memory_attr = bit_or (bit_or normal_memory_attr desc_pxn) desc_uxn

-- `ARM64_NORMAL_MEMORY_ATTR & ~ARM64_DESC_AP_MASK`
abbrev pub normal_without_access : ℕ
normal_without_access = bit_and normal_memory_attr (2 ^ 64 - 1 - desc_ap_mask)

abbrev pub normal_ro_xn_memory_attr : ℕ
normal_ro_xn_memory_attr =
    bit_or (bit_or (bit_or normal_without_access desc_ap_ro_el1) desc_pxn) desc_uxn

abbrev pub normal_ro_exec_memory_attr : ℕ
normal_ro_exec_memory_attr = bit_or normal_without_access desc_ap_ro_el1

-- The addresses that the linker gives to the sections and the tables, the start of the task stacks, and
-- what the memory outside the tables holds, by the address of a word.
pub record Layout : Type 0 where
  pub kernel_start : ℕ
  pub kernel_end : ℕ
  pub text_start : ℕ
  pub text_end : ℕ
  pub rodata_start : ℕ
  pub rodata_end : ℕ
  pub data_start : ℕ
  pub data_end : ℕ
  pub bss_start : ℕ
  pub bss_end : ℕ
  pub l1_table : ℕ
  pub l2_tables : ℕ
  pub kernel_l3_table : ℕ
  pub stack_base : ℕ
  pub memory : Array ℕ

pub record VmRegion : Type 0 where
  pub virtual_start : ℕ
  pub physical_start : ℕ
  pub size : ℕ
  pub attributes : ℕ

pub record L2TableSlot : Type 0 where
  pub l1_index : ℕ
  pub used : Bool

pub record Vm : Type 0 where
  pub l1_table : Array ℕ
  pub l2_tables : Array (Array ℕ)
  pub kernel_l3_table : Array ℕ
  pub l2_slots : Array L2TableSlot
  pub ready : Bool
  pub tables_built : Bool
  pub validated : Bool
  pub enable_attempted : Bool
  pub enabled_root : Option ℕ
  pub kernel_l3_mapped : Bool
  pub used_l2_tables : ℕ
  pub blocks_mapped : ℕ
  pub pages_mapped : ℕ
  pub guard_pages : ℕ
  pub blocks_validated : ℕ
  pub pages_validated : ℕ
  pub guard_pages_validated : ℕ
  pub validation_error_count : ℕ
  pub exec_blocks : ℕ
  pub xn_blocks : ℕ
  pub exec_pages : ℕ
  pub xn_pages : ℕ
  pub bytes_mapped : ℕ

abbrev pub mmio_region : VmRegion
mmio_region = record {
  virtual_start = 0x08000000;
  physical_start = 0x08000000;
  size = device_mmio_end - 0x08000000;
  attributes = device_memory_attr;
}

abbrev pub ram_region : VmRegion
ram_region = record {
  virtual_start = 0x40000000;
  physical_start = 0x40000000;
  size = 0x08000000;
  attributes = normal_xn_memory_attr;
}

-- `vm_regions`
unfoldable pub vm_regions : List VmRegion
vm_regions = mmio_region ∷ ram_region ∷ []

unfoldable pub clear_table : Array ℕ → Array ℕ
clear_table table i = if ltb i table_entries then 0 else table i

unfoldable pub align_down : ℕ → ℕ → ℕ
align_down value size = bit_and value (mask_down size)

unfoldable pub align_up : ℕ → ℕ → ℕ
align_up value size = bit_and ((value + size - 1) % 2 ^ 64) (mask_down size)

unfoldable pub address_in_range : ℕ → ℕ → ℕ → Bool
address_in_range address start end = leb start address && ltb address end

unfoldable pub region_is_l2_aligned : VmRegion → Bool
region_is_l2_aligned r =
    (bit_and r.virtual_start (l2_block_size - 1) == 0)
    && (bit_and r.physical_start (l2_block_size - 1) == 0)
    && (bit_and r.size (l2_block_size - 1) == 0)

module _ (at : Layout) where
  unfoldable pub address_in_kernel_text : ℕ → Bool
  address_in_kernel_text address =
      address_in_range address (align_down at.text_start page_size) (align_up at.text_end page_size)

  unfoldable pub address_in_kernel_rodata : ℕ → Bool
  address_in_kernel_rodata address =
      address_in_range address (align_down at.rodata_start page_size)
        (align_up at.rodata_end page_size)

  unfoldable pub kernel_page_attributes : ℕ → ℕ
  kernel_page_attributes address =
      if address_in_kernel_text address
      then normal_ro_exec_memory_attr
      else if address_in_kernel_rodata address
      then normal_ro_xn_memory_attr
      else normal_xn_memory_attr

  unfoldable pub vm_address_is_guard_page : ℕ → Bool
  vm_address_is_guard_page address = address_is_stack_guard at.stack_base address

  -- The address of the table in a slot.
  abbrev pub l2_table_address : ℕ → ℕ
  l2_table_address slot = at.l2_tables + slot * 4096
