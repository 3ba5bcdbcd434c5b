-- ===== src/Memory/Vm/Examples.antt =====
-- The theorems of the page tables for a kernel at 0x40080000.
use saturn_os.Prelude.{◌≡◌, refl, false, none, arith}
use saturn_os.Arch.Mmu.{l3_page_desc}
use saturn_os.Memory.Vm.{Layout, Vm, kernel_page_attributes}
use saturn_os.Memory.Vm.Build.{build_tables}
use saturn_os.Memory.Vm.Walk.{Translation, translation_for_address}
use saturn_os.Memory.Vm.Translate.{
  IsPlaced, reference, page_of, translation_for_address-build_tables,
}
use saturn_os.Memory.Vm.Validate.{vm_init}
use saturn_os.Memory.Vm.Start.{IsLinked, Starts, vm_init-Starts}

abbrev linked_kernel : Layout
linked_kernel = record {
  kernel_start = 0x40080000;
  kernel_end = 0x400e0000;
  text_start = 0x40080000;
  text_end = 0x40090000;
  rodata_start = 0x40090000;
  rodata_end = 0x40098000;
  data_start = 0x40098000;
  data_end = 0x400a0000;
  bss_start = 0x400a0000;
  bss_end = 0x400e0000;
  l1_table = 0x400b0000;
  l2_tables = 0x400b1000;
  kernel_l3_table = 0x400b5000;
  stack_base = 0x400c0000;
  memory = λ a. 0;
}

abbrev blank : Vm
blank = record {
  l1_table = λ i. 0;
  l2_tables = λ t i. 0;
  kernel_l3_table = λ i. 0;
  l2_slots = λ i. record { l1_index = 0; used = false };
  ready = false;
  tables_built = false;
  validated = false;
  enable_attempted = false;
  enabled_root = none;
  kernel_l3_mapped = false;
  used_l2_tables = 0;
  blocks_mapped = 0;
  pages_mapped = 0;
  guard_pages = 0;
  blocks_validated = 0;
  pages_validated = 0;
  guard_pages_validated = 0;
  validation_error_count = 0;
  exec_blocks = 0;
  xn_blocks = 0;
  exec_pages = 0;
  xn_pages = 0;
  bytes_mapped = 0;
}

placed : IsPlaced linked_kernel
placed = record {
  l2_aligned = refl;
  l2_below = omega arith;
  l3_aligned = refl;
  l3_below = omega arith;
}

linked : IsLinked linked_kernel
linked = record { l1_aligned = refl; stacks_above = omega arith; stacks_below = omega arith }

vm_init-Starts_example : Starts linked_kernel false (vm_init linked_kernel false blank)
vm_init-Starts_example = vm_init-Starts linked_kernel false blank placed linked

translation_for_address-build_tables_example :
    translation_for_address linked_kernel (build_tables linked_kernel blank).0 0x40080123
    ≡ reference linked_kernel 0x40080123
translation_for_address-build_tables_example =
    translation_for_address-build_tables linked_kernel blank 0x40080123 placed (omega arith)

-- An address in the text of the kernel.
abbrev text_page : Translation
text_page = record {
  physical = 0x40080123;
  descriptor =
      l3_page_desc (page_of 0x40080123) (kernel_page_attributes linked_kernel (page_of 0x40080123));
  level = 3;
}
