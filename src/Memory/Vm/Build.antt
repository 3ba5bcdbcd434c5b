-- ===== src/Memory/Vm/Build.antt =====
-- `build_tables` of vm.c: a table of the second level for each gigabyte that is used, blocks of 2 MB, and
-- pages for the block of the kernel.
use saturn_os.Prelude.{
  ℕ, zero, suc, ◌+◌, ◌*◌, ◌/◌, Bool, true, false, not, ◌&&◌, Option, none, some, List, [], ◌∷◌, ltb,
  leb, ◌==◌, if◌then◌else◌, update, find_first, add64, sub64,
}
use saturn_os.Arch.Mmu.{
  page_size, table_entries, l2_block_size, l1_index, l2_index, table_desc, l2_block_desc,
  l3_page_desc, desc_is_execute_never, desc_is_l2_block,
}
use saturn_os.Memory.Vm.{
  Layout, VmRegion, Vm, l2_table_capacity, kernel_l3_base, vm_regions, clear_table,
  region_is_l2_aligned, kernel_page_attributes, vm_address_is_guard_page, l2_table_address,
}

abbrev pub slot_holds : Vm → ℕ → ℕ → Bool
slot_holds s l1 slot = (s.l2_slots slot).used && ((s.l2_slots slot).l1_index == l1)

unfoldable pub find_l2_table : Vm → ℕ → Option ℕ
find_l2_table s l1 = find_first (slot_holds s l1) s.used_l2_tables 0

-- `table[index] = descriptor` in the table of a slot.
unfoldable pub set_l2 : Vm → ℕ → ℕ → ℕ → Vm
set_l2 s slot index descriptor = record s {
  l2_tables = update s.l2_tables slot (update (s.l2_tables slot) index descriptor);
}

-- The counts of `map_region` for a block whose descriptor is written.
unfoldable pub count_block : ℕ → Vm → Vm
count_block descriptor s = record s {
  xn_blocks = if desc_is_execute_never descriptor then add64 s.xn_blocks 1 else s.xn_blocks;
  exec_blocks = if desc_is_execute_never descriptor then s.exec_blocks else add64 s.exec_blocks 1;
  blocks_mapped = add64 s.blocks_mapped 1;
  bytes_mapped = add64 s.bytes_mapped l2_block_size;
}

-- The counts of `map_kernel_l3_block` when it replaces a block.
unfoldable pub uncount_block : ℕ → Vm → Vm
uncount_block descriptor s = record s {
  xn_blocks = if desc_is_execute_never descriptor then sub64 s.xn_blocks 1 else s.xn_blocks;
  exec_blocks = if desc_is_execute_never descriptor then sub64 s.exec_blocks 1 else s.exec_blocks;
  blocks_mapped = sub64 s.blocks_mapped 1;
  bytes_mapped = sub64 s.bytes_mapped l2_block_size;
}

unfoldable pub count_page : ℕ → Vm → Vm
count_page descriptor s = record s {
  xn_pages = if desc_is_execute_never descriptor then add64 s.xn_pages 1 else s.xn_pages;
  exec_pages = if desc_is_execute_never descriptor then s.exec_pages else add64 s.exec_pages 1;
  pages_mapped = add64 s.pages_mapped 1;
  bytes_mapped = add64 s.bytes_mapped page_size;
}

-- The state in which `build_tables` starts to map.
unfoldable pub cleared : Vm → Vm
cleared s = record s {
  l1_table = clear_table s.l1_table;
  kernel_l3_table = clear_table s.kernel_l3_table;
  l2_slots =
      λ i. if ltb i l2_table_capacity then record { l1_index = 0; used = false } else s.l2_slots i;
  l2_tables = λ i. if ltb i l2_table_capacity then clear_table (s.l2_tables i) else s.l2_tables i;
  used_l2_tables = 0;
  blocks_mapped = 0;
  pages_mapped = 0;
  guard_pages = 0;
  blocks_validated = 0;
  pages_validated = 0;
  guard_pages_validated = 0;
  validation_error_count = 0;
  exec_blocks = 0;
  xn_blocks = 0;
  exec_pages = 0;
  xn_pages = 0;
  bytes_mapped = 0;
  kernel_l3_mapped = false;
}

-- `if (!l2_table) return 0;`, and otherwise what follows.
unfoldable pub with_table : (Vm → ℕ → Vm × Bool) → Vm × Option ℕ → Vm × Bool
with_table next_step (s, none) = (s, false)
with_table next_step (s, some slot) = next_step s slot

module _ (at : Layout) where
  -- A new table for an entry of the first level.
  unfoldable pub new_l2_table : Vm → ℕ → Vm
  new_l2_table s l1 =
      let slot : ℕ = s.used_l2_tables in
      record s {
        used_l2_tables = slot + 1;
        l2_slots = update s.l2_slots slot (record { l1_index = l1; used = true });
        l2_tables = update s.l2_tables slot (clear_table (s.l2_tables slot));
        l1_table = update s.l1_table l1 (table_desc (l2_table_address at slot));
      }

  -- The slot of the table, or `none` for the null pointer.
  unfoldable pub get_l2_table : Vm → ℕ → Vm × Option ℕ
  get_l2_table s l1 = elim (find_l2_table s l1) [
    | some slot ↦ (s, some slot)
    | none ↦
        if leb l2_table_capacity s.used_l2_tables
        then (s, none)
        else (new_l2_table s l1, some s.used_l2_tables)
  ]

  unfoldable pub map_block : Vm → ℕ → ℕ → ℕ → ℕ → Vm
  map_block s slot va pa attributes =
      count_block (l2_block_desc pa attributes)
        (set_l2 s slot (l2_index va) (l2_block_desc pa attributes))

  -- The loop of `map_region`, with the rounds that are left.
  unfoldable pub map_blocks : ℕ → Vm → ℕ → ℕ → ℕ → Vm × Bool
  map_blocks zero s va pa attributes = (s, true)
  map_blocks (suc rounds) s va pa attributes =
      with_table
        (λ s' slot.
          map_blocks rounds (map_block s' slot va pa attributes) (add64 va l2_block_size)
            (add64 pa l2_block_size) attributes)
        (get_l2_table s (l1_index va))

  -- The size of an aligned region is a number of whole blocks.
  unfoldable pub map_region : Vm → VmRegion → Vm × Bool
  map_region s r =
      if not (region_is_l2_aligned r)
      then (s, false)
      else map_blocks (r.size / l2_block_size) s r.virtual_start r.physical_start r.attributes

  unfoldable pub map_regions : Vm → List VmRegion → Vm × Bool
  map_regions s [] = (s, true)
  map_regions s (r ∷ rs) =
      let (s', done) = map_region s r in
      elim done [ true ↦ map_regions s' rs | false ↦ (s', false) ]

  -- The descriptor of a page of the kernel's block.
  abbrev pub kernel_page_desc : ℕ → ℕ
  kernel_page_desc i =
      l3_page_desc (kernel_l3_base + i * page_size)
        (kernel_page_attributes at (kernel_l3_base + i * page_size))

  -- One round of the loop of `map_kernel_l3_block`.
  unfoldable pub map_page : Vm → ℕ → Vm
  map_page s i =
      if vm_address_is_guard_page at (kernel_l3_base + i * page_size)
      then record s { guard_pages = add64 s.guard_pages 1 }
      else count_page (kernel_page_desc i)
          (record s { kernel_l3_table = update s.kernel_l3_table i (kernel_page_desc i) })

  unfoldable pub map_pages : ℕ → ℕ → Vm → Vm
  map_pages zero i s = s
  map_pages (suc rounds) i s = map_pages rounds (suc i) (map_page s i)

  -- The end of `map_kernel_l3_block`: the entry of the block becomes the table of the pages.
  unfoldable pub install_l3 : Vm → ℕ → Vm
  install_l3 s slot =
      let index : ℕ = l2_index kernel_l3_base in
      let old : ℕ = s.l2_tables slot index in
      let s' : Vm = if desc_is_l2_block old then uncount_block old s else s in
      record (set_l2 s' slot index (table_desc at.kernel_l3_table)) { kernel_l3_mapped = true }

  unfoldable pub map_kernel_l3_block : Vm → Vm × Bool
  map_kernel_l3_block s =
      with_table
        (λ s' slot. (
          install_l3
              (map_pages table_entries 0
                (record s' { kernel_l3_table = clear_table s'.kernel_l3_table }))
              slot,
          true,
        ))
        (get_l2_table s (l1_index kernel_l3_base))

  unfoldable pub build_tables : Vm → Vm × Bool
  build_tables s =
      let (s', done) = map_regions (cleared s) vm_regions in
      elim done [ true ↦ map_kernel_l3_block s' | false ↦ (s', false) ]
