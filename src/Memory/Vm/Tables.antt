-- ===== src/Memory/Vm/Tables.antt =====
-- What the tables hold once `build_tables` has run, entry by entry.
use saturn_os.Prelude.{
  ℕ, ◌+◌, ◌*◌, ◌<◌, ◌≡◌, ◌∙◌, refl, ap, Bool, true, ◌&&◌, inl, inr, ltb, leb, ◌==◌, arith,
  if◌then◌else◌, Array, sub64, Bool-cases,
}
use saturn_os.Arch.Mmu.{
  l1_index, l2_index, l2_block_desc, desc_is_l2_block, table_desc, device_memory_attr,
  table_entries,
}
use saturn_os.Arch.Mmu.Encoding.{l2_block_desc-Describes, Describes-block}
use saturn_os.Memory.Vm.{
  Layout, Vm, L2TableSlot, clear_table, vm_address_is_guard_page, kernel_l3_base, l2_table_address,
  normal_xn_memory_attr, vm_regions,
}
use saturn_os.Memory.Vm.Build.{
  set_l2, uncount_block, map_regions, map_pages, kernel_page_desc, with_table, install_l3,
  map_kernel_l3_block, cleared, build_tables,
}
use saturn_os.Memory.Vm.Regions.{
  Mapped, find_l2_table_lem, after_ram, after_ram-Mapped, regions_lem,
}
use saturn_os.Memory.Vm.Counts.{guards, map_pages_counts}
use saturn_os.Memory.Vm.Blocks.{block_at, map_pages_lem, map_pages_rest, get_l2_table-found}

-- All tables.
pub record Built (at : Layout) (s : Vm) : Type 0 where
  pub split : s.kernel_l3_mapped ≡ true
  pub block_count : s.blocks_mapped ≡ 80
  pub page_count : s.pages_mapped + guards at table_entries 0 ≡ table_entries
  pub guard_count : s.guard_pages ≡ guards at table_entries 0
  pub used : s.used_l2_tables ≡ 2
  pub slot_zero : s.l2_slots 0 ≡ record { l1_index = 0; used = true }
  pub slot_one : s.l2_slots 1 ≡ record { l1_index = 1; used = true }
  pub first :
      (i : ℕ)
      → i < 512
      → s.l1_table i ≡ (
          if i == 0
          then table_desc (l2_table_address at 0)
          else if i == 1
          then table_desc (l2_table_address at 1)
          else 0)
  pub mmio :
      (j : ℕ)
      → j < 512
      → s.l2_tables 0 j
        ≡ (if leb 64 j && ltb j 81 then l2_block_desc (block_at 0 j) device_memory_attr else 0)
  pub ram :
      (j : ℕ)
      → j < 512
      → s.l2_tables 1 j ≡ (
          if j == 0
          then table_desc at.kernel_l3_table
          else if ltb j 64
          then l2_block_desc (block_at 1 j) normal_xn_memory_attr
          else 0)
  pub pages :
      (j : ℕ)
      → j < 512
      → s.kernel_l3_table j ≡ (
          if vm_address_is_guard_page at (kernel_l3_base + j * 4096)
          then 0
          else kernel_page_desc at j)

module _ (at : Layout) where
  install_l3_lem :
      (s : Vm)
      → ((install_l3 at s 1).l1_table ≡ s.l1_table)
        × ((install_l3 at s 1).l2_slots ≡ s.l2_slots)
        × ((install_l3 at s 1).used_l2_tables ≡ s.used_l2_tables)
        × ((install_l3 at s 1).kernel_l3_table ≡ s.kernel_l3_table)
        × ((t j : ℕ)
            → (install_l3 at s 1).l2_tables t j
              ≡ (if (t == 1) && (j == 0) then table_desc at.kernel_l3_table else s.l2_tables t j))
  unfolding install_l3 set_l2 uncount_block l2_index
  install_l3_lem s = elim (Bool-cases (desc_is_l2_block (s.l2_tables 1 0))) [
    | inl e ↦ rw e (refl, refl, refl, refl, λ t j. ground arith)
    | inr e ↦ rw e (refl, refl, refl, refl, λ t j. ground arith)
  ]

  -- The state in which the pages are mapped.
  paged : Vm → Vm
  paged s =
      map_pages at table_entries 0 (record s { kernel_l3_table = clear_table s.kernel_l3_table })

  map_kernel_l3_block_lem :
      (s : Vm) → Mapped at s → map_kernel_l3_block at s ≡ (install_l3 at (paged s) 1, true)
  unfolding map_kernel_l3_block with_table paged l1_index
  map_kernel_l3_block_lem s m =
      ap
        (with_table (λ s' slot. (
          install_l3 at
              (map_pages at table_entries 0
                (record s' { kernel_l3_table = clear_table s'.kernel_l3_table }))
              slot,
          true,
        )))
        (get_l2_table-found at s 1 1 (find_l2_table_lem s 1 m.used m.slot_zero m.slot_one))

  -- The block of the kernel no longer counts.
  install_l3_counts :
      (s : Vm)
      → desc_is_l2_block (s.l2_tables 1 0) ≡ true
      → ((install_l3 at s 1).kernel_l3_mapped ≡ true)
        × ((install_l3 at s 1).blocks_mapped ≡ sub64 s.blocks_mapped 1)
        × ((install_l3 at s 1).pages_mapped ≡ s.pages_mapped)
        × ((install_l3 at s 1).guard_pages ≡ s.guard_pages)
        × ((install_l3 at s 1).guard_pages_validated ≡ s.guard_pages_validated)
  unfolding install_l3 set_l2 uncount_block l2_index
  install_l3_counts s e = rw e (refl, refl, refl, refl, refl)

  kernel_block : (s : Vm) → Mapped at s → desc_is_l2_block ((paged s).l2_tables 1 0) ≡ true
  unfolding paged l2_block_desc desc_is_l2_block
  kernel_block s m =
      let (_, l2, _, _) =
        map_pages_rest at table_entries 0
          (record s { kernel_l3_table = clear_table s.kernel_l3_table }) in
      let (_, is_block) =
        Describes-block _ _ _
          (l2_block_desc-Describes 96 512 1792 (omega arith) (omega arith) refl) in
      ap (λ (f : Array (Array ℕ)). desc_is_l2_block (f 1 0)) l2
      ∙ ap desc_is_l2_block (m.ram 0 (omega arith))
      ∙ is_block

  install_l3-Built :
      (s : Vm)
      → Mapped at s
      → ((install_l3 at (paged s) 1).guard_pages_validated ≡ 0)
        × Built at (install_l3 at (paged s) 1)
  unfolding paged clear_table
  install_l3-Built s m =
      let empty : Vm = record s { kernel_l3_table = clear_table s.kernel_l3_table } in
      let (l1, slots, used, l3, l2) = install_l3_lem (paged s) in
      let (split, blocks, pages, guard_pages, validated) =
        install_l3_counts (paged s) (kernel_block s m) in
      let (l1', l2', slots', used') = map_pages_rest at table_entries 0 empty in
      let c =
        map_pages_counts at table_entries 0 empty (omega (arith, m.guard_pages))
          (omega (arith, m.pages)) in
      (
        validated ∙ c.validated ∙ m.validated,
        record {
          split = split;
          block_count = omega (arith, blocks, c.blocks_mapped, m.blocks);
          page_count = omega (arith, pages, c.pages_mapped, m.pages);
          guard_count = omega (arith, guard_pages, c.guard_pages, m.guard_pages);
          used = used ∙ used' ∙ m.used;
          slot_zero = ap (λ (f : Array L2TableSlot). f 0) (slots ∙ slots') ∙ m.slot_zero;
          slot_one = ap (λ (f : Array L2TableSlot). f 1) (slots ∙ slots') ∙ m.slot_one;
          first = λ i l. ap (λ (f : Array ℕ). f i) (l1 ∙ l1') ∙ m.first i l;
          mmio = λ j l. l2 0 j ∙ ap (λ (f : Array (Array ℕ)). f 0 j) l2' ∙ m.mmio j l;
          ram = λ j l.
              let before = ap (λ (f : Array (Array ℕ)). f 1 j) l2' ∙ m.ram j l in
              l2 1 j ∙ rw before refl;
          pages = λ j l.
              ap (λ (f : Array ℕ). f j) l3
              ∙ map_pages_lem at table_entries 0 empty j
              ∙ elim (Bool-cases (vm_address_is_guard_page at (kernel_l3_base + j * 4096))) [
                | inl guard ↦ rw guard (ground arith)
                | inr free ↦ rw free (ground arith)
              ];
        },
      )

  build_step :
      (s s' : Vm)
      → map_regions at (cleared s) vm_regions ≡ (s', true)
      → build_tables at s ≡ map_kernel_l3_block at s'
  unfolding build_tables
  build_step s s' e = rw (build_tables, e) (ap (λ (q : Vm × Bool). map_kernel_l3_block at q.0) e)

  -- From any state `build_tables` succeeds, and its tables are the two tables of the second level with the
  -- blocks of the two regions and, in place of the block of the kernel, the pages outside the guard pages.
  -- The counts are the numbers of these blocks and pages.
  pub build_tables-Built :
      (s : Vm)
      → ((build_tables at s).1 ≡ true)
        × ((build_tables at s).0.guard_pages_validated ≡ 0)
        × Built at (build_tables at s).0
  build_tables-Built s =
      let m = after_ram-Mapped at s in
      let (validated, built) = install_l3-Built (after_ram at s) m in
      rw
        (build_step s (after_ram at s) (regions_lem at s)
          ∙ map_kernel_l3_block_lem (after_ram at s) m)
        (refl, validated, built)
