-- ===== src/Memory/Vm/Start.antt =====
-- `vm_init` of vm.c on the tables that `build_tables` leaves.
use saturn_os.Prelude.{
  ℕ, ◌+◌, ◌-◌, ◌*◌, ◌%◌, ◌^◌, ◌≤◌, ◌<◌, ◌≡◌, ◌∙◌, refl, ap, sym, Bool, true, false, not, ◌&&◌,
  Option, none, some, [], ◌∷◌, ltb, leb, ◌==◌, if◌then◌else◌, arith, find_first,
}
use saturn_os.Arch.Mmu.{page_size, table_size, l2_block_desc, device_memory_attr}
use saturn_os.Sched.Stacks.{stack_region_bytes}
use saturn_os.Sched.Stacks.Layout.{address_is_stack_guard_lem}
use saturn_os.Memory.Vm.{
  Layout, Vm, vm_address_is_guard_page, l2_table_address, kernel_l3_base, kernel_l3_end,
  device_mmio_end, mmio_region, ram_region, vm_regions, region_is_l2_aligned, normal_xn_memory_attr,
}
use saturn_os.Memory.Vm.Counts.{guards, guards-≤}
use saturn_os.Memory.Vm.Build.{build_tables}
use saturn_os.Memory.Vm.Regions.{find_two}
use saturn_os.Memory.Vm.Tables.{Built, build_tables-Built}
use saturn_os.Memory.Vm.Translate.{IsPlaced, reference, block_of, page_offset}
use saturn_os.Memory.Vm.Validate.{
  validate_region, validate_regions, validate_tables, validate_l2_tables, validate_l3_table,
  validate_all_regions, validate_counts, then_check, check, table_is_aligned, misaligned_l2_table,
  all_l2_tables_aligned, enable, set_validated, vm_init,
}
use saturn_os.Memory.Vm.Validation.{IsBlock, counting, blocks_loop, pages_loop}

-- The table of the first level is on its boundary, and the stacks of the tasks are in the block of the
-- kernel.
pub record IsLinked (at : Layout) : Type 0 where
  pub l1_aligned : at.l1_table % table_size ≡ 0
  pub stacks_above : kernel_l3_base ≤ at.stack_base
  pub stacks_below : at.stack_base + stack_region_bytes ≤ kernel_l3_end

check_lem :
    (c : Bool) (s : Vm) (rest : Vm → Option (Vm × Bool)) → c ≡ true → check c s rest ≡ rest s
unfolding check
check_lem c s rest e = rw e refl

aligned_lem : (a : ℕ) → a % page_size ≡ 0 → table_is_aligned a ≡ true
unfolding table_is_aligned
aligned_lem a e = ground (arith, page_offset a)

same_count : (m n : ℕ) → m ≡ n → (m == n) ≡ true
same_count m n e = ground arith

module _ (at : Layout) (linked : IsLinked at) where
  no_guard :
      (a : ℕ)
      → (leb kernel_l3_base a && ltb a kernel_l3_end) ≡ false
      → vm_address_is_guard_page at a ≡ false
  unfolding vm_address_is_guard_page
  no_guard a outside =
      address_is_stack_guard_lem at.stack_base a
      ∙ ground (arith, linked.stacks_above, linked.stacks_below)

  device-IsBlock : (a : ℕ) → 0x08000000 ≤ a → a < device_mmio_end → IsBlock at a
  unfolding reference
  device-IsBlock a l m =
      let range : leb 0x08000000 a && ltb a device_mmio_end ≡ true = ground arith in
      record {
        descriptor = l2_block_desc (block_of a) device_memory_attr;
        free = no_guard a (ground arith);
        found = rw (reference, range) refl;
      }

  memory-IsBlock : (a : ℕ) → kernel_l3_end ≤ a → a < 0x48000000 → IsBlock at a
  unfolding reference
  memory-IsBlock a l m =
      let range : leb 0x08000000 a && ltb a device_mmio_end ≡ false = ground arith in
      let block : leb kernel_l3_base a && ltb a kernel_l3_end ≡ false = ground arith in
      let ram : leb kernel_l3_end a && ltb a 0x48000000 ≡ true = ground arith in
      record {
        descriptor = l2_block_desc (block_of a) normal_xn_memory_attr;
        free = no_guard a block;
        found = rw (reference, range, block, ram) refl;
      }

module _ (at : Layout) (placed : IsPlaced at) (linked : IsLinked at) (s : Vm)
    (built : Built at s) where
  validate-mmio :
      (p g : ℕ) → validate_region at (counting s 0 p g) mmio_region ≡ some (counting s 17 p g, true)
  unfolding validate_region region_is_l2_aligned
  validate-mmio p g =
      blocks_loop at placed s built 17 8704 0 p g 0x08000000 (omega arith) (omega arith)
        (omega arith) (λ a l m. device-IsBlock at linked a l (omega arith))

  validate-ram :
      (g : ℕ)
      → g < 2 ^ 32
      → validate_region at (counting s 17 0 g) ram_region
        ≡ some (counting s 80 (512 - guards at 512 0) (g + guards at 512 0), true)
  unfolding validate_region region_is_l2_aligned
  validate-ram g l =
      pages_loop at placed s built 512 32768 17 0 g 0 (63 * 2 ^ 21) (omega arith) (omega arith)
        (omega arith) (omega arith) (omega arith)
      ∙ blocks_loop at placed s built 63 32256 17 (512 - guards at 512 0) (g + guards at 512 0)
          kernel_l3_end (omega arith) (omega arith) (omega arith)
          (λ a m n. memory-IsBlock at linked a m (omega arith))

  validate_regions_lem :
      validate_regions at (counting s 0 0 0) vm_regions
      ≡ some (counting s 80 (512 - guards at 512 0) (guards at 512 0), true)
  unfolding validate_regions vm_regions then_check
  validate_regions_lem =
      ap (λ r. then_check r (λ s'. validate_regions at s' (ram_region ∷ []))) (validate-mmio 0 0)
      ∙ ap (λ r. then_check r (λ s'. validate_regions at s' [])) (validate-ram 0 (omega arith))
      ∙ ap (λ (g : ℕ). some (counting s 80 (512 - guards at 512 0) g, true)) (omega arith)

  l2_tables_aligned : all_l2_tables_aligned (misaligned_l2_table at (counting s 0 0 0)) ≡ true
  unfolding misaligned_l2_table all_l2_tables_aligned
  l2_tables_aligned =
      let first : not (table_is_aligned (l2_table_address at 0)) ≡ false =
        ap not (aligned_lem (l2_table_address at 0) (omega (arith, placed.l2_aligned))) in
      let second : not (table_is_aligned (l2_table_address at 1)) ≡ false =
        ap not (aligned_lem (l2_table_address at 1) (omega (arith, placed.l2_aligned))) in
      let two : find_first (λ slot. not (table_is_aligned (l2_table_address at slot))) 2 0 ≡ none =
        find_two (λ slot. not (table_is_aligned (l2_table_address at slot)))
        ∙ rw (first, second) refl in
      ap
        (λ (n : ℕ).
          all_l2_tables_aligned
            (find_first (λ slot. not (table_is_aligned (l2_table_address at slot))) n 0))
        built.used
      ∙ ap all_l2_tables_aligned two

  validate_counts_lem :
      validate_counts (counting s 80 (512 - guards at 512 0) (guards at 512 0))
      ≡ some (counting s 80 (512 - guards at 512 0) (guards at 512 0), true)
  unfolding validate_counts
  validate_counts_lem =
      let end : Vm = counting s 80 (512 - guards at 512 0) (guards at 512 0) in
      let blocks : (80 == s.blocks_mapped) ≡ true = rw built.block_count refl in
      let pages : (512 - guards at 512 0 == s.pages_mapped) ≡ true =
        same_count (512 - guards at 512 0) s.pages_mapped (omega (arith, built.page_count)) in
      let guard_pages : (guards at 512 0 == s.guard_pages) ≡ true =
        same_count (guards at 512 0) s.guard_pages (sym built.guard_count) in
      check_lem (80 == s.blocks_mapped) end _ blocks
      ∙ check_lem (512 - guards at 512 0 == s.pages_mapped) end _ pages
      ∙ check_lem (guards at 512 0 == s.guard_pages) end (λ s'. some (s', true)) guard_pages

  -- The validation of a state with these tables.
  pub validate_tables_lem :
      (x : Vm)
      → record x { blocks_validated = 0; pages_validated = 0; validation_error_count = 0 }
        ≡ counting s 0 0 0
      → validate_tables at x ≡ some (counting s 80 (512 - guards at 512 0) (guards at 512 0), true)
  unfolding validate_tables validate_l2_tables validate_l3_table validate_all_regions then_check
  validate_tables_lem x clear =
      let l3 : not (s.kernel_l3_mapped && not (table_is_aligned at.kernel_l3_table)) ≡ true =
        rw (built.split, aligned_lem at.kernel_l3_table placed.l3_aligned) refl in
      check_lem (table_is_aligned at.l1_table) _ (validate_l2_tables at)
        (aligned_lem at.l1_table linked.l1_aligned)
      ∙ ap (validate_l2_tables at) clear
      ∙ check_lem (all_l2_tables_aligned (misaligned_l2_table at (counting s 0 0 0)))
          (counting s 0 0 0) (validate_l3_table at) l2_tables_aligned
      ∙ check_lem (not (s.kernel_l3_mapped && not (table_is_aligned at.kernel_l3_table)))
          (counting s 0 0 0) (validate_all_regions at) l3
      ∙ ap (λ r. then_check r validate_counts) validate_regions_lem
      ∙ validate_counts_lem

-- `vm_init` returns, the tables are valid, and the MMU is enabled with the table of the first
-- level, unless it was on.
pub record Starts (at : Layout) (mmu_on : Bool) (result : Option Vm) : Type 0 where
  pub state : Vm
  pub returned : result ≡ some state
  pub built : state.tables_built ≡ true
  pub validated : state.validated ≡ true
  pub ready : state.ready ≡ true
  pub enabled : state.enabled_root ≡ (if mmu_on then none else some at.l1_table)
  pub attempted : state.enable_attempted ≡ true
  pub no_error : state.validation_error_count ≡ 0
  pub blocks : state.blocks_validated ≡ state.blocks_mapped
  pub pages : state.pages_validated + state.guard_pages_validated ≡ 512

-- Tables that stay as they are under the results of `build_tables`.
mapped : Vm → Bool → Vm
mapped s done = record s { tables_built = done; validated = false; ready = false }

mapped-Built :
    (at : Layout) (s : Vm) (done : Bool)
    → Built at s
    → Built at (record (mapped s done) { validation_error_count = 0 })
unfolding mapped
mapped-Built at s done b = record {
  split = b.split;
  block_count = b.block_count;
  page_count = b.page_count;
  guard_count = b.guard_count;
  used = b.used;
  slot_zero = b.slot_zero;
  slot_one = b.slot_one;
  first = b.first;
  mmio = b.mmio;
  ram = b.ram;
  pages = b.pages;
}

init_step :
    (at : Layout) (mmu_on : Bool) (s : Vm)
    → (build_tables at s).1 ≡ true
    → vm_init at mmu_on s
      ≡ set_validated at mmu_on (validate_tables at (mapped (build_tables at s).0 true))
unfolding vm_init mapped
init_step at mmu_on s done =
    rw (vm_init, done)
      (ap
        (λ (t : Bool).
          set_validated at mmu_on (validate_tables at (mapped (build_tables at s).0 t)))
        done)

-- Whatever the state was before, the start of the virtual memory comes to its end: both regions are
-- walked in as many rounds as they have pages at most, no error is found, and the MMU is enabled with
-- the table of the first level, unless it is on already. The tables are on pages below 2 ^ 48, and the stacks of the tasks are in the first 2 MB of the memory.
pub vm_init-Starts :
    (at : Layout) (mmu_on : Bool) (s : Vm)
    → IsPlaced at
    → IsLinked at
    → Starts at mmu_on (vm_init at mmu_on s)
unfolding vm_init set_validated enable mapped
vm_init-Starts at mmu_on s placed linked =
    let (done, validated, built) = build_tables-Built at s in
    let b : Vm = (build_tables at s).0 in
    let s' : Vm = record (mapped b true) { validation_error_count = 0 } in
    let valid =
      validate_tables_lem at placed linked s' (mapped-Built at b true built) (mapped b true) (
        ap
          (λ (g : ℕ). record s' {
            blocks_validated = 0;
            pages_validated = 0;
            guard_pages_validated = g;
          })
          validated) in
    record {
      state = enable at mmu_on (record (counting s' 80 (512 - guards at 512 0) (guards at 512 0)) {
        validated = true;
        ready = true;
      });
      returned = init_step at mmu_on s done ∙ ap (set_validated at mmu_on) valid;
      built = refl;
      validated = refl;
      ready = refl;
      enabled = refl;
      attempted = refl;
      no_error = refl;
      blocks = sym built.block_count;
      pages = omega (arith, guards-≤ at 512 0);
    }
