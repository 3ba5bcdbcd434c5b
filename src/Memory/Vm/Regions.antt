-- ===== src/Memory/Vm/Regions.antt =====
-- What the tables of vm.c hold once both regions are mapped, entry by entry.
use saturn_os.Prelude.{
  ℕ, suc, ◌+◌, ◌≤◌, ◌<◌, ◌≡◌, ◌∙◌, refl, ap, subst, Bool, true, false, ◌&&◌, Option, none, some,
  List, [], ◌∷◌, inl, inr, ltb, leb, ◌==◌, arith, if◌then◌else◌, Array, Bool-cases, find_first,
}
use saturn_os.Arch.Mmu.{l2_block_desc, table_desc, device_memory_attr}
use saturn_os.Memory.Vm.{
  Layout, Vm, VmRegion, L2TableSlot, l2_table_capacity, clear_table, l2_table_address,
  normal_xn_memory_attr, mmio_region, ram_region, vm_regions, region_is_l2_aligned,
}
use saturn_os.Memory.Vm.Build.{
  find_l2_table, slot_holds, new_l2_table, map_blocks, map_region, map_regions, with_table, cleared,
}
use saturn_os.Memory.Vm.Blocks.{Maps, block_at, map_blocks-Maps, map_blocks-new, find_l2_table-new}

-- The tables of both levels of blocks, before the block of the kernel is split into pages.
pub record Mapped (at : Layout) (s : Vm) : Type 0 where
  pub blocks : s.blocks_mapped ≡ 81
  pub pages : s.pages_mapped ≡ 0
  pub guard_pages : s.guard_pages ≡ 0
  pub validated : s.guard_pages_validated ≡ 0
  pub used : s.used_l2_tables ≡ 2
  pub slot_zero : s.l2_slots 0 ≡ record { l1_index = 0; used = true }
  pub slot_one : s.l2_slots 1 ≡ record { l1_index = 1; used = true }
  pub first :
      (i : ℕ)
      → i < 512
      → s.l1_table i ≡ (
          if i == 0
          then table_desc (l2_table_address at 0)
          else if i == 1
          then table_desc (l2_table_address at 1)
          else 0)
  pub mmio :
      (j : ℕ)
      → j < 512
      → s.l2_tables 0 j
        ≡ (if leb 64 j && ltb j 81 then l2_block_desc (block_at 0 j) device_memory_attr else 0)
  pub ram :
      (j : ℕ)
      → j < 512
      → s.l2_tables 1 j
        ≡ (if ltb j 64 then l2_block_desc (block_at 1 j) normal_xn_memory_attr else 0)

pub find_two :
    (test : ℕ → Bool)
    → find_first test 2 0 ≡ (if test 0 then some 0 else if test 1 then some 1 else none)
unfolding find_first
find_two test = elim (Bool-cases (test 0)) [
  | inl e ↦ rw (e, find_first) refl
  | inr e ↦ elim (Bool-cases (test 1)) [
    | inl f ↦ rw (e, f, find_first) refl
    | inr f ↦ rw (e, f, find_first) refl
  ]
]

-- The search for a table, with two tables there.
pub find_l2_table_lem :
    (s : Vm) (l1 : ℕ)
    → s.used_l2_tables ≡ 2
    → s.l2_slots 0 ≡ record { l1_index = 0; used = true }
    → s.l2_slots 1 ≡ record { l1_index = 1; used = true }
    → find_l2_table s l1 ≡ (if l1 == 0 then some 0 else if l1 == 1 then some 1 else none)
unfolding find_l2_table
find_l2_table_lem s l1 two zeroth first =
    ap (λ (n : ℕ). find_first (slot_holds s l1) n 0) two
    ∙ find_two (slot_holds s l1)
    ∙ rw (zeroth, first) (ground arith)

module _ (at : Layout) where
  map_region-mmio :
      (s : Vm)
      → map_region at s mmio_region
        ≡ map_blocks at 17 s (block_at 0 64) (block_at 0 64) device_memory_attr
  unfolding map_region region_is_l2_aligned
  map_region-mmio s = refl

  map_region-ram :
      (s : Vm)
      → map_region at s ram_region
        ≡ map_blocks at 64 s (block_at 1 0) (block_at 1 0) normal_xn_memory_attr
  unfolding map_region region_is_l2_aligned
  map_region-ram s = refl

  -- A region in a gigabyte that has no table yet.
  region-Maps :
      (n : ℕ) (s : Vm) (gigabyte b attributes : ℕ)
      → gigabyte < 512
      → b + suc n ≤ 512
      → find_l2_table s gigabyte ≡ none
      → s.used_l2_tables < l2_table_capacity
      → ((map_blocks at (suc n) s (block_at gigabyte b) (block_at gigabyte b) attributes).1 ≡ true)
        × Maps gigabyte s.used_l2_tables b
            (suc n)
            attributes
            (new_l2_table at s gigabyte)
            (map_blocks at (suc n) s (block_at gigabyte b) (block_at gigabyte b) attributes).0
  region-Maps n s gigabyte b attributes small fits missing room =
      rw (map_blocks-new at n s gigabyte b attributes small (omega arith) missing room) (
        map_blocks-Maps at (suc n) (new_l2_table at s gigabyte) gigabyte s.used_l2_tables b
          attributes small fits (find_l2_table-new at s gigabyte missing))

  after_mmio : Vm → Vm
  after_mmio s = (map_region at (cleared s) mmio_region).0

  pub after_ram : Vm → Vm
  after_ram s = (map_region at (after_mmio s) ram_region).0

  mmio-Maps :
      (s : Vm)
      → ((map_region at (cleared s) mmio_region).1 ≡ true)
        × Maps 0 0 64 17 device_memory_attr (new_l2_table at (cleared s) 0) (after_mmio s)
  unfolding after_mmio cleared find_l2_table find_first map_region map_blocks region_is_l2_aligned
      with_table
  mmio-Maps s = rw (map_region-mmio (cleared s)) (
      region-Maps 16 (cleared s) 0 64 device_memory_attr (omega arith) (omega arith) refl
        (omega arith))

  one_slot :
      (s : Vm)
      → ((after_mmio s).used_l2_tables ≡ 1)
        × ((after_mmio s).l2_slots 0 ≡ record { l1_index = 0; used = true })
  unfolding new_l2_table cleared
  one_slot s = let (_, m) = mmio-Maps s in (m.used, ap (λ (f : Array L2TableSlot). f 0) m.slots)

  no_ram_table : (s : Vm) → find_l2_table (after_mmio s) 1 ≡ none
  unfolding find_l2_table find_first
  no_ram_table s =
      let (used, slot) = one_slot s in
      ap (λ (n : ℕ). find_first (slot_holds (after_mmio s) 1) n 0) used
      ∙ ap
          (λ (e : L2TableSlot). elim (e.used && (e.l1_index == 1)) as (λ _. Option ℕ) [
            | true ↦ some 0
            | false ↦ none
          ])
          slot

  ram-Maps :
      (s : Vm)
      → ((map_region at (after_mmio s) ram_region).1 ≡ true)
        × Maps 1 1 0 64 normal_xn_memory_attr (new_l2_table at (after_mmio s) 1) (after_ram s)
  unfolding after_ram map_region map_blocks region_is_l2_aligned with_table
  ram-Maps s =
      let (used, _) = one_slot s in
      let (done, m) =
        region-Maps 63 (after_mmio s) 1 0 normal_xn_memory_attr (omega arith) (omega arith)
          (no_ram_table s) (omega (arith, used)) in
      rw (map_region-ram (after_mmio s)) (
        done,
        subst
            (λ n.
              Maps 1 n 0 64 normal_xn_memory_attr (new_l2_table at (after_mmio s) 1)
                (map_blocks at 64 (after_mmio s) (block_at 1 0) (block_at 1 0)
                  normal_xn_memory_attr).0)
            used m,
      )

  new_l2_table-first :
      (s : Vm) (l1 i : ℕ)
      → (new_l2_table at s l1).l1_table i
        ≡ (if i == l1 then table_desc (l2_table_address at s.used_l2_tables) else s.l1_table i)
  unfolding new_l2_table
  new_l2_table-first s l1 i = refl

  new_l2_table-entries :
      (s : Vm) (l1 t j : ℕ)
      → j < 512
      → (new_l2_table at s l1).l2_tables t j
        ≡ (if t == s.used_l2_tables then 0 else s.l2_tables t j)
  unfolding new_l2_table clear_table
  new_l2_table-entries s l1 t j l = elim (Bool-cases (t == s.used_l2_tables)) [
    | inl e ↦ let inside : ltb j 512 ≡ true = ground arith in rw (e, inside) refl
    | inr e ↦ rw e refl
  ]

  cleared-entries :
      (s : Vm) (t j : ℕ)
      → t < 4
      → j < 512
      → ((cleared s).l1_table j ≡ 0) × ((cleared s).l2_tables t j ≡ 0)
  unfolding cleared clear_table
  cleared-entries s t j few l =
      let inside : ltb j 512 ≡ true = ground arith in
      let slot : ltb t 4 ≡ true = ground arith in (rw inside refl, rw (slot, inside) refl)

  after_mmio-first :
      (s : Vm) (i : ℕ)
      → i < 512
      → (after_mmio s).l1_table i ≡ (if i == 0 then table_desc (l2_table_address at 0) else 0)
  unfolding cleared
  after_mmio-first s i l =
      let (_, m) = mmio-Maps s in
      let (empty, _) = cleared-entries s 0 i (omega arith) l in
      ap (λ (f : Array ℕ). f i) m.first
      ∙ new_l2_table-first (cleared s) 0 i
      ∙ elim (Bool-cases (i == 0)) [ inl e ↦ rw e refl | inr e ↦ rw (e, empty) refl ]

  after_mmio-zero :
      (s : Vm) (j : ℕ)
      → j < 512
      → (after_mmio s).l2_tables 0 j
        ≡ (if leb 64 j && ltb j 81 then l2_block_desc (block_at 0 j) device_memory_attr else 0)
  unfolding cleared
  after_mmio-zero s j l =
      let (_, m) = mmio-Maps s in
      let empty = new_l2_table-entries (cleared s) 0 0 j l in m.blocks j ∙ rw empty refl

  after_ram-first :
      (s : Vm) (i : ℕ)
      → i < 512
      → (after_ram s).l1_table i ≡ (
          if i == 0
          then table_desc (l2_table_address at 0)
          else if i == 1
          then table_desc (l2_table_address at 1)
          else 0)
  after_ram-first s i l =
      let (_, k) = ram-Maps s in
      let (used, _) = one_slot s in
      ap (λ (f : Array ℕ). f i) k.first
      ∙ new_l2_table-first (after_mmio s) 1 i
      ∙ rw (used, after_mmio-first s i l)
          (elim (Bool-cases (i == 1)) [
            | inl e ↦ let other : (i == 0) ≡ false = ground arith in rw (e, other) refl
            | inr e ↦ rw e refl
          ])

  pub after_ram-Mapped : (s : Vm) → Mapped at (after_ram s)
  unfolding new_l2_table cleared
  after_ram-Mapped s =
      let (_, m) = mmio-Maps s in
      let (_, k) = ram-Maps s in
      let (used, slot) = one_slot s in
      record {
        blocks =
            k.counted (omega (arith, m.counted (omega arith)))
            ∙ omega (arith, m.counted (omega arith));
        pages = k.pages_kept ∙ m.pages_kept;
        guard_pages = k.guards_kept ∙ m.guards_kept;
        validated = k.validated_kept ∙ m.validated_kept;
        used = k.used ∙ ap (λ (n : ℕ). n + 1) used;
        slot_zero = ap (λ (f : Array L2TableSlot). f 0) k.slots ∙ rw used slot;
        slot_one = ap (λ (f : Array L2TableSlot). f 1) k.slots ∙ rw used refl;
        first = after_ram-first s;
        mmio = λ j l.
            k.others 0 j (omega arith)
            ∙ new_l2_table-entries (after_mmio s) 1 0 j l
            ∙ rw used (after_mmio-zero s j l);
        ram = λ j l.
            let empty = new_l2_table-entries (after_mmio s) 1 1 j l in
            k.blocks j ∙ rw (empty, used) (ground arith);
      }

  regions_step :
      (s s' : Vm) (r : VmRegion) (rs : List VmRegion)
      → map_region at s r ≡ (s', true)
      → map_regions at s (r ∷ rs) ≡ map_regions at s' rs
  unfolding map_regions
  regions_step s s' r rs e = rw (map_regions, e) (ap (λ (q : Vm × Bool). map_regions at q.0 rs) e)

  pub regions_lem : (s : Vm) → map_regions at (cleared s) vm_regions ≡ (after_ram s, true)
  unfolding map_regions vm_regions after_ram after_mmio
  regions_lem s =
      let (one, _) = mmio-Maps s in
      let (two, _) = ram-Maps s in
      regions_step (cleared s) (after_mmio s) mmio_region (ram_region ∷ [])
        (ap (λ (b : Bool). (after_mmio s, b)) one)
      ∙ regions_step (after_mmio s) (after_ram s) ram_region []
          (ap (λ (b : Bool). (after_ram s, b)) two)
