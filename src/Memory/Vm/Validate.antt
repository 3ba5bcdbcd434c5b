-- ===== src/Memory/Vm/Validate.antt =====
-- `validate_tables` and `vm_init` of vm.c: the tables are walked over both regions before the MMU is enabled.
use saturn_os.Prelude.{
  ℕ, zero, suc, ◌-◌, ◌/◌, Bool, true, false, not, ◌&&◌, Option, none, some, List, [], ◌∷◌, ◌==◌,
  if◌then◌else◌, find_first, bit_and, add64, sub64,
}
use saturn_os.Arch.Mmu.{page_size, table_size, l2_block_size}
use saturn_os.Memory.Vm.{
  Layout, VmRegion, Vm, vm_regions, region_is_l2_aligned, vm_address_is_guard_page,
  l2_table_address,
}
use saturn_os.Memory.Vm.Build.{build_tables}
use saturn_os.Memory.Vm.Walk.{Translation, translation_for_address}

unfoldable pub validation_error : Vm → Vm
validation_error s = record s { validation_error_count = add64 s.validation_error_count 1 }

unfoldable pub table_is_aligned : ℕ → Bool
table_is_aligned table = bit_and table (table_size - 1) == 0

-- An error in a guard page is that it is translated.
unfoldable pub validate_guard : Vm → Option Translation → Vm × Option ℕ
validate_guard s (some t) = (validation_error s, none)
validate_guard s none =
    (record s { guard_pages_validated = add64 s.guard_pages_validated 1 }, some page_size)

-- Elsewhere the translation is to `pa`, and its level tells how far it reaches.
unfoldable pub validate_address : Vm → ℕ → Option Translation → Vm × Option ℕ
validate_address s pa none = (validation_error s, none)
validate_address s pa (some t) =
    if not (t.physical == pa)
    then (validation_error s, none)
    else if t.level == 2
    then (record s { blocks_validated = add64 s.blocks_validated 1 }, some l2_block_size)
    else (record s { pages_validated = add64 s.pages_validated 1 }, some page_size)

-- What follows a round, unless it found an error.
unfoldable pub after_round : (Vm → ℕ → Option (Vm × Bool)) → Vm × Option ℕ → Option (Vm × Bool)
after_round next_round (s, none) = some (s, false)
after_round next_round (s, some step) = next_round s step

-- The checks that end `validate_tables` with an error.
unfoldable pub check : Bool → Vm → (Vm → Option (Vm × Bool)) → Option (Vm × Bool)
check true s rest = rest s
check false s rest = some (validation_error s, false)

unfoldable pub then_check : Option (Vm × Bool) → (Vm → Option (Vm × Bool)) → Option (Vm × Bool)
then_check none rest = none
then_check (some (s, false)) rest = some (s, false)
then_check (some (s, true)) rest = rest s

unfoldable pub all_l2_tables_aligned : Option ℕ → Bool
all_l2_tables_aligned none = true
all_l2_tables_aligned (some slot) = false

-- The last checks of `validate_tables`.
unfoldable pub validate_counts : Vm → Option (Vm × Bool)
validate_counts s = check (s.blocks_validated == s.blocks_mapped) s (λ s1.
    check (s1.pages_validated == s1.pages_mapped) s1
      (λ s2. check (s2.guard_pages_validated == s2.guard_pages) s2 (λ s3. some (s3, true))))

module _ (at : Layout) where
  unfoldable pub validate_round : Vm → ℕ → ℕ → Vm × Option ℕ
  validate_round s va pa =
      if vm_address_is_guard_page at va
      then validate_guard s (translation_for_address at s va)
      else validate_address s pa (translation_for_address at s va)

  -- The loop of `validate_region`; `none` when the rounds do not suffice.
  unfoldable pub validate_loop : ℕ → Vm → ℕ → ℕ → ℕ → Option (Vm × Bool)
  validate_loop zero s va pa remaining = if remaining == 0 then some (s, true) else none
  validate_loop (suc rounds) s va pa remaining =
      if remaining == 0
      then some (s, true)
      else after_round
          (λ s' step.
            validate_loop rounds s' (add64 va step) (add64 pa step) (sub64 remaining step))
          (validate_round s va pa)

  -- A round takes a page at least, so there are at most as many rounds as pages.
  unfoldable pub validate_region : Vm → VmRegion → Option (Vm × Bool)
  validate_region s r =
      if not (region_is_l2_aligned r)
      then some (validation_error s, false)
      else validate_loop (r.size / page_size) s r.virtual_start r.physical_start r.size

  unfoldable pub validate_regions : Vm → List VmRegion → Option (Vm × Bool)
  validate_regions s [] = some (s, true)
  validate_regions s (r ∷ rs) = then_check (validate_region s r) (λ s'. validate_regions s' rs)

  -- The first table of the second level off its boundary.
  unfoldable pub misaligned_l2_table : Vm → Option ℕ
  misaligned_l2_table s =
      find_first (λ slot. not (table_is_aligned (l2_table_address at slot))) s.used_l2_tables 0

  unfoldable pub validate_all_regions : Vm → Option (Vm × Bool)
  validate_all_regions s = then_check (validate_regions s vm_regions) validate_counts

  unfoldable pub validate_l3_table : Vm → Option (Vm × Bool)
  validate_l3_table s =
      check (not (s.kernel_l3_mapped && not (table_is_aligned at.kernel_l3_table))) s
        validate_all_regions

  unfoldable pub validate_l2_tables : Vm → Option (Vm × Bool)
  validate_l2_tables s = check (all_l2_tables_aligned (misaligned_l2_table s)) s validate_l3_table

  unfoldable pub validate_tables : Vm → Option (Vm × Bool)
  validate_tables s =
      check (table_is_aligned at.l1_table)
        (record s { blocks_validated = 0; pages_validated = 0; validation_error_count = 0 })
        validate_l2_tables

  -- The call of `arm64_mmu_enable`: `enabled_root` is the table that it writes to the register. When the
  -- MMU is on, `mmu_on`, it returns at once and writes none.
  unfoldable pub enable : Bool → Vm → Vm
  enable mmu_on s =
      if s.ready
      then record s {
        enabled_root = if mmu_on then none else some at.l1_table;
        enable_attempted = true;
      }
      else s

  unfoldable pub set_validated : Bool → Option (Vm × Bool) → Option Vm
  set_validated mmu_on none = none
  set_validated mmu_on (some (s, valid)) =
      some (enable mmu_on (record s { validated = valid; ready = valid }))

  unfoldable pub vm_init : Bool → Vm → Option Vm
  vm_init mmu_on s =
      let (s', built) = build_tables at s in
      let s'' : Vm = record s' { tables_built = built; validated = false; ready = false } in
      elim built [
        | true ↦ set_validated mmu_on (validate_tables s'')
        | false ↦ some (enable mmu_on s'')
      ]
