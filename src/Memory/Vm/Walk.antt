-- ===== src/Memory/Vm/Walk.antt =====
-- `translation_for_address` and `vm_walk_address` of vm.c.
use saturn_os.Prelude.{ℕ, ◌+◌, ◌-◌, ◌*◌, not, Option, none, some, ◌==◌, if◌then◌else◌, bit_and}
use saturn_os.Arch.Mmu.{
  page_size, l2_block_size, l1_index, l2_index, l3_index, desc_is_table, desc_is_l2_block,
  desc_is_l3_page, desc_address, l2_block_address, l3_page_address,
}
use saturn_os.Memory.Vm.{Layout, Vm}
use saturn_os.Memory.Vm.Build.{find_l2_table}

pub record Translation : Type 0 where
  pub physical : ℕ
  pub descriptor : ℕ
  pub level : ℕ

module _ (at : Layout) (s : Vm) where
  -- The word that is read through a pointer to a table of the third level.
  unfoldable pub read_l3 : ℕ → ℕ → ℕ
  read_l3 table index =
      if table == at.kernel_l3_table then s.kernel_l3_table index else at.memory (table + index * 8)

  unfoldable pub walk_l3 : ℕ → ℕ → Option Translation
  walk_l3 address descriptor =
      if not (desc_is_l3_page descriptor)
      then none
      else some (record {
        physical = l3_page_address descriptor + bit_and address (page_size - 1);
        descriptor = descriptor;
        level = 3;
      })

  unfoldable pub walk_l2 : ℕ → ℕ → Option Translation
  walk_l2 address descriptor =
      if desc_is_l2_block descriptor
      then some (record {
        physical = l2_block_address descriptor + bit_and address (l2_block_size - 1);
        descriptor = descriptor;
        level = 2;
      })
      else if not (desc_is_table descriptor)
      then none
      else walk_l3 address (read_l3 (desc_address descriptor) (l3_index address))

  unfoldable pub translation_for_address : ℕ → Option Translation
  translation_for_address address =
      if not (desc_is_table (s.l1_table (l1_index address)))
      then none
      else elim (find_l2_table s (l1_index address)) [
        | none ↦ none
        | some slot ↦ walk_l2 address (s.l2_tables slot (l2_index address))
      ]

  -- The physical address, or `none` for the result 0.
  unfoldable pub vm_walk_address : ℕ → Option ℕ
  vm_walk_address address = elim (translation_for_address address) [
    | none ↦ none
    | some t ↦ some t.physical
  ]
