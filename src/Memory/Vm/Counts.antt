-- ===== src/Memory/Vm/Counts.antt =====
-- The counts that `build_tables` of vm.c keeps.
use saturn_os.Prelude.{
  ℕ, zero, suc, ◌+◌, ◌*◌, ◌^◌, ◌≤◌, ◌<◌, ◌≡◌, refl, ap, sym, subst, true, false, inl, inr, arith,
  if◌then◌else◌, update, Bool-cases, add64,
}
use saturn_os.Arch.Mmu.{page_size}
use saturn_os.Memory.Vm.{Layout, Vm, kernel_l3_base, vm_address_is_guard_page}
use saturn_os.Memory.Vm.Build.{count_page, map_page, map_pages, kernel_page_desc}

-- What a loop over `n` pages with `g` guard pages does to the counts.
pub record PagesCounted (n g : ℕ) (s s' : Vm) : Type 0 where
  pub guard_pages : s'.guard_pages ≡ s.guard_pages + g
  pub pages_mapped : s'.pages_mapped + g ≡ s.pages_mapped + n
  pub blocks_mapped : s'.blocks_mapped ≡ s.blocks_mapped
  pub validated : s'.guard_pages_validated ≡ s.guard_pages_validated

module _ (at : Layout) where
  -- The guard pages among `n` pages of the kernel's block from the page `i` on.
  unfoldable pub guards : ℕ → ℕ → ℕ
  guards zero i = 0
  guards (suc n) i =
      let rest = guards n (suc i) in
      if vm_address_is_guard_page at (kernel_l3_base + i * page_size) then suc rest else rest

  pub guards-≤ : (n i : ℕ) → guards n i ≤ n
  unfolding guards
  guards-≤ zero i = omega arith
  guards-≤ (suc n) i = ground (arith, guards-≤ n (suc i))

  map_page-guard :
      (s : Vm) (i : ℕ)
      → vm_address_is_guard_page at (kernel_l3_base + i * page_size) ≡ true
      → map_page at s i ≡ record s { guard_pages = add64 s.guard_pages 1 }
  unfolding map_page
  map_page-guard s i guard = rw (guard, map_page) refl

  map_page-free :
      (s : Vm) (i : ℕ)
      → vm_address_is_guard_page at (kernel_l3_base + i * page_size) ≡ false
      → map_page at s i
        ≡ count_page
            (kernel_page_desc at i)
            (record s { kernel_l3_table = update s.kernel_l3_table i (kernel_page_desc at i) })
  unfolding map_page
  map_page-free s i free = rw (free, map_page) refl

  pub map_pages_counts :
      (n i : ℕ) (s : Vm)
      → s.guard_pages + n < 2 ^ 64
      → s.pages_mapped + n < 2 ^ 64
      → PagesCounted n (guards n i) s (map_pages at n i s)
  unfolding map_pages guards count_page
  map_pages_counts zero i s l m = record {
    guard_pages = omega arith;
    pages_mapped = omega arith;
    blocks_mapped = refl;
    validated = refl;
  }
  map_pages_counts (suc n) i s l m =
      elim (Bool-cases (vm_address_is_guard_page at (kernel_l3_base + i * page_size))) [
        | inl guard ↦
            let c =
              map_pages_counts n (suc i) (record s { guard_pages = add64 s.guard_pages 1 })
                (omega arith) (omega arith) in
            rw guard (
              subst (PagesCounted (suc n) (suc (guards n (suc i))) s)
                (ap (map_pages at n (suc i)) (sym (map_page-guard s i guard)))
                (record {
                  guard_pages = omega (arith, c.guard_pages);
                  pages_mapped = omega (arith, c.pages_mapped);
                  blocks_mapped = c.blocks_mapped;
                  validated = c.validated;
                }))
        | inr free ↦
            let s' : Vm =
              count_page (kernel_page_desc at i) (record s {
                kernel_l3_table = update s.kernel_l3_table i (kernel_page_desc at i);
              }) in
            let c = map_pages_counts n (suc i) s' (omega arith) (omega arith) in
            rw free (
              subst (PagesCounted (suc n) (guards n (suc i)) s)
                (ap (map_pages at n (suc i)) (sym (map_page-free s i free)))
                (record {
                  guard_pages = omega (arith, c.guard_pages);
                  pages_mapped = omega (arith, c.pages_mapped);
                  blocks_mapped = c.blocks_mapped;
                  validated = c.validated;
                }))
      ]
