-- ===== src/Memory/Vm/Validation.antt =====
-- `vm_init` of vm.c on the tables that `build_tables` leaves: the loops of the validation end, and they find
-- no error.
use saturn_os.Prelude.{
  ℕ, zero, suc, ◌+◌, ◌-◌, ◌*◌, ◌^◌, ◌≤◌, ◌<◌, ◌≡◌, ◌∙◌, refl, ap, Bool, true, false, ◌&&◌, Option,
  none, some, inl, inr, ltb, leb, ◌==◌, arith, Bool-cases, add64, sub64,
}
use saturn_os.Arch.Mmu.{page_size, l2_block_size, l3_page_desc}
use saturn_os.Memory.Vm.{
  Layout, Vm, vm_address_is_guard_page, kernel_page_attributes, kernel_l3_base, kernel_l3_end,
  device_mmio_end,
}
use saturn_os.Memory.Vm.Counts.{guards, guards-≤}
use saturn_os.Memory.Vm.Tables.{Built}
use saturn_os.Memory.Vm.Build.{find_l2_table}
use saturn_os.Memory.Vm.Walk.{walk_l2, walk_l3, read_l3, translation_for_address}
use saturn_os.Memory.Vm.Translate.{IsPlaced, reference, page_of, translation_for_address-Built}
use saturn_os.Memory.Vm.Validate.{
  validate_guard, validate_address, validate_round, validate_loop, after_round,
}

-- The state with other counts of what was validated.
abbrev pub counting : Vm → ℕ → ℕ → ℕ → Vm
counting s blocks pages guard_pages = record s {
  blocks_validated = blocks;
  pages_validated = pages;
  guard_pages_validated = guard_pages;
}

module _ (at : Layout) where
  validate_loop-round :
      (n : ℕ) (s s' : Vm) (va remaining step : ℕ)
      → 0 < remaining
      → validate_round at s va va ≡ (s', some step)
      → validate_loop at (suc n) s va va remaining
        ≡ validate_loop at n s' (add64 va step) (add64 va step) (sub64 remaining step)
  unfolding validate_loop after_round
  validate_loop-round n s s' va remaining step l e =
      let more : (remaining == 0) ≡ false = ground arith in
      rw (validate_loop, more)
        (ap
          (after_round (λ s' step.
            validate_loop at n s' (add64 va step) (add64 va step) (sub64 remaining step)))
          e)

-- An address of a block outside the guard pages.
pub record IsBlock (at : Layout) (address : ℕ) : Type 0 where
  pub descriptor : ℕ
  pub free : vm_address_is_guard_page at address ≡ false
  pub found :
      reference at address
      ≡ some (record { physical = address; descriptor = descriptor; level = 2 })

abbrev page_at : ℕ → ℕ
page_at i = kernel_l3_base + i * page_size

module _ (at : Layout) where
  validate_loop-done : (n : ℕ) (s : Vm) (va : ℕ) → validate_loop at n s va va 0 ≡ some (s, true)
  unfolding validate_loop
  validate_loop-done zero s va = refl
  validate_loop-done (suc n) s va = refl

  reference-page :
      (i : ℕ)
      → i < 512
      → vm_address_is_guard_page at (page_at i) ≡ false
      → reference at (page_at i)
        ≡ some (record {
          physical = page_at i;
          descriptor = l3_page_desc (page_at i) (kernel_page_attributes at (page_at i));
          level = 3;
        })
  unfolding reference
  reference-page i l free =
      let page : page_of (page_at i) ≡ page_at i = omega arith in
      let range : leb 0x08000000 (page_at i) && ltb (page_at i) device_mmio_end ≡ false =
        ground arith in
      let block : leb kernel_l3_base (page_at i) && ltb (page_at i) kernel_l3_end ≡ true =
        ground arith in
      rw (reference, range, block, page, free) refl

  reference-guard :
      (i : ℕ)
      → i < 512
      → vm_address_is_guard_page at (page_at i) ≡ true
      → reference at (page_at i) ≡ none
  unfolding reference
  reference-guard i l guard =
      let page : page_of (page_at i) ≡ page_at i = omega arith in
      let range : leb 0x08000000 (page_at i) && ltb (page_at i) device_mmio_end ≡ false =
        ground arith in
      let block : leb kernel_l3_base (page_at i) && ltb (page_at i) kernel_l3_end ≡ true =
        ground arith in
      rw (reference, range, block, page, guard) refl

module _ (at : Layout) (placed : IsPlaced at) (s : Vm) (built : Built at s) where
  -- The counts are no part of the tables.
  translation_lem :
      (blocks pages guard_pages address : ℕ)
      → address < 2 ^ 39
      → translation_for_address at (counting s blocks pages guard_pages) address
        ≡ reference at address
  unfolding translation_for_address walk_l2 walk_l3 read_l3 find_l2_table
  translation_lem blocks pages guard_pages address small =
      translation_for_address-Built at placed s built address small

  block_round :
      (b p g va : ℕ)
      → va < 2 ^ 39
      → IsBlock at va
      → validate_round at (counting s b p g) va va
        ≡ (counting s (add64 b 1) p g, some l2_block_size)
  unfolding validate_round validate_address
  block_round b p g va small h =
      let same : (va == va) ≡ true = ground arith in
      rw (validate_round, h.free, translation_lem b p g va small ∙ h.found, same) refl

  page_round :
      (b p g i : ℕ)
      → i < 512
      → vm_address_is_guard_page at (page_at i) ≡ false
      → validate_round at (counting s b p g) (page_at i) (page_at i)
        ≡ (counting s b (add64 p 1) g, some page_size)
  unfolding validate_round validate_address
  page_round b p g i l free =
      let same : (page_at i == page_at i) ≡ true = ground arith in
      rw
        (
          validate_round,
          free,
          translation_lem b p g (page_at i) (omega arith) ∙ reference-page at i l free,
          same,
        )
        refl

  guard_round :
      (b p g i : ℕ)
      → i < 512
      → vm_address_is_guard_page at (page_at i) ≡ true
      → validate_round at (counting s b p g) (page_at i) (page_at i)
        ≡ (counting s b p (add64 g 1), some page_size)
  unfolding validate_round validate_guard
  guard_round b p g i l guard =
      rw
        (
          validate_round,
          guard,
          translation_lem b p g (page_at i) (omega arith) ∙ reference-guard at i l guard,
        )
        refl

  -- The loop over blocks up to the end of a region.
  pub blocks_loop :
      (k n b p g va : ℕ)
      → k ≤ n
      → va + k * 2 ^ 21 < 2 ^ 39
      → b + k < 2 ^ 64
      → ((a : ℕ) → va ≤ a → a < va + k * 2 ^ 21 → IsBlock at a)
      → validate_loop at n (counting s b p g) va va (k * 2 ^ 21)
        ≡ some (counting s (b + k) p g, true)
  blocks_loop zero n b p g va le small room all =
      validate_loop-done at n (counting s b p g) va
      ∙ ap (λ (c : ℕ). some (counting s c p g, true)) (omega arith)
  blocks_loop (suc k) zero b p g va le small room all = absurd (omega arith)
  blocks_loop (suc k) (suc n) b p g va le small room all =
      let here : add64 va l2_block_size ≡ va + 2 ^ 21 = omega arith in
      let left : sub64 (suc k * 2 ^ 21) l2_block_size ≡ k * 2 ^ 21 = omega arith in
      let count : add64 b 1 ≡ b + 1 = omega arith in
      let total : b + 1 + k ≡ b + suc k = omega arith in
      validate_loop-round at n (counting s b p g) (counting s (add64 b 1) p g) va (suc k * 2 ^ 21)
        l2_block_size (omega arith)
        (block_round b p g va (omega arith) (all va (omega arith) (omega arith)))
      ∙ rw (here, left, count)
          (blocks_loop k n (b + 1) p g (va + 2 ^ 21) (omega arith) (omega arith) (omega arith)
            (λ a l m. all a (omega arith) (omega arith)))
      ∙ ap (λ (c : ℕ). some (counting s c p g, true)) total

  abbrev loop : ℕ → ℕ → ℕ → ℕ → ℕ → ℕ → Option (Vm × Bool)
  loop n b p g va remaining = validate_loop at n (counting s b p g) va va remaining

  loop_same :
      (n n' b p p' g g' va va' remaining remaining' : ℕ)
      → n ≡ n'
      → p ≡ p'
      → g ≡ g'
      → va ≡ va'
      → remaining ≡ remaining'
      → loop n b p g va remaining ≡ loop n' b p' g' va' remaining'
  loop_same n n' b p p' g g' va va' remaining remaining' e f h k l = rw (e, f, h, k, l) refl

  -- The loop over pages of the block of the kernel.
  pub pages_loop :
      (k n b p g i more : ℕ)
      → k ≤ n
      → i + k ≤ 512
      → more < 2 ^ 63
      → p + k < 2 ^ 64
      → g + k < 2 ^ 64
      → validate_loop at n (counting s b p g) (page_at i) (page_at i) (k * 4096 + more)
        ≡ validate_loop at
            (n - k)
            (counting s b (p + k - guards at k i) (g + guards at k i))
            (page_at (i + k))
            (page_at (i + k))
            more
  unfolding guards
  pages_loop zero n b p g i more le small room pages guard_pages =
      loop_same _ _ b _ _ _ _ _ _ _ _ (omega arith) (omega arith) (omega arith) (omega arith)
        (omega arith)
  pages_loop (suc k) zero b p g i more le small room pages guard_pages = absurd (omega arith)
  pages_loop (suc k) (suc n) b p g i more le small room pages guard_pages =
      let here : add64 (page_at i) page_size ≡ page_at (suc i) = omega arith in
      let left : sub64 (suc k * 4096 + more) page_size ≡ k * 4096 + more = omega arith in
      let fewer = guards-≤ at k (suc i) in
      elim (Bool-cases (vm_address_is_guard_page at (page_at i))) [
        | inl guard ↦
            validate_loop-round at n (counting s b p g) (counting s b p (add64 g 1)) (page_at i)
              (suc k * 4096 + more) page_size (omega arith)
              (guard_round b p g i (omega arith) guard)
            ∙ loop_same n n b p p (add64 g 1) (g + 1) _ _ _ _ refl refl (omega arith) here left
            ∙ pages_loop k n b p (g + 1) (suc i) more (omega arith) (omega arith) room (omega arith)
                (omega arith)
            ∙ rw guard (
                loop_same _ _ b _ _ _ _ _ _ _ _ (omega arith) (omega arith) (omega arith)
                  (omega arith) refl)
        | inr free ↦
            validate_loop-round at n (counting s b p g) (counting s b (add64 p 1) g) (page_at i)
              (suc k * 4096 + more) page_size (omega arith) (page_round b p g i (omega arith) free)
            ∙ loop_same n n b (add64 p 1) (p + 1) g g _ _ _ _ refl (omega arith) refl here left
            ∙ pages_loop k n b (p + 1) g (suc i) more (omega arith) (omega arith) room (omega arith)
                (omega arith)
            ∙ rw free (
                loop_same _ _ b _ _ _ _ _ _ _ _ (omega arith) (omega arith) refl (omega arith) refl)
      ]
