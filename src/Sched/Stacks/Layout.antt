-- ===== src/Sched/Stacks/Layout.antt =====
-- The addresses of the stack region of scheduler.c, page by page.
use saturn_os.Prelude.{
  ℕ, ◌+◌, ◌-◌, ◌*◌, ◌/◌, ◌%◌, ◌<◌, ◌≤◌, ◌≡◌, Bool, false, ◌&&◌, Option, none, some, arith, ltb, leb,
  ◌==◌, Finds, find_first-Finds, ◌||◌,
}
use saturn_os.Sched.Stacks.{
  max_tasks, stack_size, stack_region_bytes, stack_guard_start, stack_guard_end, stack_start,
  stack_end, found, address_is_stack, address_is_stack_guard,
}

abbrev pub in_region : ℕ → ℕ → Bool
in_region base address = leb base address && ltb address (base + stack_region_bytes)

-- The number of an address's page, counted from the start of the region.
abbrev pub page_of : ℕ → ℕ → ℕ
page_of base address = (address - base) / 4096

stack_at : (base i : ℕ) → i < max_tasks → stack_start base i ≡ base + i * 8192 + 4096
unfolding stack_start stack_guard_end stack_guard_start
stack_at base i h = ground arith

guard_at : (base i : ℕ) → i ≤ max_tasks → stack_guard_start base i ≡ base + i * 8192
unfolding stack_guard_start
guard_at base i h = ground arith

-- An address is in a stack exactly when its page is an odd one of the region.
pub address_is_stack_lem :
    (base address : ℕ)
    → address_is_stack base address ≡ (in_region base address && (page_of base address % 2 == 1))
unfolding address_is_stack stack_end
address_is_stack_lem base address = go _ (find_first-Finds _ max_tasks 0)
  where
    go :
        (r : Option ℕ)
        → Finds
            (λ i. leb (stack_start base i) address && ltb address (stack_start base i + stack_size))
            max_tasks
            0
            r
        → found r ≡ (in_region base address && (page_of base address % 2 == 1))
    go none miss = let i : ℕ = page_of base address / 2 in ground (arith, miss i, stack_at base i)
    go (some i) (hit, _, inside, _) = ground (arith, stack_at base i)

-- An address is in a guard exactly when its page is an even one of the region.
pub address_is_stack_guard_lem :
    (base address : ℕ)
    → address_is_stack_guard base address
      ≡ (in_region base address && (page_of base address % 2 == 0))
unfolding address_is_stack_guard stack_guard_end
address_is_stack_guard_lem base address = go _ (find_first-Finds _ (max_tasks + 1) 0)
  where
    go :
        (r : Option ℕ)
        → Finds
            (λ i.
              leb (stack_guard_start base i) address
              && ltb address (stack_guard_start base i + 4096))
            (max_tasks + 1)
            0
            r
        → found r ≡ (in_region base address && (page_of base address % 2 == 0))
    go none miss = let i : ℕ = page_of base address / 2 in ground (arith, miss i, guard_at base i)
    go (some i) (hit, _, inside, _) = ground (arith, guard_at base i)

-- Each address of the region is in a stack or in a guard and never in both; no other address is in
-- either.
pub stack_partition :
    (base address : ℕ)
    → ((address_is_stack base address && address_is_stack_guard base address) ≡ false)
      × ((address_is_stack base address || address_is_stack_guard base address)
          ≡ in_region base address)
stack_partition base address =
    rw (address_is_stack_lem base address, address_is_stack_guard_lem base address)
      (ground arith, ground arith)

-- The stack of a task ends before the guard in front of the stack of any task with a larger number,
-- and that guard ends where the stack begins.
pub stacks_apart :
    (base i j : ℕ)
    → i < j
    → j < max_tasks
    → (stack_end base i ≤ stack_guard_start base j) × (stack_guard_end base j ≡ stack_start base j)
unfolding stack_end stack_guard_end
stacks_apart base i j h k = ground (arith, stack_at base i, stack_at base j, guard_at base j)
