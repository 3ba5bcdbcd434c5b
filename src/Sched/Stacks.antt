-- ===== src/Sched/Stacks.antt =====
-- The layout of the kernel stacks in scheduler.c: a guard page, a stack page, and so on, ending in
-- a guard page. `base` is the address of `task_stack_region`.
pub mod Layout
use saturn_os.Prelude.{
  ℕ, ◌+◌, ◌-◌, ◌*◌, Bool, true, false, ◌&&◌, Option, none, some, ltb, leb, if◌then◌else◌,
  find_first,
}

abbrev pub max_tasks : ℕ
max_tasks = 8

abbrev pub stack_size : ℕ
stack_size = 4096

abbrev pub stack_guard_size : ℕ
stack_guard_size = 4096

abbrev pub stack_slot_size : ℕ
stack_slot_size = stack_guard_size + stack_size

abbrev pub stack_region_bytes : ℕ
stack_region_bytes = max_tasks * stack_slot_size + stack_guard_size

unfoldable pub stack_guard_start : ℕ → ℕ → ℕ
stack_guard_start base index =
    base + (if ltb max_tasks index then max_tasks else index) * stack_slot_size

unfoldable pub stack_guard_end : ℕ → ℕ → ℕ
stack_guard_end base index = stack_guard_start base index + stack_guard_size

unfoldable pub stack_start : ℕ → ℕ → ℕ
stack_start base index = stack_guard_end base (if leb max_tasks index then max_tasks - 1 else index)

unfoldable pub stack_end : ℕ → ℕ → ℕ
stack_end base index = stack_start base index + stack_size

abbrev pub found : Option ℕ → Bool
found none = false
found (some i) = true

unfoldable pub address_is_stack : ℕ → ℕ → Bool
address_is_stack base address = found (
    find_first (λ i. leb (stack_start base i) address && ltb address (stack_end base i)) max_tasks
      0)

unfoldable pub address_is_stack_guard : ℕ → ℕ → Bool
address_is_stack_guard base address = found (
    find_first (λ i. leb (stack_guard_start base i) address && ltb address (stack_guard_end base i))
      (max_tasks + 1) 0)
