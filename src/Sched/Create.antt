-- ===== src/Sched/Create.antt =====
-- The operations of scheduler.c that fill a task slot.
use Prim.Native.String.{String}
use saturn_os.Prelude.{
  ℕ, ◌+◌, ◌-◌, ◌*◌, ◌/◌, Bool, true, false, not, ◌||◌, Option, none, some, leb, ◌==◌, if◌then◌else◌,
  update, find_first, ℤ, pos, minus_one,
}
use saturn_os.Sched.Task.{
  Task, TaskMemory, TaskEl0State, AddressSpace, CpuContext, ready, is_unused, is_user_kind,
  kernel_space, Entry, null_entry, idle_task, entry_link, thread_trampoline, cleared_context,
  cleared_el0, cleared_user_status, cleared_accounting, cleared_files,
}
use saturn_os.Sched.Stacks.{max_tasks, stack_guard_start, stack_guard_end, stack_start, stack_end}
use saturn_os.Sched.State.{Sched}

-- `value & ~0xF`
abbrev pub align16 : ℕ → ℕ
align16 value = value / 16 * 16

-- ARM64_SPSR_EL0T of arch/arm64/cpu.h.
abbrev pub spsr_el0t : ℕ
spsr_el0t = 0

unfoldable pub init_task_memory : ℕ → ℕ → TaskMemory
init_task_memory base pid = record {
  address_space = kernel_space;
  stack_start = stack_start base pid;
  stack_end = stack_end base pid;
  guard_low_start = stack_guard_start base pid;
  guard_low_end = stack_guard_end base pid;
  guard_high_start = stack_guard_start base (pid + 1);
  guard_high_end = stack_guard_end base (pid + 1);
}

unfoldable pub init_task_el0 : Option AddressSpace → TaskEl0State
init_task_el0 none = cleared_el0
init_task_el0 (some a) =
    if not (is_user_kind a.kind)
    then cleared_el0
    else if not a.user_mappings_ready || not a.user_execute_ready
    then cleared_el0
    else record {
      pc = if a.user_image_ready then a.user_image_entry else a.user_code_start;
      sp = align16 a.user_stack_end;
      spsr = spsr_el0t;
      ready = true;
    }

abbrev pub has_entry : Entry → Bool
has_entry null_entry = false
has_entry _ = true

unfoldable pub new_context : ℕ → ℕ → Entry → CpuContext
new_context base pid entry =
    if has_entry entry
    then record {
      saved = cleared_context.saved;
      lr = if pid == 0 then entry_link entry else thread_trampoline;
      sp = align16 (stack_end base pid);
    }
    else cleared_context

-- The slot that a new task takes: the first unused one behind the idle task, or else the one
-- behind the last.
unfoldable pub free_slot : Sched → Option ℕ
free_slot s = elim (find_first (λ i. is_unused (s.tasks i).state) (s.task_count - 1) 1) [
  | some i ↦ some i
  | none ↦ if leb max_tasks s.task_count then none else some s.task_count
]

-- `task_count` after the slot is taken.
unfoldable pub count_with_slot : Sched → ℕ → ℕ
count_with_slot s pid = if pid == s.task_count then s.task_count + 1 else s.task_count

unfoldable pub new_task : Sched → ℕ → String → Entry → Task → Task
new_task s pid name entry t = record t {
  pid = pid;
  parent_pid = minus_one;
  name = name;
  state = ready;
  entry = entry;
  sleep_until_tick = 0;
  sleep_requested_ms = 0;
  accounting = cleared_accounting;
  context = new_context s.stack_base pid entry;
  memory = init_task_memory s.stack_base pid;
  el0 = init_task_el0 (some s.kernel_address_space);
  user_status = cleared_user_status;
  files = cleared_files;
}

unfoldable pub scheduler_add_task : Sched → String → Entry → Sched × ℤ
scheduler_add_task s name entry = elim (free_slot s) [
  | none ↦ (s, minus_one)
  | some pid ↦ (
    record s {
      tasks = update s.tasks pid (new_task s pid name entry (s.tasks pid));
      task_count = count_with_slot s pid;
    },
    pos pid,
  )
]

unfoldable pub cleared_scheduler : Sched → Sched
cleared_scheduler s = record s {
  task_count = 0;
  current_task = 0;
  threads_started = false;
  scheduler_ticks = 0;
}

-- `scheduler_init` and `scheduler_create_kernel_thread`, less what they print.
unfoldable pub scheduler_init : Sched → Sched
scheduler_init s = (scheduler_add_task (cleared_scheduler s) "idle" idle_task).0

unfoldable pub scheduler_create_kernel_thread : Sched → String → Entry → Sched × ℤ
scheduler_create_kernel_thread s name entry = scheduler_add_task s name entry
