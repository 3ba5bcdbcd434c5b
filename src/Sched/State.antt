-- ===== src/Sched/State.antt =====
-- The variables of scheduler.c and arch/arm64/user.c, and the helpers that every operation shares.
use saturn_os.Prelude.{
  ℕ, zero, suc, ◌+◌, ◌%◌, Bool, false, not, ◌&&◌, ◌||◌, Option, none, some, leb, ◌==◌,
  if◌then◌else◌, Array, update, find_first, map_range, add64, minus_one,
}
use saturn_os.Sched.Task.{
  Task, unused, ready, running, is_unused, is_ready, is_running, is_sleeping, AddressSpace,
  is_user_kind, switch_blocked, SpaceRef, null_space, kernel_space, space_of_task, null_entry,
  cleared_context, cleared_memory, cleared_el0, cleared_user_status, cleared_accounting,
  cleared_files,
}

-- Why user.c does not recover a session from an exception.
pub data RejectReason : Type 0 where
  reject_none reject_bad_roots reject_bad_return reject_unexpected_mode : RejectReason

-- `struct user_session_state`. The task is given by its number.
pub record Session : Type 0 where
  pub active : Bool
  pub completed : Bool
  pub faulted : Bool
  pub last_reject_reason : RejectReason
  pub reject_count : ℕ
  pub task : Option ℕ
  pub return_pc : ℕ
  pub kernel_root : ℕ
  pub user_root : ℕ

-- `ttbr0` is the register that `arm64_mmu_switch_ttbr0` sets.
pub record Sched : Type 0 where
  pub tasks : Array Task
  pub stack_base : ℕ
  pub current_task : ℕ
  pub task_count : ℕ
  pub threads_started : Bool
  pub scheduler_ticks : ℕ
  pub kernel_address_space : AddressSpace
  pub user_table_slots_used : Array Bool
  pub user_sessions : Array Session
  pub ttbr0 : ℕ

abbrev pub user_table_slots : ℕ
user_table_slots = 4

-- `tasks[pid].… = …`
abbrev pub set_task : Sched → ℕ → Task → Sched
set_task s pid t = record s { tasks = update s.tasks pid t }

-- The address space that a pointer leads to.
unfoldable pub space_at : Sched → SpaceRef → Option AddressSpace
space_at s null_space = none
space_at s kernel_space = some s.kernel_address_space
space_at s (space_of_task p) = some (s.tasks p).user_address_space

unfoldable pub destroyed : AddressSpace → AddressSpace
destroyed a = record a {
  user_table_slot = user_table_slots;
  user_tables_ready = false;
  user_descriptors_ready = false;
  user_mappings_ready = false;
  user_image_ready = false;
  user_execute_ready = false;
  validation_ready = false;
  switch_is_ready = false;
  switch_status = switch_blocked;
  switch_stub_status = switch_blocked;
}

unfoldable pub destroy_space_of_task : Sched → ℕ → Sched
destroy_space_of_task s p =
    let a : AddressSpace = (s.tasks p).user_address_space in
    if not (is_user_kind a.kind) || leb user_table_slots a.user_table_slot then s else record s {
      tasks = update s.tasks p (record (s.tasks p) { user_address_space = destroyed a });
      user_table_slots_used = update s.user_table_slots_used a.user_table_slot false;
    }

-- The kernel's address space is none of a user's, so it is left alone.
unfoldable pub address_space_destroy_user : Sched → SpaceRef → Sched
address_space_destroy_user s null_space = s
address_space_destroy_user s kernel_space = s
address_space_destroy_user s (space_of_task p) = destroy_space_of_task s p

-- The fields that `scheduler_clear_task_slot` gives back their first values.
unfoldable pub cleared_task : ℕ → Task → Task
cleared_task pid t = record t {
  pid = pid;
  parent_pid = minus_one;
  name = "unused";
  state = unused;
  entry = null_entry;
  sleep_until_tick = 0;
  sleep_requested_ms = 0;
  context = cleared_context;
  accounting = cleared_accounting;
  memory = cleared_memory;
  el0 = cleared_el0;
  user_status = cleared_user_status;
  files = cleared_files;
}

unfoldable pub clear_task_slot : Sched → ℕ → Sched
clear_task_slot s pid =
    let s' : Sched = address_space_destroy_user s (s.tasks pid).memory.address_space in
    set_task s' pid (cleared_task pid (s'.tasks pid))

-- `while (task_count > 1 && tasks[task_count - 1].state == TASK_UNUSED) task_count--;`
unfoldable pub trim_count : Array Task → ℕ → ℕ
trim_count ts zero = zero
trim_count ts (suc zero) = suc zero
trim_count ts (suc (suc n)) =
    if is_unused (ts (suc n)).state then trim_count ts (suc n) else suc (suc n)

unfoldable pub trim_unused_tail : Sched → Sched
trim_unused_tail s = record s { task_count = trim_count s.tasks s.task_count }

unfoldable pub task_is_runnable : Task → Bool
task_is_runnable t = is_ready t.state || is_running t.state

unfoldable pub set_running_task : Sched → ℕ → Sched
set_running_task s pid = set_task s pid (record (s.tasks pid) {
  state = running;
  accounting = record (s.tasks pid).accounting {
    switches = add64 (s.tasks pid).accounting.switches 1;
  };
})

unfoldable pub task_is_kernel_task : Sched → Task → Bool
task_is_kernel_task s t = elim (space_at s t.memory.address_space) [
  | none ↦ false
  | some a ↦ not (is_user_kind a.kind)
]

-- The body of the loop of `scheduler_wake_sleeping_tasks`.
unfoldable pub wake_task : ℕ → Task → Task
wake_task ticks t =
    if is_sleeping t.state && leb t.sleep_until_tick ticks
    then record t {
      state = ready;
      sleep_until_tick = 0;
      sleep_requested_ms = 0;
      accounting = record t.accounting { sleep_wakeups = add64 t.accounting.sleep_wakeups 1 };
    }
    else t

unfoldable pub wake_sleeping_tasks : Sched → Sched
wake_sleeping_tasks s = record s {
  tasks = map_range (λ i t. wake_task s.scheduler_ticks t) s.task_count 0 s.tasks;
}

-- The tasks in the order of the search: the one behind the current task first, the current last.
unfoldable pub candidate : Sched → ℕ → ℕ
candidate s i = (s.current_task + i) % s.task_count

unfoldable pub candidate_runs : Sched → ℕ → Bool
candidate_runs s i = not (candidate s i == 0) && task_is_runnable (s.tasks (candidate s i))

unfoldable pub next_runnable_task : Sched → ℕ
next_runnable_task s = elim (find_first (candidate_runs s) s.task_count 1) [
  | some i ↦ candidate s i
  | none ↦ if task_is_runnable (s.tasks 0) then 0 else s.current_task
]
