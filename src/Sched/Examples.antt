-- ===== src/Sched/Examples.antt =====
-- The theorems of the scheduler at concrete states.
use saturn_os.Prelude.{
  ℕ, ◌+◌, ◌*◌, ◌≤◌, ◌≡◌, ◌≢◌, true, false, ◌&&◌, ◌||◌, none, arith, leb, ◌==◌, if◌then◌else◌, refl,
  pos, minus_one, Array, find_first, map_range,
}
use saturn_os.Sched.Task.{
  Task, TaskState, unused, ready, running, sleeping, AddressSpace, UserRegion, user_kind,
  kernel_kind, switch_blocked, space_of_task, idle_task, null_entry, thread, cleared_context,
  cleared_memory, cleared_el0, cleared_user_status, cleared_accounting, cleared_files,
}
use saturn_os.Sched.Stacks.{address_is_stack, address_is_stack_guard}
use saturn_os.Sched.Stacks.Layout.{in_region, stack_partition}
use saturn_os.Sched.State.{
  Sched, Session, reject_none, task_is_runnable, space_at, next_runnable_task, wake_sleeping_tasks,
  set_running_task, candidate_runs, candidate, wake_task,
}
use saturn_os.Sched.Switch.{
  asleep, sleep_ticks, scheduler_exit, state_of, scheduler_preempt, scheduler_tick,
  scheduler_start_threads, preempt_to, ticked, hand_over, make_ready, preempted,
}
use saturn_os.Sched.Create.{
  scheduler_init, scheduler_add_task, scheduler_create_kernel_thread, free_slot, cleared_scheduler,
  count_with_slot, new_task,
}
use saturn_os.Sched.Control.{
  is_user_task, scheduler_terminate_child, terminate_pid, terminate_refused,
  scheduler_wait_task_status, scheduler_reap_zombies,
}
use saturn_os.Sched.Effects.{state_at}
use saturn_os.Sched.Invariant.{WellFormed}
use saturn_os.Sched.Invariant.Switching.{Leaves}
use saturn_os.Sched.Invariant.Ending.{scheduler_exit-Leaves}
use saturn_os.Sched.Invariant.Reach.{
  Reach, create, start, preempt, exit, reap_all, tick, scheduler_init-Reach,
}
use saturn_os.Sched.Fairness.{distance, preempts, preempts-current, next_runnable_task-nearest}
use saturn_os.Sched.Sleep.{asleep-wake}
use saturn_os.Sched.Results.{Reports, Adds, wait-terminate_child, scheduler_add_task-Adds}

abbrev pub no_region : UserRegion
no_region = record {
  name = none;
  start = 0;
  end = 0;
  attributes = 0;
  user_access = false;
  writable = false;
  executable = false;
}

abbrev pub user_space : AddressSpace
user_space = record {
  kind = user_kind;
  kernel_root_table = 0x40100000;
  target_root_table = 0x40200000;
  user_table_slot = 0;
  user_code_start = 0x80000000;
  user_stack_end = 0x80004000;
  user_image_entry = 0x80000000;
  user_tables_ready = true;
  user_descriptors_ready = true;
  user_mappings_ready = true;
  user_image_ready = true;
  user_execute_ready = true;
  validation_ready = true;
  switch_is_ready = true;
  switch_status = switch_blocked;
  switch_stub_status = switch_blocked;
  validation_errors = 0;
  user_regions = λ i. no_region;
}

abbrev pub no_task : Task
no_task = record {
  pid = 0;
  parent_pid = minus_one;
  name = "unused";
  state = unused;
  entry = null_entry;
  context = cleared_context;
  sleep_until_tick = 0;
  sleep_requested_ms = 0;
  accounting = cleared_accounting;
  memory = cleared_memory;
  user_address_space = user_space;
  el0 = cleared_el0;
  user_status = cleared_user_status;
  files = cleared_files;
  user_argc = 0;
  user_argv_address = 0;
  user_arg_lengths_address = 0;
}

abbrev no_session : Session
no_session = record {
  active = false;
  completed = false;
  faulted = false;
  last_reject_reason = reject_none;
  reject_count = 0;
  return_pc = 0;
  task = none;
  kernel_root = 0;
  user_root = 0;
}

abbrev pub with_tasks : Array Task → ℕ → ℕ → Sched
with_tasks ts current count = record {
  tasks = ts;
  stack_base = 0x40010000;
  current_task = current;
  task_count = count;
  threads_started = true;
  scheduler_ticks = 10;
  kernel_address_space = record user_space { kind = kernel_kind };
  user_table_slots_used = λ i. i == 0;
  user_sessions = λ i. no_session;
  ttbr0 = 0x40100000;
}

-- The state before the kernel starts, with no task.
abbrev empty_table : Sched
empty_table = with_tasks (λ i. no_task) 0 0

abbrev pub idle : Task
idle = record no_task { state = ready; entry = idle_task }

abbrev pub shell : Task
shell = record no_task { pid = 1; state = running; entry = thread 1 }

abbrev program : TaskState → Task
program state = record no_task {
  pid = 2;
  parent_pid = pos 1;
  state = state;
  memory = record cleared_memory { address_space = space_of_task 2 };
}

-- The idle task, a shell that runs, and a program that is its child.
abbrev family : TaskState → Sched
family state =
    with_tasks
      (λ i.
        if i == 0
        then idle
        else if i == 1
        then shell
        else if i == 2
        then program state
        else no_task)
      1 3

family-WellFormed : WellFormed (family ready)
unfolding task_is_runnable
family-WellFormed = record {
  counted = omega arith;
  current = omega arith;
  one_running = λ i. ground arith;
  current_used = refl;
  rest_unused = λ i. ground arith;
  idle = refl;
}

-- A run: a thread is created, the threads are started, the thread gets the processor and exits, and its
-- slot is reaped before the next tick.
abbrev created : Sched
created = (scheduler_create_kernel_thread (scheduler_init empty_table) "shell" (thread 1)).0

abbrev started : Sched
started = scheduler_start_threads created

abbrev handed_over : Sched
handed_over = state_of (scheduler_preempt started)

abbrev after_exit : Sched
after_exit = state_of (scheduler_exit handed_over)

abbrev reaped : Sched
reaped = (scheduler_reap_zombies after_exit).0

created-idle : created.current_task ≡ 0
unfolding scheduler_create_kernel_thread scheduler_add_task free_slot find_first scheduler_init
    cleared_scheduler count_with_slot
created-idle = refl

handed_over-shell : handed_over.current_task ≡ 1
unfolding scheduler_create_kernel_thread scheduler_preempt scheduler_start_threads set_running_task
    scheduler_add_task free_slot find_first scheduler_init cleared_scheduler count_with_slot
    preempt_to next_runnable_task ticked wake_sleeping_tasks candidate_runs candidate
    task_is_runnable map_range new_task wake_task hand_over make_ready preempted
handed_over-shell = refl

run : Reach (scheduler_init empty_table) (scheduler_tick reaped)
run =
    let not_idle : handed_over.current_task ≢ 0 = λ e. ground (arith, handed_over-shell, e) in
    Reach.next
      (Reach.next
        (Reach.next
          (Reach.next
            (Reach.next (Reach.next Reach.here (create "shell" (thread 1))) (start created-idle))
            preempt)
          (exit not_idle))
        reap_all)
      tick

scheduler_init-Reach_example : WellFormed (scheduler_tick reaped)
scheduler_init-Reach_example =
    scheduler_init-Reach empty_table (scheduler_tick reaped) (λ i. refl) run

preempts-current_example :
    (n : ℕ) × (n ≤ distance (family ready) 2) × ((preempts n (family ready)).current_task ≡ 2)
unfolding task_is_runnable
preempts-current_example =
    preempts-current (family ready) 2 family-WellFormed refl (omega arith) (ground arith) refl

next_runnable_task-nearest_example :
    (next_runnable_task (family ready) ≢ 0)
    × (distance (family ready) (next_runnable_task (family ready)) ≤ distance (family ready) 2)
unfolding task_is_runnable
next_runnable_task-nearest_example =
    next_runnable_task-nearest (family ready) 2 family-WellFormed (omega arith) (ground arith) refl

scheduler_exit-Leaves_example : Leaves (scheduler_exit (family ready))
scheduler_exit-Leaves_example =
    scheduler_exit-Leaves (family ready) family-WellFormed (ground arith)

wait-terminate_child_example :
    Reports 2 7 0 (
      scheduler_wait_task_status
        (scheduler_terminate_child (family ready) (pos 2) 7).0
        (pos 2)
        true)
unfolding scheduler_terminate_child terminate_pid terminate_refused is_user_task space_at
wait-terminate_child_example =
    wait-terminate_child (family ready) (scheduler_terminate_child (family ready) (pos 2) 7).0 2 7
      refl refl

scheduler_add_task-Adds_example :
    Adds (family ready) "worker" (thread 2) (scheduler_add_task (family ready) "worker" (thread 2))
scheduler_add_task-Adds_example =
    scheduler_add_task-Adds (family ready) "worker" (thread 2) family-WellFormed

asleep-wake_example :
    state_at
      (wake_sleeping_tasks (record (asleep 10 25 (family ready)) { scheduler_ticks = 10 + 3 }))
      1
    ≡ (if leb 1 3 && leb 25 (3 * 10) then ready else sleeping)
unfolding sleep_ticks
asleep-wake_example =
    asleep-wake 10 25 3 (family ready) (omega arith) (omega arith) (omega arith) (omega arith)

stack_partition_example :
    ((address_is_stack 0x40010000 0x40011010 && address_is_stack_guard 0x40010000 0x40011010)
      ≡ false)
    × ((address_is_stack 0x40010000 0x40011010 || address_is_stack_guard 0x40010000 0x40011010)
        ≡ in_region 0x40010000 0x40011010)
stack_partition_example = stack_partition 0x40010000 0x40011010
