-- ===== src/Sched/Switch.antt =====
-- The operations of scheduler.c that pass the processor on. `cpu_switch_to` is assembly: an
-- operation says which two tasks it is called with, and what runs next is the second of them.
use saturn_os.Prelude.{
  ℕ, ◌-◌, ◌/◌, ◌^◌, true, not, ◌||◌, Option, none, some, ltb, leb, ◌==◌, if◌then◌else◌, Array,
  update, map_range, add64, minus_one, int_is,
}
use saturn_os.Sched.Task.{Task, AddressSpace, ready, running, sleeping, zombie, is_running}
use saturn_os.Sched.Stacks.{max_tasks}
use saturn_os.Sched.State.{
  Sched, Session, set_task, space_at, task_is_runnable, set_running_task, wake_sleeping_tasks,
  next_runnable_task,
}

-- How a call ends: it returns to its caller, it hands over from one task to another, or it stays in
-- the empty loop behind "No runnable task remains".
pub data Outcome : Type 0 where
  returns : Sched → Outcome
  switches : ℕ → ℕ → Sched → Outcome
  hangs : Sched → Outcome

abbrev pub state_of : Outcome → Sched
state_of (returns s) = s
state_of (switches prev next s) = s
state_of (hangs s) = s

-- `user_session` of user.c: the session of the current task, or the first one if its pid is none.
unfoldable pub current_session : Sched → Session
current_session s =
    let pid : ℕ = (s.tasks s.current_task).pid in
    s.user_sessions (if leb max_tasks pid then 0 else pid)

unfoldable pub user_mode_active_address_space : Sched → Option AddressSpace
user_mode_active_address_space s =
    if (current_session s).active
    then (elim (current_session s).task [
      | none ↦ none
      | some p ↦ space_at s (s.tasks p).memory.address_space
    ])
    else none

unfoldable pub user_mode_task_resume_root : Sched → Task → ℕ
user_mode_task_resume_root s t =
    if leb max_tasks t.pid then 0 else (elim (space_at s t.memory.address_space) [
      | none ↦ 0
      | some a ↦
          if (s.user_sessions t.pid).active
          then (s.user_sessions t.pid).user_root
          else a.kernel_root_table
    ])

abbrev pub count_run_tick : Task → Task
count_run_tick t = record t {
  accounting = record t.accounting { run_ticks = add64 t.accounting.run_ticks 1 };
}

abbrev pub count_preemption : Task → Task
count_preemption t = record t {
  accounting = record t.accounting { preemptions = add64 t.accounting.preemptions 1 };
}

-- A task that loses the processor while it runs is ready from then on.
unfoldable pub make_ready : Sched → ℕ → Sched
make_ready s pid =
    if is_running (s.tasks pid).state
    then set_task s pid (record (s.tasks pid) { state = ready })
    else s

-- `scheduler_ticks++; scheduler_wake_sleeping_tasks();` and the count of the current task's ticks.
unfoldable pub ticked : Sched → Sched
ticked s =
    let woken : Sched =
      wake_sleeping_tasks (record s { scheduler_ticks = add64 s.scheduler_ticks 1 }) in
    set_task woken s.current_task (count_run_tick (woken.tasks s.current_task))

-- `tasks[pid].accounting.preemptions++`
unfoldable pub preempted : Sched → ℕ → Sched
preempted s pid = set_task s pid (count_preemption (s.tasks pid))

-- The end of `scheduler_tick`: the choice of the next task, and the counts.
unfoldable pub tick_over : Sched → ℕ → Sched
tick_over s prev =
    let next : ℕ = next_runnable_task s in
    set_running_task (preempted (record s { current_task = next }) prev) next

unfoldable pub scheduler_tick : Sched → Sched
scheduler_tick s = elim (user_mode_active_address_space (ticked s)) [
  | some a ↦ ticked s
  | none ↦ tick_over (make_ready (ticked s) s.current_task) s.current_task
]

abbrev pub count_yield : Task → Task
count_yield t = record t {
  accounting = record t.accounting { yields = add64 t.accounting.yields 1 };
}

-- A running task that yields is ready from then on, and its yields are counted.
unfoldable pub stop_yielding : Sched → ℕ → Sched
stop_yielding s pid =
    if is_running (s.tasks pid).state
    then set_task s pid (record (count_yield (s.tasks pid)) { state = ready })
    else s

-- `scheduler_set_running_task(next); current_task = next;`
unfoldable pub hand_over : Sched → ℕ → Sched
hand_over s next = record (set_running_task s next) { current_task = next }

unfoldable pub switch_root : Sched → ℕ → Sched
switch_root s next =
    let root : ℕ = user_mode_task_resume_root s (s.tasks next) in
    if root == 0 then s else record s { ttbr0 = root }

-- `scheduler_yield` once the next task is known.
unfoldable pub yield_to : Sched → ℕ → Outcome
yield_to s next =
    let prev : ℕ = s.current_task in
    if next == prev
    then (if task_is_runnable (s.tasks prev)
        then returns (set_task s prev (record (s.tasks prev) { state = running }))
        else hangs s)
    else switches prev next (switch_root (hand_over (stop_yielding s prev) next) next)

unfoldable pub scheduler_yield : Sched → Outcome
scheduler_yield s =
    if ltb s.task_count 2
    then returns s
    else let woken : Sched = wake_sleeping_tasks s in yield_to woken (next_runnable_task woken)

-- The ticks that a sleep lasts, where `interval_ms` is what `timer_get_interval_ms` returns.
unfoldable pub sleep_ticks : ℕ → ℕ → ℕ
sleep_ticks interval_ms ms =
    let ticks : ℕ = (add64 (add64 ms interval_ms) (2 ^ 64 - 1)) / interval_ms in
    if ticks == 0 then 1 else ticks

-- The current task, asleep until its time has passed.
unfoldable pub asleep : ℕ → ℕ → Sched → Sched
asleep interval_ms ms s = set_task s s.current_task (record (s.tasks s.current_task) {
  sleep_requested_ms = ms;
  sleep_until_tick = add64 s.scheduler_ticks (sleep_ticks interval_ms ms);
  state = sleeping;
})

-- `none` stands for the call of `timer_sleep_ms`, which waits without giving up the processor.
unfoldable pub scheduler_sleep_ms : ℕ → ℕ → Sched → Option Outcome
scheduler_sleep_ms interval_ms ms s =
    if not s.threads_started || (s.current_task == 0) || (interval_ms == 0)
    then none
    else some (scheduler_yield (asleep interval_ms ms s))

unfoldable pub preempt_to : Sched → ℕ → Outcome
preempt_to s next =
    let prev : ℕ = s.current_task in
    if next == prev
    then returns s
    else switches prev next (hand_over (preempted (make_ready s prev) prev) next)

unfoldable pub scheduler_preempt : Sched → Outcome
scheduler_preempt s =
    if not s.threads_started || ltb s.task_count 2
    then returns s
    else preempt_to (ticked s) (next_runnable_task (ticked s))

unfoldable pub orphan : ℕ → Task → Task
orphan task_id t = if int_is t.parent_pid task_id then record t { parent_pid = minus_one } else t

-- The state in which `scheduler_exit_task` calls `scheduler_yield`.
unfoldable pub exited : Sched → ℕ → Sched
exited s task_id =
    let ts : Array Task = map_range (λ i t. orphan task_id t) (s.task_count - 1) 1 s.tasks in
    record s {
      tasks = update ts task_id (record (ts task_id) { state = zombie });
      current_task = task_id;
    }

-- After `scheduler_yield` the function stays in an empty loop, so a return of it is a hang.
unfoldable pub scheduler_exit_task : Sched → ℕ → Outcome
scheduler_exit_task s task_id = elim (scheduler_yield (exited s task_id)) [
  | returns s' ↦ hangs s'
  | switches prev next s' ↦ switches prev next s'
  | hangs s' ↦ hangs s'
]

unfoldable pub scheduler_exit : Sched → Outcome
scheduler_exit s = scheduler_exit_task s s.current_task

-- The hand-over from the bootstrap context to the idle task.
unfoldable pub scheduler_start_threads : Sched → Sched
scheduler_start_threads s =
    set_running_task (record s { threads_started = true; current_task = 0 }) 0
