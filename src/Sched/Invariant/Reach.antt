-- ===== src/Sched/Invariant/Reach.antt =====
-- The scheduler as a transition system: every call that changes its variables is a step.
use Prim.Native.String.{String}
use saturn_os.Prelude.{
  ℕ, ◌≡◌, ◌≢◌, Bool, true, false, some, arith, refl, ℤ, find_first, update, subst,
}
use saturn_os.Sched.Task.{is_unused, is_zombie, Entry, idle_task}
use saturn_os.Sched.State.{Sched, task_is_runnable}
use saturn_os.Sched.Switch.{
  state_of, Outcome, scheduler_tick, scheduler_yield, scheduler_sleep_ms, scheduler_preempt,
  scheduler_exit, scheduler_start_threads,
}
use saturn_os.Sched.Create.{
  scheduler_init, cleared_scheduler, scheduler_add_task, scheduler_create_kernel_thread, free_slot,
  count_with_slot, new_task,
}
use saturn_os.Sched.Control.{
  scheduler_block_task, scheduler_unblock_task, scheduler_reap_zombie_task, scheduler_reap_zombies,
  scheduler_wait_task_status, scheduler_set_task_parent, scheduler_terminate_child,
}
use saturn_os.Sched.Invariant.{WellFormed}
use saturn_os.Sched.Invariant.Switching.{
  Proceeds-WellFormed, Leaves, scheduler_yield-Proceeds, scheduler_preempt-Proceeds,
}
use saturn_os.Sched.Invariant.Ending.{
  ProceedsIfSome, scheduler_tick-WellFormed, scheduler_sleep_ms-Proceeds, scheduler_exit-Leaves,
  scheduler_start_threads-WellFormed,
}
use saturn_os.Sched.Invariant.Slots.{scheduler_add_task-WellFormed}
use saturn_os.Sched.Invariant.Calls.{
  scheduler_block_task-WellFormed, scheduler_unblock_task-WellFormed,
  scheduler_reap_zombie_task-WellFormed, scheduler_reap_zombies-WellFormed,
  scheduler_wait_task_status-WellFormed, scheduler_set_task_parent-WellFormed,
  scheduler_terminate_child-WellFormed,
}

-- Three calls have a condition: `exit` comes from a task other than the idle one, which runs an endless
-- loop; `start` comes at boot, when the idle task is current; `wait` comes from a task that has not ended.
pub data Step (s : Sched) : Sched → Type 0 where
  tick : Step s (scheduler_tick s)
  preempt : Step s (state_of (scheduler_preempt s))
  yield : Step s (state_of (scheduler_yield s))
  sleep :
      (interval ms : ℕ) (o : Outcome)
      → scheduler_sleep_ms interval ms s ≡ some o
      → Step s (state_of o)
  exit : s.current_task ≢ 0 → Step s (state_of (scheduler_exit s))
  start : s.current_task ≡ 0 → Step s (scheduler_start_threads s)
  create : (name : String) (e : Entry) → Step s (scheduler_create_kernel_thread s name e).0
  block : (pid : ℤ) → Step s (scheduler_block_task s pid).0
  unblock : (pid : ℤ) → Step s (scheduler_unblock_task s pid).0
  reap : (pid : ℤ) → Step s (scheduler_reap_zombie_task s pid).0
  reap_all : Step s (scheduler_reap_zombies s).0
  wait :
      (pid : ℤ) (has_status : Bool)
      → is_zombie (s.tasks s.current_task).state ≡ false
      → Step s (scheduler_wait_task_status s pid has_status).state
  adopt : (pid parent : ℤ) → Step s (scheduler_set_task_parent s pid parent).0
  terminate : (pid : ℤ) (code : ℕ) → Step s (scheduler_terminate_child s pid code).0

pub data Reach (s : Sched) : Sched → Type 0 where
  here : Reach s s
  next : {t u : Sched} → Reach s t → Step t u → Reach s u

Leaves-WellFormed : (o : Outcome) → Leaves o → WellFormed (state_of o)
Leaves-WellFormed (Outcome.returns s) p = absurd p
Leaves-WellFormed (Outcome.switches prev to s) p = p.0
Leaves-WellFormed (Outcome.hangs s) p = absurd p

-- Every step keeps the scheduler well formed.
pub Step-WellFormed : {s t : Sched} → Step s t → WellFormed s → WellFormed t
unfolding scheduler_create_kernel_thread
Step-WellFormed {s} tick w = scheduler_tick-WellFormed s w
Step-WellFormed {s} preempt w = Proceeds-WellFormed _ (scheduler_preempt-Proceeds s w)
Step-WellFormed {s} yield w = Proceeds-WellFormed _ (scheduler_yield-Proceeds s w)
Step-WellFormed {s} (sleep interval ms o e) w =
    Proceeds-WellFormed o (subst ProceedsIfSome e (scheduler_sleep_ms-Proceeds interval ms s w))
Step-WellFormed {s} (exit h) w = Leaves-WellFormed _ (scheduler_exit-Leaves s w h)
Step-WellFormed {s} (start h) w = scheduler_start_threads-WellFormed s w h
Step-WellFormed {s} (create name e) w = scheduler_add_task-WellFormed s name e w
Step-WellFormed {s} (block pid) w = scheduler_block_task-WellFormed s pid w
Step-WellFormed {s} (unblock pid) w = scheduler_unblock_task-WellFormed s pid w
Step-WellFormed {s} (reap pid) w = scheduler_reap_zombie_task-WellFormed s pid w
Step-WellFormed {s} reap_all w = scheduler_reap_zombies-WellFormed s w
Step-WellFormed {s} (wait pid has_status alive) w =
    scheduler_wait_task_status-WellFormed s pid has_status w alive
Step-WellFormed {s} (adopt pid parent) w = scheduler_set_task_parent-WellFormed s pid parent w
Step-WellFormed {s} (terminate pid code) w = scheduler_terminate_child-WellFormed s pid code w

Reach-WellFormed : {s t : Sched} → WellFormed s → Reach s t → WellFormed t
Reach-WellFormed w here = w
Reach-WellFormed w (next r st) = Step-WellFormed st (Reach-WellFormed w r)

-- The idle task takes the first slot.
added : Sched → Sched
added s = record (cleared_scheduler s) {
  tasks = update s.tasks 0 (new_task (cleared_scheduler s) 0 "idle" idle_task (s.tasks 0));
  task_count = 1;
}

scheduler_init-added : (s : Sched) → scheduler_init s ≡ added s
unfolding scheduler_init scheduler_add_task free_slot find_first count_with_slot added
    cleared_scheduler
scheduler_init-added s = refl

-- The state after `scheduler_init`, from a table with no task in it.
pub scheduler_init-WellFormed :
    (s : Sched) → ((i : ℕ) → is_unused (s.tasks i).state ≡ true) → WellFormed (scheduler_init s)
unfolding added new_task task_is_runnable cleared_scheduler
scheduler_init-WellFormed s empty = rw (scheduler_init-added s) (record {
  counted = omega arith;
  current = omega arith;
  one_running = λ i r. ground (arith, empty i);
  current_used = refl;
  rest_unused = λ i r. ground (arith, empty i);
  idle = refl;
})

-- From a table with no task in it, every state that `scheduler_init` and a sequence of the modelled calls
-- lead to is well formed: the counts are in range, at most the current task is marked as running, the
-- current slot holds a task, no slot behind `task_count` does, and the idle task can run. In the sequence
-- the threads are started only while the idle task is current, the idle task does not exit, and no task
-- waits for a child once it has ended; all other calls may come at any time and with any arguments.
pub scheduler_init-Reach :
    (s t : Sched)
    → ((i : ℕ) → is_unused (s.tasks i).state ≡ true)
    → Reach (scheduler_init s) t
    → WellFormed t
scheduler_init-Reach s t empty r = Reach-WellFormed (scheduler_init-WellFormed s empty) r
