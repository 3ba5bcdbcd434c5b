-- ===== src/Sched/Invariant/Ending.antt =====
-- The invariant and the timer tick, sleeping, the end of a task and the start of the threads.
use saturn_os.Prelude.{
  ℕ, ◌-◌, ◌≡◌, ◌≢◌, false, not, ◌||◌, Option, none, some, arith, ◌==◌, if◌then◌else◌, refl, subst,
  sym, ◌∙◌, inl, inr, Bool-cases, Option-cases, map_range_lem,
}
use saturn_os.Sched.Task.{is_unused, is_running, zombie}
use saturn_os.Sched.State.{
  Sched, task_is_runnable, next_runnable_task, wake_sleeping_tasks, set_running_task, wake_task,
}
use saturn_os.Sched.Switch.{
  Outcome, returns, switches, hangs, make_ready, scheduler_yield, scheduler_tick,
  scheduler_sleep_ms, scheduler_exit, scheduler_exit_task, scheduler_start_threads, exited, orphan,
  user_mode_active_address_space, asleep, ticked, preempted, tick_over,
}
use saturn_os.Sched.Effects.{
  state_at, make_ready-state, make_ready-Same, set_running_task-state, preempted-state,
}
use saturn_os.Sched.Invariant.{
  WellFormed, set_task-WellFormed, next_runnable_task_runs, tasks-wake_sleeping_tasks,
}
use saturn_os.Sched.Invariant.Switching.{
  handed-WellFormed, Proceeds, scheduler_yield-Proceeds, ticked-WellFormed, ticked-current, Leaves,
  scheduler_yield-Leaves,
}

make_ready-WellFormed : (s : Sched) (pid : ℕ) → WellFormed s → WellFormed (make_ready s pid)
unfolding task_is_runnable
make_ready-WellFormed s pid w =
    let (n, c) = make_ready-Same s pid in
    record {
      counted = omega (arith, w.counted);
      current = omega (arith, w.current);
      one_running = λ i h. ground (arith, make_ready-state s pid i, w.one_running i);
      current_used =
          subst (λ k. is_unused (state_at (make_ready s pid) k) ≡ false) (sym c)
            (ground (arith, make_ready-state s pid s.current_task, w.current_used));
      rest_unused = λ i h. ground (arith, make_ready-state s pid i, w.rest_unused i);
      idle = ground (arith, make_ready-state s pid 0, w.idle);
    }

tick_over-WellFormed :
    (s : Sched)
    → WellFormed s
    → is_running (state_at s s.current_task) ≡ false
    → WellFormed (tick_over s s.current_task)
unfolding tick_over
tick_over-WellFormed s w stopped =
    let next : ℕ = next_runnable_task s in
    let (h, e) = next_runnable_task_runs s w in
    let moved : Sched = preempted (record s { current_task = next }) s.current_task in
    handed-WellFormed s (set_running_task moved next) next h e
      (unfold set_running_task preempted in refl) (unfold set_running_task preempted in refl)
      (λ i.
        set_running_task-state moved next i
        ∙ ground (arith, preempted-state (record s { current_task = next }) s.current_task i))
      w

-- `scheduler_tick` keeps the invariant, in a user's address space and outside of one.
pub scheduler_tick-WellFormed : (s : Sched) → WellFormed s → WellFormed (scheduler_tick s)
unfolding scheduler_tick
scheduler_tick-WellFormed s w = elim (Option-cases (user_mode_active_address_space (ticked s))) [
  | inl e ↦
      rw (e, scheduler_tick)
        (let m : Sched = make_ready (ticked s) s.current_task in
          let v = make_ready-WellFormed (ticked s) s.current_task (ticked-WellFormed s w) in
          let at : m.current_task ≡ s.current_task =
            (make_ready-Same (ticked s) s.current_task).1 ∙ ticked-current s in
          subst (λ k. WellFormed (tick_over m k)) at
            (tick_over-WellFormed m v (
              subst (λ k. is_running (state_at m k) ≡ false) (sym at)
                (ground (arith, make_ready-state (ticked s) s.current_task s.current_task)))))
  | inr (a, e) ↦ rw (e, scheduler_tick) (ticked-WellFormed s w)
]

asleep-WellFormed :
    (interval ms : ℕ) (s : Sched)
    → WellFormed s
    → s.current_task ≢ 0
    → WellFormed (asleep interval ms s)
unfolding asleep
asleep-WellFormed interval ms s w h =
    set_task-WellFormed s s.current_task _ w w.current refl refl (λ e. absurd (h e))

abbrev pub ProceedsIfSome : Option Outcome → Type 0
ProceedsIfSome none = Unit {0}
ProceedsIfSome (some o) = Proceeds o

-- A call of `scheduler_sleep_ms` that gives up the processor keeps the invariant, and does not
-- hang.
pub scheduler_sleep_ms-Proceeds :
    (interval ms : ℕ) (s : Sched) → WellFormed s → ProceedsIfSome (scheduler_sleep_ms interval ms s)
unfolding scheduler_sleep_ms
scheduler_sleep_ms-Proceeds interval ms s w =
    elim (Bool-cases (not s.threads_started || (s.current_task == 0) || (interval == 0))) [
      | inl busy ↦ rw busy tt
      | inr waits ↦ rw waits (
          scheduler_yield-Proceeds (asleep interval ms s)
            (asleep-WellFormed interval ms s w (ground arith)))
    ]

exited-state :
    (s : Sched) (id i : ℕ) → state_at (exited s id) i ≡ (if i == id then zombie else state_at s i)
unfolding exited orphan
exited-state s id i =
    ground (arith, map_range_lem (λ i t. orphan id t) (s.task_count - 1) 1 s.tasks i)

exited-kept :
    (s : Sched) (id : ℕ)
    → ((exited s id).task_count ≡ s.task_count) × ((exited s id).current_task ≡ id)
unfolding exited
exited-kept s id = (refl, refl)

exited-WellFormed :
    (s : Sched) → WellFormed s → s.current_task ≢ 0 → WellFormed (exited s s.current_task)
unfolding task_is_runnable
exited-WellFormed s w h = record {
  counted = unfold exited in w.counted;
  current = unfold exited in w.current;
  one_running = λ i r. ground (arith, exited-state s s.current_task i, w.one_running i);
  current_used =
      subst (λ k. is_unused (state_at (exited s s.current_task) k) ≡ false)
        (sym (exited-kept s s.current_task).1)
        (ground (arith, exited-state s s.current_task s.current_task));
  rest_unused = λ i r. ground (
    arith,
    exited-state s s.current_task i,
    exited-kept s s.current_task,
    w.rest_unused i,
    w.current,
  );
  idle = ground (arith, exited-state s s.current_task 0, w.idle);
}

still_zombie :
    (s : Sched) (i : ℕ)
    → state_at s i ≡ zombie
    → task_is_runnable ((wake_sleeping_tasks s).tasks i) ≡ false
unfolding task_is_runnable wake_task
still_zombie s i e = ground (arith, tasks-wake_sleeping_tasks s i)

-- In a well-formed state, the end of a task other than the idle one never hangs or returns: it hands
-- the processor over to another task, and the state stays well formed.
pub scheduler_exit-Leaves :
    (s : Sched) → WellFormed s → s.current_task ≢ 0 → Leaves (scheduler_exit s)
unfolding scheduler_exit scheduler_exit_task
scheduler_exit-Leaves s w h = go (scheduler_yield (exited s s.current_task)) (
    scheduler_yield-Leaves (exited s s.current_task) (exited-WellFormed s w h)
      (omega (arith, w.current, exited-kept s s.current_task))
      (subst
        (λ k. task_is_runnable ((wake_sleeping_tasks (exited s s.current_task)).tasks k) ≡ false)
        (sym (exited-kept s s.current_task).1)
        (still_zombie (exited s s.current_task) s.current_task
          (ground (arith, exited-state s s.current_task s.current_task)))))
  where
    go :
        (o : Outcome)
        → Leaves o
        → Leaves (elim o as (λ _. Outcome) [
          | returns s' ↦ hangs s'
          | switches prev next s' ↦ switches prev next s'
          | hangs s' ↦ hangs s'
        ])
    go (returns s') p = p
    go (switches prev next s') p = p
    go (hangs s') p = p

-- The start of the threads from a well-formed state before which the idle task was current.
pub scheduler_start_threads-WellFormed :
    (s : Sched) → WellFormed s → s.current_task ≡ 0 → WellFormed (scheduler_start_threads s)
unfolding scheduler_start_threads set_running_task
scheduler_start_threads-WellFormed s w h =
    handed-WellFormed s _ 0 (omega (arith, w.counted)) w.idle refl refl (λ i. ground arith) w
