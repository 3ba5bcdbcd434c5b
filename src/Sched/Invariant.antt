-- ===== src/Sched/Invariant.antt =====
-- What holds of the scheduler's variables between its operations.
pub mod Switching
pub mod Ending
pub mod Slots
pub mod Calls
pub mod Reach
use saturn_os.Prelude.{
  ℕ, ◌+◌, ◌-◌, ◌%◌, ◌≤◌, ◌<◌, ◌≡◌, Bool, true, false, not, ◌&&◌, ◌||◌, Option, none, some, arith,
  ltb, leb, ◌==◌, if◌then◌else◌, Array, update, Finds, find_first, find_first-Finds, refl, subst,
  sym, ◌∙◌, ℤ, pos, negsuc, map_range_lem,
}
use saturn_os.Sched.Task.{Task, is_unused, is_running, is_ready, is_blocked, is_sleeping}
use saturn_os.Sched.Stacks.{max_tasks}
use saturn_os.Sched.State.{
  Sched, task_is_runnable, candidate, candidate_runs, next_runnable_task, wake_task,
  wake_sleeping_tasks, set_task, set_running_task,
}

-- The task table is in range, at most the current task is marked as running, the current slot
-- holds a task, no slot behind `task_count` does, and the idle task can run.
pub record WellFormed (s : Sched) : Type 0 where
  pub counted : (1 ≤ s.task_count) × (s.task_count ≤ max_tasks)
  pub current : s.current_task < s.task_count
  pub one_running : (i : ℕ) → is_running (s.tasks i).state ≡ true → i ≡ s.current_task
  pub current_used : is_unused (s.tasks s.current_task).state ≡ false
  pub rest_unused : (i : ℕ) → s.task_count ≤ i → is_unused (s.tasks i).state ≡ true
  pub idle : task_is_runnable (s.tasks 0) ≡ true

-- Replacing one task, which is not the running one, by another that is neither running nor unused.
pub set_task-WellFormed :
    (s : Sched) (pid : ℕ) (t : Task)
    → WellFormed s
    → pid < s.task_count
    → (is_running t.state ≡ false)
    → (is_unused t.state ≡ false)
    → (pid ≡ 0 → task_is_runnable t ≡ true)
    → WellFormed (set_task s pid t)
set_task-WellFormed s pid t w h r u k = record {
  counted = w.counted;
  current = w.current;
  one_running = λ i. ground (arith, w.one_running i);
  current_used = ground (arith, w.current_used);
  rest_unused = λ i. ground (arith, w.rest_unused i);
  idle = ground (arith, w.idle);
}

-- Waking changes only sleeping tasks, and makes them ready.
pub tasks-wake_sleeping_tasks :
    (s : Sched) (i : ℕ)
    → (wake_sleeping_tasks s).tasks i
      ≡ (if ltb i s.task_count then wake_task s.scheduler_ticks (s.tasks i) else s.tasks i)
unfolding wake_sleeping_tasks
tasks-wake_sleeping_tasks s i =
    ground (arith, map_range_lem (λ i t. wake_task s.scheduler_ticks t) s.task_count 0 s.tasks i)

wake_task_running :
    (k : ℕ) (t : Task)
    → (is_running (wake_task k t).state ≡ is_running t.state)
      × (is_unused (wake_task k t).state ≡ is_unused t.state)
unfolding wake_task
wake_task_running k t = ground arith

wake_task_runnable :
    (k : ℕ) (t : Task) → task_is_runnable t ≡ true → task_is_runnable (wake_task k t) ≡ true
unfolding wake_task task_is_runnable
wake_task_runnable k t h = ground arith

-- A change that keeps what every task is marked as.
pub same_marks-WellFormed :
    (s s' : Sched)
    → s'.task_count ≡ s.task_count
    → s'.current_task ≡ s.current_task
    → ((i : ℕ) → is_running (s'.tasks i).state ≡ is_running (s.tasks i).state)
    → ((i : ℕ) → is_unused (s'.tasks i).state ≡ is_unused (s.tasks i).state)
    → task_is_runnable (s'.tasks 0) ≡ true
    → WellFormed s
    → WellFormed s'
same_marks-WellFormed s s' n c r u idle w = record {
  counted = omega (arith, w.counted);
  current = omega (arith, w.current);
  one_running = λ i h. ground (arith, r i, w.one_running i);
  current_used =
      subst (λ k. is_unused (s'.tasks k).state ≡ false) (sym c) (u s.current_task ∙ w.current_used);
  rest_unused = λ i h. ground (arith, u i, w.rest_unused i);
  idle = idle;
}

pub wake_sleeping_tasks-WellFormed : (s : Sched) → WellFormed s → WellFormed (wake_sleeping_tasks s)
wake_sleeping_tasks-WellFormed s w =
    same_marks-WellFormed s (wake_sleeping_tasks s) (unfold wake_sleeping_tasks in refl)
      (unfold wake_sleeping_tasks in refl)
      (λ i.
        rw (tasks-wake_sleeping_tasks s i)
          (ground (arith, wake_task_running s.scheduler_ticks (s.tasks i))))
      (λ i.
        rw (tasks-wake_sleeping_tasks s i)
          (ground (arith, wake_task_running s.scheduler_ticks (s.tasks i))))
      (rw (tasks-wake_sleeping_tasks s 0)
        (ground (arith, w.idle, wake_task_runnable s.scheduler_ticks (s.tasks 0))))
      w

-- What `scheduler_next_runnable_task` promises, given that the idle task can run.
pub next_runnable_task_runs :
    (s : Sched)
    → WellFormed s
    → (next_runnable_task s < s.task_count)
      × (task_is_runnable (s.tasks (next_runnable_task s)) ≡ true)
unfolding next_runnable_task
next_runnable_task_runs s w =
    go (find_first (candidate_runs s) s.task_count 1)
      (find_first-Finds (candidate_runs s) s.task_count 1)
  where
    go :
        (r : Option ℕ)
        → Finds (candidate_runs s) s.task_count 1 r
        → let next : ℕ = elim r [
          | some i ↦ candidate s i
          | none ↦ if task_is_runnable (s.tasks 0) then 0 else s.current_task
        ] in
          (next < s.task_count) × (task_is_runnable (s.tasks next) ≡ true)
    go none miss = ground (arith, w.idle, w.counted)
    go (some i) (hit, _, inside, _) =
        unfold candidate_runs candidate in (omega (arith, w.counted), ground arith)
