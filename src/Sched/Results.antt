-- ===== src/Sched/Results.antt =====
-- What the operations on single tasks report, and what they leave alone.
use Prim.Native.String.{String}
use saturn_os.Prelude.{
  ℕ, ◌-◌, ◌≤◌, ◌<◌, ◌≡◌, ◌≢◌, true, false, ◌||◌, Option, none, some, arith, leb, ◌==◌,
  if◌then◌else◌, refl, ℤ, pos, negsuc, Bool-cases, inl, inr, Option-cases, Finds, find_first-Finds,
  ap, subst, subst₂, ◌∙◌,
}
use saturn_os.Sched.Task.{
  is_unused, is_zombie, unused, ready, Entry, SpaceRef, null_space, kernel_space, space_of_task,
  TaskMemory,
}
use saturn_os.Sched.Stacks.{max_tasks, stack_start, stack_end}
use saturn_os.Sched.State.{Sched, set_task, trim_unused_tail, space_at}
use saturn_os.Sched.Control.{
  WaitResult, scheduler_terminate_child, terminate_pid, terminate_refused, terminated,
  scheduler_wait_task_status, wait_pid, wait_for, is_child, is_user_task, kind_is_user,
}
use saturn_os.Sched.Create.{
  free_slot, scheduler_add_task, new_task, init_task_memory, count_with_slot,
}
use saturn_os.Sched.Effects.{state_at}
use saturn_os.Sched.Invariant.{WellFormed}
use saturn_os.Sched.Invariant.Slots.{clear_task_slot-state, free_slot_lem}

-- The report of a wait for the child `pid`, and that its slot is free afterwards.
abbrev pub Reports : ℕ → ℕ → ℕ → WaitResult → Type 0
Reports pid code succeeded r =
    (r.value ≡ pos 1)
    × (r.status ≡ some (record { pid = pid; exit_code = code; succeeded = succeeded }))
    × (state_at r.state pid ≡ unused)

wait_for-zombie :
    (t : Sched) (pid : ℕ)
    → is_user_task t pid ≡ true
    → is_child t pid ≡ true
    → is_zombie (state_at t pid) ≡ true
    → Reports pid
        (t.tasks pid).user_status.last_exit_code
        (if (t.tasks pid).user_status.program_succeeded then 1 else 0)
        (wait_for t pid)
unfolding wait_for trim_unused_tail
wait_for-zombie t pid user child ended =
    rw (user, child, ended) (refl, refl, ground (arith, clear_task_slot-state t pid pid))

-- A wait for a child that runs a user program and has ended answers 1, reports its exit code and
-- whether it succeeded, and leaves its slot unused.
scheduler_wait_task_status-Reports :
    (t : Sched) (pid : ℕ)
    → pid < t.task_count
    → pid ≢ 0
    → pid ≢ t.current_task
    → is_user_task t pid ≡ true
    → is_child t pid ≡ true
    → is_zombie (state_at t pid) ≡ true
    → Reports pid
        (t.tasks pid).user_status.last_exit_code
        (if (t.tasks pid).user_status.program_succeeded then 1 else 0)
        (scheduler_wait_task_status t (pos pid) true)
unfolding scheduler_wait_task_status wait_pid
scheduler_wait_task_status-Reports t pid inside h k user child ended =
    let a : (leb t.task_count pid || (pid == t.current_task)) ≡ false = ground arith in
    let b : (pid == 0) ≡ false = ground arith in rw (a, b) (wait_for-zombie t pid user child ended)

user_kind_kept :
    (s : Sched) (pid code : ℕ) (r : SpaceRef)
    → kind_is_user (space_at (set_task s pid (terminated code (s.tasks pid))) r)
      ≡ kind_is_user (space_at s r)
unfolding space_at terminated
user_kind_kept s pid code null_space = refl
user_kind_kept s pid code kernel_space = refl
user_kind_kept s pid code (space_of_task p) = elim (Bool-cases (p == pid)) [
  | inl e ↦ ground arith
  | inr e ↦ ground arith
]

terminated-memory :
    (s : Sched) (pid code : ℕ)
    → ((set_task s pid (terminated code (s.tasks pid))).tasks pid).memory ≡ (s.tasks pid).memory
unfolding terminated
terminated-memory s pid code = ground arith

terminated_facts :
    (s : Sched) (pid code : ℕ)
    → let u : Sched = set_task s pid (terminated code (s.tasks pid)) in
      ((u.tasks pid).user_status.last_exit_code ≡ code)
      × (◌≡◌ {A = ℕ} (if (u.tasks pid).user_status.program_succeeded then 1 else 0) 0)
      × (is_zombie (state_at u pid) ≡ true)
unfolding terminated
terminated_facts s pid code = ground arith

accepted_facts :
    (s : Sched) (pid code : ℕ)
    → terminate_refused s pid ≡ false
    → let u : Sched = set_task s pid (terminated code (s.tasks pid)) in
      (pid < s.task_count) × (pid ≢ 0) × (pid ≢ s.current_task) × (is_child u pid ≡ true)
unfolding terminated terminate_refused
accepted_facts s pid code done = (ground arith, ground arith, ground arith, ground arith)

-- If terminating a child that runs a user program answers 1, the next wait for that child answers 1,
-- reports the code it was terminated with and that it failed, and leaves its slot unused.
pub wait-terminate_child :
    (s t : Sched) (pid code : ℕ)
    → scheduler_terminate_child s (pos pid) code ≡ (t, pos 1)
    → is_user_task s pid ≡ true
    → Reports pid code 0 (scheduler_wait_task_status t (pos pid) true)
unfolding scheduler_terminate_child terminate_pid
wait-terminate_child s t pid code e user = elim (Bool-cases (terminate_refused s pid)) [
  | inl bad ↦ absurd (let r : pos 0 ≡ pos 1 = ap (λ (q : Sched × ℤ). q.1) (rw bad at e) in cc)
  | inr done ↦
      subst (λ u. Reports pid code 0 (scheduler_wait_task_status u (pos pid) true))
        (ap (λ (q : Sched × ℤ). q.0) (rw done at e)) (reported done)
]
  where
    reported :
        terminate_refused s pid ≡ false
        → Reports pid code 0 (
            scheduler_wait_task_status
              (set_task s pid (terminated code (s.tasks pid)))
              (pos pid)
              true)
    reported done =
        let u : Sched = set_task s pid (terminated code (s.tasks pid)) in
        let same : is_user_task u pid ≡ is_user_task s pid =
          unfold is_user_task in
          (ap (λ (m : TaskMemory). kind_is_user (space_at u m.address_space))
              (terminated-memory s pid code)
            ∙ user_kind_kept s pid code (s.tasks pid).memory.address_space) in
        let (code_is, failed, ended) = terminated_facts s pid code in
        let (inside, h, k, child) = accepted_facts s pid code done in
        subst₂ (λ (c n : ℕ). Reports pid c n (scheduler_wait_task_status u (pos pid) true)) code_is
          failed (scheduler_wait_task_status-Reports u pid inside h k (same ∙ user) child ended)

-- What `scheduler_add_task` promises: it fails only when all eight slots hold a task, and otherwise
-- it fills a slot that held none with a ready task, whose stack is the one of its number, and
-- leaves every other task alone.
abbrev pub Adds : Sched → String → Entry → Sched × ℤ → Type 0
Adds s name entry (t, negsuc n) =
    (t ≡ s)
    × (n ≡ 0)
    × (s.task_count ≡ max_tasks)
    × ((i : ℕ) → 1 ≤ i → i < max_tasks → is_unused (state_at s i) ≡ false)
Adds s name entry (t, pos pid) =
    (pid < t.task_count)
    × (is_unused (state_at s pid) ≡ true)
    × (state_at t pid ≡ ready)
    × ((t.tasks pid).name ≡ name)
    × ((t.tasks pid).entry ≡ entry)
    × ((t.tasks pid).memory.stack_start ≡ stack_start s.stack_base pid)
    × ((t.tasks pid).memory.stack_end ≡ stack_end s.stack_base pid)
    × ((i : ℕ) → i ≢ pid → t.tasks i ≡ s.tasks i)

no_slot :
    (s : Sched)
    → WellFormed s
    → free_slot s ≡ none
    → (s.task_count ≡ max_tasks)
      × ((i : ℕ) → 1 ≤ i → i < max_tasks → is_unused (state_at s i) ≡ false)
unfolding free_slot
no_slot s w e = go _ (find_first-Finds (λ i. is_unused (s.tasks i).state) (s.task_count - 1) 1) e
  where
    go :
        (r : Option ℕ)
        → Finds (λ i. is_unused (s.tasks i).state) (s.task_count - 1) 1 r
        → elim r as (λ _. Option ℕ) [
          | some i ↦ some i
          | none ↦ if leb max_tasks s.task_count then none else some s.task_count
        ]
          ≡ none
        → (s.task_count ≡ max_tasks)
          × ((i : ℕ) → 1 ≤ i → i < max_tasks → is_unused (state_at s i) ≡ false)
    go none f e =
        let full : s.task_count ≡ max_tasks = ground (arith, w.counted) in
        (full, λ i a b. f i a (omega arith))
    go (some i) f e = cc

-- In a well-formed state, `scheduler_add_task` fails only when all eight slots hold a task, and then
-- changes nothing; otherwise it fills a slot that held none with a ready task of the name and entry,
-- whose stack is the one of its number, and leaves every other task alone.
pub scheduler_add_task-Adds :
    (s : Sched) (name : String) (entry : Entry)
    → WellFormed s
    → Adds s name entry (scheduler_add_task s name entry)
unfolding scheduler_add_task new_task count_with_slot init_task_memory
scheduler_add_task-Adds s name entry w = elim (Option-cases (free_slot s)) [
  | inl full ↦
      rw (full, scheduler_add_task)
        (let (count, slots) = no_slot s w full in (refl, refl, count, slots))
  | inr (pid, room) ↦
      rw (room, scheduler_add_task)
        (let (most, some_pid, inside, free) = free_slot_lem s pid w room in
          (
            ground arith,
            free,
            ground arith,
            ground arith,
            ground arith,
            ground arith,
            ground arith,
            λ i h. ground arith,
          ))
]
