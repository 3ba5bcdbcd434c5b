-- ===== src/Sched/Invariant/Slots.antt =====
-- The invariant and clearing slots, trimming the task table and filling a slot.
use Prim.Native.String.{String}
use saturn_os.Prelude.{
  ℕ, zero, suc, ◌-◌, ◌≤◌, ◌<◌, ◌≡◌, ◌≢◌, true, false, not, ◌||◌, Option, none, some, arith, leb,
  ◌==◌, if◌then◌else◌, Array, update, refl, subst, sym, inl, inr, Bool-cases, Option-cases, Finds,
  find_first-Finds,
}
use saturn_os.Sched.Task.{
  Task, is_unused, unused, ready, is_user_kind, SpaceRef, null_space, kernel_space, space_of_task,
  Entry,
}
use saturn_os.Sched.Stacks.{max_tasks}
use saturn_os.Sched.State.{
  Sched, task_is_runnable, clear_task_slot, cleared_task, address_space_destroy_user,
  destroy_space_of_task, trim_count, trim_unused_tail, user_table_slots,
}
use saturn_os.Sched.Create.{free_slot, scheduler_add_task, new_task, count_with_slot}
use saturn_os.Sched.Effects.{state_at, Same}
use saturn_os.Sched.Invariant.{WellFormed}

destroy_space_of_task-state :
    (s : Sched) (p i : ℕ)
    → (state_at (destroy_space_of_task s p) i ≡ state_at s i) × Same s (destroy_space_of_task s p)
unfolding destroy_space_of_task
destroy_space_of_task-state s p i =
    elim (Bool-cases (
      not (is_user_kind (s.tasks p).user_address_space.kind)
      || leb user_table_slots (s.tasks p).user_address_space.user_table_slot)) [
        | inl e ↦ rw e (refl, (refl, refl))
        | inr e ↦ rw e (ground arith, (refl, refl))
      ]

address_space_destroy_user-state :
    (s : Sched) (r : SpaceRef) (i : ℕ)
    → (state_at (address_space_destroy_user s r) i ≡ state_at s i)
      × Same s (address_space_destroy_user s r)
unfolding address_space_destroy_user
address_space_destroy_user-state s null_space i = (refl, (refl, refl))
address_space_destroy_user-state s kernel_space i = (refl, (refl, refl))
address_space_destroy_user-state s (space_of_task p) i = destroy_space_of_task-state s p i

pub clear_task_slot-state :
    (s : Sched) (pid i : ℕ)
    → state_at (clear_task_slot s pid) i ≡ (if i == pid then unused else state_at s i)
unfolding clear_task_slot cleared_task
clear_task_slot-state s pid i =
    ground (arith, address_space_destroy_user-state s (s.tasks pid).memory.address_space i)

pub clear_task_slot-Same : (s : Sched) (pid : ℕ) → Same s (clear_task_slot s pid)
unfolding clear_task_slot
clear_task_slot-Same s pid =
    (address_space_destroy_user-state s (s.tasks pid).memory.address_space 0).1

pub clear_task_slot-WellFormed :
    (s : Sched) (pid : ℕ)
    → WellFormed s
    → pid ≢ 0
    → pid ≢ s.current_task
    → WellFormed (clear_task_slot s pid)
unfolding task_is_runnable
clear_task_slot-WellFormed s pid w h k =
    let (n, c) = clear_task_slot-Same s pid in
    record {
      counted = omega (arith, w.counted);
      current = omega (arith, w.current);
      one_running = λ i r. ground (arith, clear_task_slot-state s pid i, w.one_running i);
      current_used =
          subst (λ j. is_unused (state_at (clear_task_slot s pid) j) ≡ false) (sym c)
            (ground (arith, clear_task_slot-state s pid s.current_task, w.current_used));
      rest_unused = λ i r. ground (arith, clear_task_slot-state s pid i, w.rest_unused i);
      idle = ground (arith, clear_task_slot-state s pid 0, w.idle);
    }

-- What the loop that trims the table leaves: no more than before, and every slot dropped unused.
pub trim_count_lem :
    (ts : Array Task) (n : ℕ)
    → 1 ≤ n
    → (1 ≤ trim_count ts n)
      × (trim_count ts n ≤ n)
      × ((i : ℕ) → trim_count ts n ≤ i → i < n → is_unused (ts i).state ≡ true)
unfolding trim_count
trim_count_lem ts zero h = absurd (omega arith)
trim_count_lem ts (suc zero) h = (omega arith, omega arith, λ i a b. absurd (omega arith))
trim_count_lem ts (suc (suc n)) h = elim (Bool-cases (is_unused (ts (suc n)).state)) [
  | inl e ↦ rw e (
      let (one, most, dropped) = trim_count_lem ts (suc n) (omega arith) in
      (
        one,
        omega arith,
        λ i a b. elim (Bool-cases (i == suc n)) [
          | inl at ↦ ground arith
          | inr off ↦ dropped i a (ground arith)
        ],
      ))
  | inr e ↦ rw e (omega arith, omega arith, λ i a b. absurd (omega arith))
]

pub trim_unused_tail-WellFormed : (s : Sched) → WellFormed s → WellFormed (trim_unused_tail s)
unfolding trim_unused_tail
trim_unused_tail-WellFormed s w =
    let (one, most, dropped) = trim_count_lem s.tasks s.task_count w.counted.0 in
    record {
      counted = omega (arith, w.counted);
      current = ground (arith, w.current, w.current_used, dropped s.current_task);
      one_running = w.one_running;
      current_used = w.current_used;
      rest_unused = λ i r. ground (arith, w.rest_unused i, dropped i);
      idle = w.idle;
    }

-- The slot that is given out is inside the table and unused.
pub free_slot_lem :
    (s : Sched) (pid : ℕ)
    → WellFormed s
    → free_slot s ≡ some pid
    → (pid < max_tasks) × (0 < pid) × (pid ≤ s.task_count) × (is_unused (state_at s pid) ≡ true)
unfolding free_slot
free_slot_lem s pid w e =
    go _ (find_first-Finds (λ i. is_unused (s.tasks i).state) (s.task_count - 1) 1) e
  where
    go :
        (r : Option ℕ)
        → Finds (λ i. is_unused (s.tasks i).state) (s.task_count - 1) 1 r
        → elim r as (λ _. Option ℕ) [
          | some i ↦ some i
          | none ↦ if leb max_tasks s.task_count then none else some s.task_count
        ]
          ≡ some pid
        → (pid < max_tasks) × (0 < pid) × (pid ≤ s.task_count) × (is_unused (state_at s pid) ≡ true)
    go none f e = ground (arith, w.counted, w.rest_unused s.task_count)
    go (some i) (hit, lo, hi, _) e =
        let at : i ≡ pid = cc in
        (
          omega (arith, w.counted),
          omega arith,
          omega arith,
          subst (λ k. is_unused (s.tasks k).state ≡ true) at hit,
        )

new_task-state :
    (s : Sched) (pid : ℕ) (name : String) (e : Entry) (t : Task)
    → (new_task s pid name e t).state ≡ ready
unfolding new_task
new_task-state s pid name e t = refl

added-WellFormed :
    (s : Sched) (pid : ℕ) (t : Task)
    → WellFormed s
    → (pid < max_tasks) × (0 < pid) × (pid ≤ s.task_count) × (is_unused (state_at s pid) ≡ true)
    → t.state ≡ ready
    → WellFormed (record s { tasks = update s.tasks pid t; task_count = count_with_slot s pid })
unfolding count_with_slot
added-WellFormed s pid t w (most, some_pid, inside, free) e = record {
  counted = ground (arith, w.counted);
  current = ground (arith, w.current);
  one_running = λ i r. ground (arith, w.one_running i);
  current_used = ground (arith, w.current_used);
  rest_unused = λ i r. ground (arith, w.rest_unused i);
  idle = ground (arith, w.idle);
}

-- Adding a task keeps the scheduler well formed, whether or not there is room.
pub scheduler_add_task-WellFormed :
    (s : Sched) (name : String) (e : Entry)
    → WellFormed s
    → WellFormed (scheduler_add_task s name e).0
unfolding scheduler_add_task
scheduler_add_task-WellFormed s name e w = elim (Option-cases (free_slot s)) [
  | inl full ↦ rw (full, scheduler_add_task) w
  | inr (pid, room) ↦
      rw (room, scheduler_add_task)
        (added-WellFormed s pid (new_task s pid name e (s.tasks pid)) w (free_slot_lem s pid w room)
          (new_task-state s pid name e (s.tasks pid)))
]
