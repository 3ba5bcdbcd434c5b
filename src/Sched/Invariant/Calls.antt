-- ===== src/Sched/Invariant/Calls.antt =====
-- The invariant and the calls of scheduler.c on single tasks.
use saturn_os.Prelude.{
  ℕ, zero, suc, ◌-◌, ◌≡◌, ◌≢◌, Bool, true, false, not, ◌&&◌, ◌||◌, Option, none, some, arith, leb,
  ◌==◌, if◌then◌else◌, refl, subst, inl, inr, Bool-cases, ℤ, pos, negsuc, minus_one, find_first,
  Finds, find_first-Finds,
}
use saturn_os.Sched.Task.{is_zombie}
use saturn_os.Sched.State.{Sched, task_is_runnable, clear_task_slot, trim_unused_tail}
use saturn_os.Sched.Control.{
  block_refused, unblock_refused, reap_refused, parent_refused, terminate_refused, block_pid,
  scheduler_block_task, unblock_pid, scheduler_unblock_task, reap_pid, scheduler_reap_zombie_task,
  reap_round, reap_loop, scheduler_reap_zombies, WaitResult, wait_answer, wait_for, wait_any,
  wait_pid, scheduler_wait_task_status, set_parent, scheduler_set_task_parent, terminated,
  terminate_pid, scheduler_terminate_child, is_child, zombie_child, is_user_task,
}
use saturn_os.Sched.Invariant.{WellFormed, set_task-WellFormed, same_marks-WellFormed}
use saturn_os.Sched.Invariant.Slots.{clear_task_slot-WellFormed, trim_unused_tail-WellFormed}

refuse_or {ℓ} :
    {B : Type ℓ} (b : Bool) (s t : Sched) (x y : B)
    → WellFormed s
    → (b ≡ false → WellFormed t)
    → (let r : Sched × B = if b then (s, x) else (t, y) in WellFormed r.0)
refuse_or true s t x y w k = w
refuse_or false s t x y w k = k refl

pub scheduler_block_task-WellFormed :
    (s : Sched) (pid : ℤ) → WellFormed s → WellFormed (scheduler_block_task s pid).0
unfolding scheduler_block_task block_pid block_refused
scheduler_block_task-WellFormed s (negsuc n) w = w
scheduler_block_task-WellFormed s (pos pid) w =
    refuse_or (block_refused s pid) s _ minus_one (pos 0) w
      λ accepted. set_task-WellFormed s pid _ w (ground arith) refl refl (ground arith)

pub scheduler_unblock_task-WellFormed :
    (s : Sched) (pid : ℤ) → WellFormed s → WellFormed (scheduler_unblock_task s pid).0
unfolding scheduler_unblock_task unblock_pid unblock_refused
scheduler_unblock_task-WellFormed s (negsuc n) w = w
scheduler_unblock_task-WellFormed s (pos pid) w =
    refuse_or (unblock_refused s pid) s _ minus_one (pos 0) w
      λ accepted. set_task-WellFormed s pid _ w (ground arith) refl refl (ground arith)

cleared_and_trimmed :
    (s : Sched) (pid : ℕ)
    → WellFormed s
    → pid ≢ 0
    → pid ≢ s.current_task
    → WellFormed (trim_unused_tail (clear_task_slot s pid))
cleared_and_trimmed s pid w h k =
    trim_unused_tail-WellFormed (clear_task_slot s pid) (clear_task_slot-WellFormed s pid w h k)

pub scheduler_reap_zombie_task-WellFormed :
    (s : Sched) (pid : ℤ) → WellFormed s → WellFormed (scheduler_reap_zombie_task s pid).0
unfolding scheduler_reap_zombie_task reap_pid reap_refused
scheduler_reap_zombie_task-WellFormed s (negsuc n) w = w
scheduler_reap_zombie_task-WellFormed s (pos pid) w =
    refuse_or (reap_refused s pid) s _ minus_one (pos 0) w
      λ accepted. cleared_and_trimmed s pid w (ground arith) (ground arith)

reap_round-WellFormed :
    (i : ℕ) (r : Sched × ℕ) → i ≢ 0 → WellFormed r.0 → WellFormed (reap_round i r).0
unfolding reap_round
reap_round-WellFormed i (s, n) h w =
    elim (Bool-cases (not (i == s.current_task) && is_zombie (s.tasks i).state)) [
      | inl e ↦ rw e (clear_task_slot-WellFormed s i w h (ground arith))
      | inr e ↦ rw e w
    ]

reap_loop-WellFormed :
    (n i : ℕ) (r : Sched × ℕ) → i ≢ 0 → WellFormed r.0 → WellFormed (reap_loop n i r).0
unfolding reap_loop
reap_loop-WellFormed zero i r h w = w
reap_loop-WellFormed (suc n) i r h w =
    reap_loop-WellFormed n (suc i) (reap_round i r) (omega arith) (reap_round-WellFormed i r h w)

pub scheduler_reap_zombies-WellFormed :
    (s : Sched) → WellFormed s → WellFormed (scheduler_reap_zombies s).0
unfolding scheduler_reap_zombies
scheduler_reap_zombies-WellFormed s w =
    trim_unused_tail-WellFormed _ (reap_loop-WellFormed (s.task_count - 1) 1 (s, 0) (omega arith) w)

pub scheduler_set_task_parent-WellFormed :
    (s : Sched) (pid parent : ℤ)
    → WellFormed s
    → WellFormed (scheduler_set_task_parent s pid parent).0
unfolding scheduler_set_task_parent set_parent task_is_runnable
scheduler_set_task_parent-WellFormed s (negsuc n) parent w = w
scheduler_set_task_parent-WellFormed s (pos pid) (negsuc n) w = w
scheduler_set_task_parent-WellFormed s (pos pid) (pos parent) w =
    refuse_or (parent_refused s pid parent) s _ (pos 0) (pos 1) w λ accepted.
      same_marks-WellFormed s _ refl refl (λ i. ground arith) (λ i. ground arith)
        (ground (arith, w.idle)) w

pub scheduler_terminate_child-WellFormed :
    (s : Sched) (pid : ℤ) (code : ℕ)
    → WellFormed s
    → WellFormed (scheduler_terminate_child s pid code).0
unfolding scheduler_terminate_child terminate_pid terminate_refused terminated
scheduler_terminate_child-WellFormed s (negsuc n) code w = w
scheduler_terminate_child-WellFormed s (pos pid) code w =
    refuse_or (terminate_refused s pid) s _ (pos 0) (pos 1) w
      λ accepted. set_task-WellFormed s pid _ w (ground arith) refl refl (ground arith)

wait_for-WellFormed :
    (s : Sched) (pid : ℕ)
    → WellFormed s
    → is_zombie (s.tasks s.current_task).state ≡ false
    → pid ≢ 0
    → WellFormed (wait_for s pid).state
unfolding wait_for
wait_for-WellFormed s pid w alive h =
    elim (Bool-cases (not (is_user_task s pid) || not (is_child s pid))) [
      | inl e ↦ rw e w
      | inr child ↦ rw child (elim (Bool-cases (is_zombie (s.tasks pid).state)) [
        | inl is ↦ rw is (cleared_and_trimmed s pid w h λ e. other e is)
        | inr e ↦ rw e w
      ])
    ]
  where
    other : pid ≡ s.current_task → is_zombie (s.tasks pid).state ≡ true → ⊥
    other e is =
        let here : is_zombie (s.tasks s.current_task).state ≡ true =
          subst (λ k. is_zombie (s.tasks k).state ≡ true) e is in
        cc

wait_any-WellFormed :
    (s : Sched)
    → WellFormed s
    → is_zombie (s.tasks s.current_task).state ≡ false
    → WellFormed (wait_any s).state
unfolding wait_any
wait_any-WellFormed s w alive =
    go (find_first (zombie_child s) (s.task_count - 1) 1)
      (find_first-Finds (zombie_child s) (s.task_count - 1) 1)
      (find_first (is_child s) (s.task_count - 1) 1)
  where
    go :
        (r : Option ℕ)
        → Finds (zombie_child s) (s.task_count - 1) 1 r
        → (q : Option ℕ)
        → WellFormed
            (elim r as (λ _. WaitResult) [
              | some i ↦ wait_for s i
              | none ↦ elim q as (λ _. WaitResult) [
                | some i ↦ wait_answer s (pos 0)
                | none ↦ wait_answer s minus_one
              ]
            ]).state
    go (some i) f q = wait_for-WellFormed s i w alive (omega (arith, f.1))
    go none f none = w
    go none f (some i) = w

-- A wait by a task that has not ended itself.
pub scheduler_wait_task_status-WellFormed :
    (s : Sched) (pid : ℤ) (has_status : Bool)
    → WellFormed s
    → is_zombie (s.tasks s.current_task).state ≡ false
    → WellFormed (scheduler_wait_task_status s pid has_status).state
unfolding scheduler_wait_task_status wait_pid
scheduler_wait_task_status-WellFormed s (negsuc n) has_status w alive = w
scheduler_wait_task_status-WellFormed s (pos pid) false w alive = w
scheduler_wait_task_status-WellFormed s (pos pid) true w alive =
    elim (Bool-cases (leb s.task_count pid || (pid == s.current_task))) [
      | inl e ↦ rw e w
      | inr e ↦ rw e (elim (Bool-cases (pid == 0)) [
        | inl any ↦ rw any (wait_any-WellFormed s w alive)
        | inr one ↦ rw one (wait_for-WellFormed s pid w alive (ground arith))
      ])
    ]
