-- ===== src/Sched/Effects.antt =====
-- What the steps of a switch do to the state of each task, to the count of tasks and to the
-- number of the current one.
use saturn_os.Prelude.{ℕ, ◌≡◌, ◌&&◌, arith, ◌==◌, if◌then◌else◌, refl, inl, inr, Bool-cases}
use saturn_os.Sched.Task.{TaskState, ready, running, is_running}
use saturn_os.Sched.State.{Sched, set_running_task}
use saturn_os.Sched.Switch.{make_ready, stop_yielding, hand_over, switch_root, preempted}

abbrev pub state_at : Sched → ℕ → TaskState
state_at s i = (s.tasks i).state

-- The count of tasks and the number of the current one.
abbrev pub Same : Sched → Sched → Type 0
Same s s' = (s'.task_count ≡ s.task_count) × (s'.current_task ≡ s.current_task)

pub make_ready-state :
    (s : Sched) (pid i : ℕ)
    → state_at (make_ready s pid) i
      ≡ (if (i == pid) && is_running (state_at s i) then ready else state_at s i)
unfolding make_ready
make_ready-state s pid i = elim (Bool-cases (is_running (s.tasks pid).state)) [
  | inl e ↦ rw e (ground arith)
  | inr e ↦ rw e (ground arith)
]

pub make_ready-Same : (s : Sched) (pid : ℕ) → Same s (make_ready s pid)
unfolding make_ready
make_ready-Same s pid = elim (Bool-cases (is_running (s.tasks pid).state)) [
  | inl e ↦ rw e (refl, refl)
  | inr e ↦ rw e (refl, refl)
]

pub stop_yielding-state :
    (s : Sched) (pid i : ℕ)
    → state_at (stop_yielding s pid) i
      ≡ (if (i == pid) && is_running (state_at s i) then ready else state_at s i)
unfolding stop_yielding
stop_yielding-state s pid i = elim (Bool-cases (is_running (s.tasks pid).state)) [
  | inl e ↦ rw e (ground arith)
  | inr e ↦ rw e (ground arith)
]

pub stop_yielding-Same : (s : Sched) (pid : ℕ) → Same s (stop_yielding s pid)
unfolding stop_yielding
stop_yielding-Same s pid = elim (Bool-cases (is_running (s.tasks pid).state)) [
  | inl e ↦ rw e (refl, refl)
  | inr e ↦ rw e (refl, refl)
]

pub set_running_task-state :
    (s : Sched) (pid i : ℕ)
    → state_at (set_running_task s pid) i ≡ (if i == pid then running else state_at s i)
unfolding set_running_task
set_running_task-state s pid i = ground arith

pub preempted-state : (s : Sched) (pid i : ℕ) → state_at (preempted s pid) i ≡ state_at s i
unfolding preempted
preempted-state s pid i = ground arith

pub hand_over-state :
    (s : Sched) (pid i : ℕ)
    → state_at (hand_over s pid) i ≡ (if i == pid then running else state_at s i)
unfolding hand_over set_running_task
hand_over-state s pid i = ground arith

pub hand_over-Same :
    (s : Sched) (pid : ℕ)
    → ((hand_over s pid).task_count ≡ s.task_count) × ((hand_over s pid).current_task ≡ pid)
unfolding hand_over set_running_task
hand_over-Same s pid = (refl, refl)

pub switch_root-state :
    (s : Sched) (next : ℕ) → ((switch_root s next).tasks ≡ s.tasks) × Same s (switch_root s next)
unfolding switch_root
switch_root-state s next = ground arith
