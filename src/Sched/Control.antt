-- ===== src/Sched/Control.antt =====
-- The operations of scheduler.c on the state of one task: block, unblock, reap, wait, parent,
-- terminate. A process id comes in as an `int`; 0 or 1 means success where the source says so,
-- and -1 means an error.
use saturn_os.Prelude.{
  ℕ, zero, suc, ◌+◌, ◌-◌, Bool, true, false, not, ◌&&◌, ◌||◌, Option, none, some, leb, ◌==◌,
  if◌then◌else◌, find_first, add64, ℤ, pos, negsuc, minus_one, int_is,
}
use saturn_os.Sched.Task.{
  Task, AddressSpace, ready, blocked, zombie, is_unused, is_ready, is_blocked, is_zombie,
  is_user_kind,
}
use saturn_os.Sched.State.{
  Sched, set_task, space_at, clear_task_slot, trim_unused_tail, task_is_kernel_task,
}

-- The early returns of `scheduler_block_task`, in their order: each prints a message of its own.
unfoldable pub block_refused : Sched → ℕ → Bool
block_refused s pid =
    leb s.task_count pid
    || (pid == 0)
    || (pid == s.current_task)
    || not (task_is_kernel_task s (s.tasks pid))
    || not (is_ready (s.tasks pid).state)

unfoldable pub block_pid : Sched → ℕ → Sched × ℤ
block_pid s pid = if block_refused s pid then (s, minus_one) else (
  set_task s pid
      (record (s.tasks pid) { state = blocked; sleep_until_tick = 0; sleep_requested_ms = 0 }),
  pos 0,
)

unfoldable pub scheduler_block_task : Sched → ℤ → Sched × ℤ
scheduler_block_task s (negsuc n) = (s, minus_one)
scheduler_block_task s (pos pid) = block_pid s pid

unfoldable pub unblock_refused : Sched → ℕ → Bool
unblock_refused s pid =
    leb s.task_count pid
    || (pid == 0)
    || not (task_is_kernel_task s (s.tasks pid))
    || not (is_blocked (s.tasks pid).state)

unfoldable pub unblock_pid : Sched → ℕ → Sched × ℤ
unblock_pid s pid =
    if unblock_refused s pid
    then (s, minus_one)
    else (set_task s pid (record (s.tasks pid) { state = ready }), pos 0)

unfoldable pub scheduler_unblock_task : Sched → ℤ → Sched × ℤ
scheduler_unblock_task s (negsuc n) = (s, minus_one)
scheduler_unblock_task s (pos pid) = unblock_pid s pid

unfoldable pub reap_refused : Sched → ℕ → Bool
reap_refused s pid =
    leb s.task_count pid
    || (pid == 0)
    || (pid == s.current_task)
    || not (is_zombie (s.tasks pid).state)

unfoldable pub reap_pid : Sched → ℕ → Sched × ℤ
reap_pid s pid =
    if reap_refused s pid then (s, minus_one) else (trim_unused_tail (clear_task_slot s pid), pos 0)

unfoldable pub scheduler_reap_zombie_task : Sched → ℤ → Sched × ℤ
scheduler_reap_zombie_task s (negsuc n) = (s, minus_one)
scheduler_reap_zombie_task s (pos pid) = reap_pid s pid

-- The loop of `scheduler_reap_zombies`, with the rounds left.
unfoldable pub reap_round : ℕ → Sched × ℕ → Sched × ℕ
reap_round i (s, reaped) =
    if not (i == s.current_task) && is_zombie (s.tasks i).state
    then (clear_task_slot s i, reaped + 1)
    else (s, reaped)

unfoldable pub reap_loop : ℕ → ℕ → Sched × ℕ → Sched × ℕ
reap_loop zero i r = r
reap_loop (suc n) i r = reap_loop n (suc i) (reap_round i r)

unfoldable pub scheduler_reap_zombies : Sched → Sched × ℕ
scheduler_reap_zombies s =
    let (s', reaped) = reap_loop (s.task_count - 1) 1 (s, 0) in (trim_unused_tail s', reaped)

-- `struct task_wait_status`
pub record WaitStatus : Type 0 where
  pub pid : ℕ
  pub exit_code : ℕ
  pub succeeded : ℕ

pub record WaitResult : Type 0 where
  pub state : Sched
  pub value : ℤ
  pub status : Option WaitStatus

abbrev pub wait_answer : Sched → ℤ → WaitResult
wait_answer s value = record { state = s; value = value; status = none }

abbrev pub is_child : Sched → ℕ → Bool
is_child s i = int_is (s.tasks i).parent_pid s.current_task

abbrev pub kind_is_user : Option AddressSpace → Bool
kind_is_user none = false
kind_is_user (some a) = is_user_kind a.kind

unfoldable pub is_user_task : Sched → ℕ → Bool
is_user_task s pid = kind_is_user (space_at s (s.tasks pid).memory.address_space)

-- `scheduler_wait_task_status` behind the search for a child.
unfoldable pub wait_for : Sched → ℕ → WaitResult
wait_for s pid =
    if not (is_user_task s pid) || not (is_child s pid)
    then wait_answer s minus_one
    else if not (is_zombie (s.tasks pid).state)
    then wait_answer s (pos 0)
    else record {
      state = trim_unused_tail (clear_task_slot s pid);
      value = pos 1;
      status = some (record {
        pid = pid;
        exit_code = (s.tasks pid).user_status.last_exit_code;
        succeeded = if (s.tasks pid).user_status.program_succeeded then 1 else 0;
      });
    }

unfoldable pub zombie_child : Sched → ℕ → Bool
zombie_child s i = is_child s i && is_zombie (s.tasks i).state

-- The search for any child, for `pid == 0`: the first zombie child, or whether there is a child.
unfoldable pub wait_any : Sched → WaitResult
wait_any s = elim (find_first (zombie_child s) (s.task_count - 1) 1) [
  | some i ↦ wait_for s i
  | none ↦ elim (find_first (is_child s) (s.task_count - 1) 1) [
    | some i ↦ wait_answer s (pos 0)
    | none ↦ wait_answer s minus_one
  ]
]

unfoldable pub wait_pid : Sched → ℕ → WaitResult
wait_pid s pid =
    if leb s.task_count pid || (pid == s.current_task)
    then wait_answer s minus_one
    else if pid == 0
    then wait_any s
    else wait_for s pid

-- `has_status` says whether the pointer `status` is not null.
unfoldable pub scheduler_wait_task_status : Sched → ℤ → Bool → WaitResult
scheduler_wait_task_status s (negsuc n) has_status = wait_answer s minus_one
scheduler_wait_task_status s (pos pid) has_status =
    if not has_status then wait_answer s minus_one else wait_pid s pid

unfoldable pub parent_refused : Sched → ℕ → ℕ → Bool
parent_refused s pid parent =
    (pid == 0)
    || leb s.task_count pid
    || (parent == 0)
    || leb s.task_count parent
    || (pid == parent)

unfoldable pub set_parent : Sched → ℕ → ℕ → Sched × ℤ
set_parent s pid parent =
    if parent_refused s pid parent
    then (s, pos 0)
    else (set_task s pid (record (s.tasks pid) { parent_pid = pos parent }), pos 1)

unfoldable pub scheduler_set_task_parent : Sched → ℤ → ℤ → Sched × ℤ
scheduler_set_task_parent s (negsuc n) parent = (s, pos 0)
scheduler_set_task_parent s (pos pid) (negsuc n) = (s, pos 0)
scheduler_set_task_parent s (pos pid) (pos parent) = set_parent s pid parent

-- What `scheduler_terminate_child` leaves of the task.
unfoldable pub terminated : ℕ → Task → Task
terminated code t = record t {
  user_status = record t.user_status {
    program_completed = true;
    program_succeeded = false;
    last_exit_code = code;
    failures = add64 t.user_status.failures 1;
  };
  state = zombie;
}

unfoldable pub terminate_refused : Sched → ℕ → Bool
terminate_refused s pid =
    (pid == 0)
    || leb s.task_count pid
    || (pid == s.current_task)
    || not (is_child s pid)
    || is_unused (s.tasks pid).state
    || is_zombie (s.tasks pid).state

unfoldable pub terminate_pid : Sched → ℕ → ℕ → Sched × ℤ
terminate_pid s pid code =
    if terminate_refused s pid
    then (s, pos 0)
    else (set_task s pid (terminated code (s.tasks pid)), pos 1)

unfoldable pub scheduler_terminate_child : Sched → ℤ → ℕ → Sched × ℤ
scheduler_terminate_child s (negsuc n) code = (s, pos 0)
scheduler_terminate_child s (pos pid) code = terminate_pid s pid code

-- `scheduler_task_by_pid`: the number of the slot, if it holds a task.
unfoldable pub scheduler_task_by_pid : Sched → ℤ → Option ℕ
scheduler_task_by_pid s (negsuc n) = none
scheduler_task_by_pid s (pos pid) =
    if leb s.task_count pid || is_unused (s.tasks pid).state then none else some pid
