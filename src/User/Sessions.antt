-- ===== src/User/Sessions.antt =====
-- arch/arm64/user.c: a task's stay in user mode, from its entry to the call or the exception that ends it.
-- The entry itself is assembly.
pub mod Handlers
pub mod Runs
mod Examples
use saturn_os.Prelude.{
  ℕ, ◌+◌, Bool, true, false, not, ◌&&◌, ◌||◌, Option, none, some, leb, ◌==◌, if◌then◌else◌, update,
  bit_and, add64,
}
use saturn_os.Sched.Task.{
  Task, TaskUserStatus, AddressSpace, SpaceRef, null_space, kernel_space, space_of_task,
  is_user_kind, is_eligible, is_running, SwitchStatus, switch_active, switch_ready, switch_blocked,
}
use saturn_os.Sched.Stacks.{max_tasks}
use saturn_os.Sched.State.{
  Sched, Session, RejectReason, reject_none, reject_bad_roots, reject_bad_return,
  reject_unexpected_mode, set_task, space_at,
}
use saturn_os.Sched.Switch.{current_session}

pub data UserModeStatus : Type 0 where
  mode_ready mode_no_task mode_no_address_space mode_not_user_address_space
        mode_address_space_invalid :
      UserModeStatus
  mode_no_image mode_el0_not_ready mode_bad_entry_state mode_not_eligible mode_switch_not_ready :
      UserModeStatus
  mode_task_failed : UserModeStatus

abbrev pub is_mode_ready : UserModeStatus → Bool
is_mode_ready mode_ready = true
is_mode_ready _ = false

abbrev pub spsr_el0t : ℕ
spsr_el0t = 0

abbrev pub spsr_el1h : ℕ
spsr_el1h = 5

-- The state with the registers that the return from an exception reads.
pub record Trap : Type 0 where
  pub sched : Sched
  pub elr : ℕ
  pub spsr : ℕ

-- The place of `user_session`.
unfoldable pub session_index : Sched → ℕ
session_index s = let pid : ℕ = (s.tasks s.current_task).pid in if leb max_tasks pid then 0 else pid

unfoldable pub set_session : Sched → Session → Sched
set_session s x = record s { user_sessions = update s.user_sessions (session_index s) x }

-- `if (user_session.kernel_root) arm64_mmu_switch_ttbr0(user_session.kernel_root);`
unfoldable pub leave_root : Sched → Sched
leave_root s =
    if (current_session s).kernel_root == 0
    then s
    else record s { ttbr0 = (current_session s).kernel_root }

-- A change of the counters of the task of the session, when it has one.
unfoldable pub count_user : (TaskUserStatus → TaskUserStatus) → Option ℕ → Sched → Sched
count_user change none s = s
count_user change (some p) s =
    set_task s p (record (s.tasks p) { user_status = change (s.tasks p).user_status })

unfoldable pub count_reject : TaskUserStatus → TaskUserStatus
count_reject u = record u { rejects = add64 u.rejects 1 }

unfoldable pub count_trap : TaskUserStatus → TaskUserStatus
count_trap u = record u { traps = add64 u.traps 1 }

unfoldable pub count_exit : ℕ → TaskUserStatus → TaskUserStatus
count_exit code u = record (count_trap u) { exits = add64 u.exits 1; last_exit_code = code }

unfoldable pub count_entry : TaskUserStatus → TaskUserStatus
count_entry u = record u { el0_entries = add64 u.el0_entries 1 }

unfoldable pub count_recovery : TaskUserStatus → TaskUserStatus
count_recovery u = record u { recoveries = add64 u.recoveries 1 }

-- `user_session_reject`, up to its report; its result is 0.
unfoldable pub user_session_reject : RejectReason → Sched → Sched
user_session_reject reason s =
    let s1 : Sched = leave_root s in
    let x : Session = current_session s1 in
    let s2 : Sched = set_session s1 (record x {
      last_reject_reason = reason;
      reject_count = add64 x.reject_count 1;
      active = false;
    }) in
    count_user count_reject x.task s2

-- The end of both handlers: the session is over, and the return from the exception is to the kernel.
unfoldable pub complete : Bool → Trap → Trap
complete faulted t =
    let x : Session = current_session t.sched in
    record {
      sched =
          set_session t.sched (record x { completed = true; faulted = faulted; active = false });
      elr = x.return_pc;
      spsr = spsr_el1h;
    }

unfoldable pub recover : Trap → Trap
recover t =
    let s1 : Sched = record t.sched { ttbr0 = (current_session t.sched).kernel_root } in
    let x : Session = current_session s1 in
    let s2 : Sched =
      set_session s1
        (record x { reject_count = add64 x.reject_count 1; last_reject_reason = reject_none }) in
    complete true (record t { sched = count_user (λ u. count_reject (count_trap u)) x.task s2 })

unfoldable pub user_mode_handle_exception : Trap → ℕ → Trap × Bool
user_mode_handle_exception t spsr =
    let x : Session = current_session t.sched in
    if not x.active
    then (t, false)
    else if (x.kernel_root == 0) || (x.user_root == 0)
    then (record t { sched = user_session_reject reject_bad_roots t.sched }, false)
    else if x.return_pc == 0
    then (record t { sched = user_session_reject reject_bad_return t.sched }, false)
    else if not (bit_and spsr 0xf == spsr_el0t)
    then (record t { sched = user_session_reject reject_unexpected_mode t.sched }, false)
    else (recover t, true)

unfoldable pub user_mode_handle_exit_syscall : Trap → ℕ → Trap × Bool
user_mode_handle_exit_syscall t code =
    let x : Session = current_session t.sched in
    if not x.active || (x.return_pc == 0) then (t, false) else (
      complete false
          (record t { sched = count_user (count_exit code) x.task (leave_root t.sched) }),
      true,
    )

-- The checks of a user task and its space before an entry.
unfoldable pub can_enter_space : Task → AddressSpace → UserModeStatus
can_enter_space t a =
    if not (is_user_kind a.kind)
    then mode_not_user_address_space
    else if not a.validation_ready || not (a.validation_errors == 0)
    then mode_address_space_invalid
    else if not a.user_image_ready
    then mode_no_image
    else if not t.el0.ready
    then mode_el0_not_ready
    else if (t.el0.pc == 0)
        || (t.el0.sp == 0)
        || not (bit_and t.el0.sp 0xf == 0)
        || not (t.el0.spsr == spsr_el0t)
    then mode_bad_entry_state
    else mode_ready

unfoldable pub user_mode_can_enter : Sched → Option ℕ → UserModeStatus
user_mode_can_enter s none = mode_no_task
user_mode_can_enter s (some p) = elim (space_at s (s.tasks p).memory.address_space) [
  | none ↦ mode_no_address_space
  | some a ↦ can_enter_space (s.tasks p) a
]

-- The status that `address_space_switch_stub` of address_space.c stores and returns.
unfoldable pub switch_stub_of : AddressSpace → SwitchStatus
switch_stub_of a = elim a.switch_status [
  | switch_active ↦ switch_active
  | switch_ready ↦ stub
  | switch_blocked ↦ stub
]
  where
    stub : SwitchStatus
    stub =
        if not a.switch_is_ready
          || (a.target_root_table == 0)
          || not a.validation_ready
          || not (a.validation_errors == 0)
        then switch_blocked
        else switch_ready

unfoldable pub set_space : Sched → SpaceRef → AddressSpace → Sched
set_space s null_space a = s
set_space s kernel_space a = record s { kernel_address_space = a }
set_space s (space_of_task p) a = set_task s p (record (s.tasks p) { user_address_space = a })

unfoldable pub address_space_switch_stub : Sched → SpaceRef → Sched × SwitchStatus
address_space_switch_stub s r = elim (space_at s r) [
  | none ↦ (s, switch_blocked)
  | some a ↦ (set_space s r (record a { switch_stub_status = switch_stub_of a }), switch_stub_of a)
]

-- The arguments of `arm64_enter_el0_task`.
pub record EntryArguments : Type 0 where
  pub pc : ℕ
  pub sp : ℕ
  pub spsr : ℕ
  pub argc : ℕ
  pub argv_address : ℕ
  pub lengths_address : ℕ

unfoldable pub entry_arguments : Task → EntryArguments
entry_arguments t = record {
  pc = t.el0.pc;
  sp = t.el0.sp;
  spsr = t.el0.spsr;
  argc = t.user_argc;
  argv_address = t.user_argv_address;
  lengths_address = t.user_arg_lengths_address;
}

unfoldable pub is_switch_ready : SwitchStatus → Bool
is_switch_ready switch_ready = true
is_switch_ready _ = false

-- `user_mode_run_task` behind the return from user mode.
unfoldable pub settle_run : ℕ → Sched → Sched × UserModeStatus
settle_run p s =
    let x : Session = current_session s in
    if x.completed
    then (
      set_session (count_user count_recovery (some p) s) (record x { task = none }),
      if x.faulted then mode_task_failed else mode_ready,
    )
    else (
      record (set_session s (record x { active = false; task = none })) { ttbr0 = x.kernel_root },
      mode_task_failed,
    )

-- `task_return` is the address of `arm64_el0_task_return`; `enter_el0` is all that happens from the entry
-- to user mode until that address is reached in kernel mode, and `none` when it never is; then the run
-- does not return, and has the result `none` too.
module _ (task_return : ℕ) (enter_el0 : Sched → EntryArguments → Option Sched) where
  -- The session of an entry, in the space `a`.
  unfoldable pub opened : ℕ → AddressSpace → Session → Session
  opened p a x = record x {
    active = true;
    completed = false;
    faulted = false;
    last_reject_reason = reject_none;
    task = some p;
    return_pc = task_return;
    kernel_root = a.kernel_root_table;
    user_root = a.target_root_table;
  }

  -- The state in which `arm64_enter_el0_task` is called.
  unfoldable pub entering : ℕ → AddressSpace → Sched → Sched
  entering p a s =
      count_user count_entry (some p)
        (record (set_session s (opened p a (current_session s))) { ttbr0 = a.target_root_table })

  unfoldable pub run_in_space : ℕ → Option AddressSpace → Sched → Option (Sched × UserModeStatus)
  run_in_space p none s = some (s, mode_switch_not_ready)
  run_in_space p (some a) s =
      if not (is_switch_ready (switch_stub_of a))
      then some (s, mode_switch_not_ready)
      else elim (enter_el0 (entering p a s) (entry_arguments (s.tasks p))) [
        | none ↦ none
        | some s' ↦ some (settle_run p s')
      ]

  unfoldable pub run_checked : ℕ → Sched → UserModeStatus → Option (Sched × UserModeStatus)
  run_checked p s status =
      if not (is_mode_ready status)
      then some (s, status)
      else if not (is_eligible (s.tasks p).state) && not (is_running (s.tasks p).state)
      then some (s, mode_not_eligible)
      else run_in_space p (space_at s (s.tasks p).memory.address_space)
          (address_space_switch_stub s (s.tasks p).memory.address_space).0

  unfoldable pub user_mode_run_task : Sched → Option ℕ → Option (Sched × UserModeStatus)
  user_mode_run_task s none = some (s, mode_no_task)
  user_mode_run_task s (some p) = run_checked p s (user_mode_can_enter s (some p))
