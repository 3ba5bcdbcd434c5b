-- ===== src/User/Sessions/Runs.antt =====
-- A whole run of a user task by arch/arm64/user.c, from the entry to the return to the kernel.
use saturn_os.Prelude.{ℕ, ◌≡◌, true, false, ◌&&◌, Option, none, some, ◌==◌, if◌then◌else◌}
use saturn_os.Sched.Task.{Task}
use saturn_os.Sched.State.{Sched}
use saturn_os.Sched.Switch.{current_session}
use saturn_os.User.Sessions.{
  Trap, UserModeStatus, mode_ready, session_index, leave_root, count_user, count_exit,
  user_mode_handle_exit_syscall, EntryArguments, spsr_el1h,
}

-- The return from an exception goes to the address in `elr`, in the mode of `spsr`. It comes to the
-- address `task_return` in kernel mode only when the registers say so.
unfoldable pub returns_to : ℕ → Trap → Option Sched
returns_to task_return t =
    if (t.elr == task_return) && (t.spsr == spsr_el1h) then some t.sched else none

-- What follows an entry to user mode in which the task makes the exit call in the state `body s arguments`.
abbrev pub exiting : ℕ → (Sched → EntryArguments → Trap) → ℕ → Sched → EntryArguments → Option Sched
exiting task_return body code s arguments =
    returns_to task_return (user_mode_handle_exit_syscall (body s arguments) code).0

-- The session of a run of the task `p`, at the return from user mode.
record Ended (p code root : ℕ) (s : Sched) : Type 0 where
  completed : (s.user_sessions (session_index s)).completed ≡ true
  faulted_so : (s.user_sessions (session_index s)).faulted ≡ false
  inactive : (s.user_sessions (session_index s)).active ≡ false
  tables : s.ttbr0 ≡ root
  exit_code : (s.tasks p).user_status.last_exit_code ≡ code

-- What a run of the task `p` gives back: the kernel's tables, no session of the task, the status that it
-- is done, and the code of its exit call among its counters.
pub record Returns (p code root : ℕ) (result : Option (Sched × UserModeStatus)) : Type 0 where
  pub state : Sched
  pub returned : result ≡ some (state, mode_ready)
  pub tables : state.ttbr0 ≡ root
  pub inactive : (current_session state).active ≡ false
  pub no_task : (current_session state).task ≡ none
  pub exit_code : (state.tasks p).user_status.last_exit_code ≡ code

-- The trap that the exit call completes.
abbrev counted_exit : Trap → ℕ → ℕ → Trap
counted_exit t p code = record t {
  sched = count_user (count_exit code) (some p) (leave_root t.sched);
}
