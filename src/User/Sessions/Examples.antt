-- ===== src/User/Sessions/Examples.antt =====
-- The theorems of the sessions at concrete states.
use saturn_os.Prelude.{◌+◌, true, false, some, ◌==◌, if◌then◌else◌}
use saturn_os.Sched.Task.{Task, eligible, space_of_task}
use saturn_os.Sched.State.{Sched, Session, reject_none}
use saturn_os.Sched.Examples.{with_tasks, no_task}
use saturn_os.User.Sessions.{Trap, EntryArguments, user_mode_handle_exception}
use saturn_os.User.Sessions.Handlers.{HandlesException, user_mode_handle_exception-Handles}

abbrev user_task : Task
user_task = record no_task {
  pid = 1;
  state = eligible;
  memory = record no_task.memory { address_space = space_of_task 1 };
  el0 = record { pc = 0x80000000; sp = 0x80004000; spsr = 0; ready = true };
}

abbrev about_to_run : Sched
about_to_run = with_tasks (λ i. if i == 1 then user_task else no_task) 1 2

-- User mode that only makes the exit call.
abbrev straight : Sched → EntryArguments → Trap
straight s arguments = record { sched = s; elr = arguments.pc + 4; spsr = 0 }

-- An exception while the task is in user mode.
abbrev in_user_mode : Session
in_user_mode = record {
  active = true;
  completed = false;
  faulted = false;
  last_reject_reason = reject_none;
  reject_count = 0;
  task = some 1;
  return_pc = 0x40081000;
  kernel_root = 0x40100000;
  user_root = 0x40200000;
}

abbrev trapped : Trap
trapped = record {
  sched = record about_to_run { user_sessions = λ i. in_user_mode };
  elr = 0x80000010;
  spsr = 0;
}

user_mode_handle_exception-Handles_example :
    HandlesException trapped 0
      (user_mode_handle_exception trapped 0).0
      (user_mode_handle_exception trapped 0).1
user_mode_handle_exception-Handles_example = user_mode_handle_exception-Handles trapped 0
