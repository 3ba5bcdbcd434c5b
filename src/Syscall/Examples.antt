-- ===== src/Syscall/Examples.antt =====
-- The theorems of the system calls for a user task that runs in a new address space.
use saturn_os.Prelude.{refl, arith, Bool, false, none, [], if◌then◌else◌, ◌==◌, pos}
use saturn_os.Sched.Task.{Task, cleared_memory, space_of_task}
use saturn_os.Sched.Examples.{user_space, idle, shell, no_task, with_tasks}
use saturn_os.Memory.Pmm.{pmm_init}
use saturn_os.Memory.Space.{set_user_regions, data_start}
use saturn_os.Fs.Disk.{DiskFs}
use saturn_os.Fs.Vfs.Examples.{one_file}
use saturn_os.Syscall.{err_inval, Kernel, SyscallStats}
use saturn_os.Syscall.Dispatch.{number_of, numbers, number_in, syscall_dispatch}
use saturn_os.Syscall.Process.{ProcessCalls}
use saturn_os.Syscall.Confined.Whole.{Safe, syscall_dispatch-Safe}

abbrev no_disk : DiskFs Bool
no_disk = record {
  sfs_write_file = λ s path b size. (s, false);
  sfs_read_file = λ s path b capacity. (s, none);
}

abbrev alone : ProcessCalls Bool
alone = record {
  exit_call = λ k code. k;
  yield_call = λ k. k;
  sleep_call = λ k ms. k;
  wait_on = λ k pid address. (k, pos 0);
  create_program = λ k path argument. (k, err_inval);
  unblock_program = λ k pid. (k, pos 0);
}

abbrev program_task : Task
program_task = record shell {
  memory = record cleared_memory { address_space = space_of_task 1 };
  user_address_space = set_user_regions user_space;
}

abbrev no_calls : SyscallStats
no_calls = record {
  total = 0;
  handled = 0;
  rejected = 0;
  calls = λ i. 0;
  last_random = 0;
  last_monotonic_ms = 0;
  faults = 0;
  write_bytes = 0;
  file_write_bytes = 0;
  last_exit_code = 0;
  last_number = 0;
  last_arg0 = 0;
  last_arg1 = 0;
  last_arg2 = 0;
  last_result = pos 0;
}

abbrev kernel : Kernel Bool
kernel = record {
  sched = with_tasks (λ i. if i == 0 then idle else if i == 1 then program_task else no_task) 1 2;
  pmm = pmm_init 0x40100000;
  files = record { ram = one_file; disk = false; buffer = λ i. 0 };
  memory = λ i. 0;
  console = [];
  stats = no_calls;
  random_state = 1;
}

-- A list of the first entry to the start of the caller's data.
syscall_dispatch-Safe_example :
    Safe no_disk alone 10 kernel (syscall_dispatch no_disk alone 10 kernel 19 0 data_start 64 0).0
unfolding number_of numbers number_in
syscall_dispatch-Safe_example =
    syscall_dispatch-Safe no_disk alone 10 kernel 19 0 data_start 64 0 (omega arith) (omega arith)
      (omega arith) refl
