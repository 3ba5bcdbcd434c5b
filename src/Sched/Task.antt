-- ===== src/Sched/Task.antt =====
-- kernel/sched/scheduler.h, arch/arm64/context.h and kernel/memory/address_space.h: a task and what
-- it holds. A pointer to an address space is a reference to one of the kernel's or of a task's.
use Prim.Native.String.{String}
use saturn_os.Prelude.{ℕ, Bool, true, false, Option, List, [], Array, ℤ}

pub data TaskState : Type 0 where
  unused ready running blocked sleeping eligible zombie : TaskState

abbrev pub is_unused : TaskState → Bool
is_unused unused = true
is_unused _ = false

abbrev pub is_ready : TaskState → Bool
is_ready ready = true
is_ready _ = false

abbrev pub is_running : TaskState → Bool
is_running running = true
is_running _ = false

abbrev pub is_blocked : TaskState → Bool
is_blocked blocked = true
is_blocked _ = false

abbrev pub is_sleeping : TaskState → Bool
is_sleeping sleeping = true
is_sleeping _ = false

abbrev pub is_eligible : TaskState → Bool
is_eligible eligible = true
is_eligible _ = false

abbrev pub is_zombie : TaskState → Bool
is_zombie zombie = true
is_zombie _ = false

pub data SpaceKind : Type 0 where
  kernel_kind user_kind : SpaceKind

abbrev pub is_user_kind : SpaceKind → Bool
is_user_kind user_kind = true
is_user_kind kernel_kind = false

pub data SwitchStatus : Type 0 where
  switch_active switch_ready switch_blocked : SwitchStatus

-- `struct address_space_user_region`; a region without a name is not used.
pub record UserRegion : Type 0 where
  pub name : Option String
  pub start : ℕ
  pub end : ℕ
  pub attributes : ℕ
  pub user_access : Bool
  pub writable : Bool
  pub executable : Bool

-- The fields of `struct address_space` that the scheduler and user mode read or that
-- `address_space_destroy_user` writes.
pub record AddressSpace : Type 0 where
  pub kind : SpaceKind
  pub kernel_root_table : ℕ
  pub target_root_table : ℕ
  pub user_table_slot : ℕ
  pub user_code_start : ℕ
  pub user_stack_end : ℕ
  pub user_image_entry : ℕ
  pub user_tables_ready : Bool
  pub user_descriptors_ready : Bool
  pub user_mappings_ready : Bool
  pub user_image_ready : Bool
  pub user_execute_ready : Bool
  pub validation_ready : Bool
  pub switch_is_ready : Bool
  pub switch_status : SwitchStatus
  pub switch_stub_status : SwitchStatus
  pub validation_errors : ℕ
  pub user_regions : Array UserRegion

-- `struct address_space *`: null, the kernel's, or the one inside the task with this number.
pub data SpaceRef : Type 0 where
  null_space : SpaceRef
  kernel_space : SpaceRef
  space_of_task : ℕ → SpaceRef

-- `void (*entry)(void)`: `thread n` is a function of another file.
pub data Entry : Type 0 where
  null_entry idle_task user_task_entry : Entry
  thread : ℕ → Entry

-- What `lr` holds in a saved context.
pub data Link : Type 0 where
  zero_link thread_trampoline : Link
  entry_link : Entry → Link

-- `saved` are x19 to x28 and the frame pointer.
pub record CpuContext : Type 0 where
  pub saved : Array ℕ
  pub lr : Link
  pub sp : ℕ

pub record TaskMemory : Type 0 where
  pub address_space : SpaceRef
  pub stack_start : ℕ
  pub stack_end : ℕ
  pub guard_low_start : ℕ
  pub guard_low_end : ℕ
  pub guard_high_start : ℕ
  pub guard_high_end : ℕ

pub record TaskEl0State : Type 0 where
  pub pc : ℕ
  pub sp : ℕ
  pub spsr : ℕ
  pub ready : Bool

pub record TaskUserStatus : Type 0 where
  pub program_completed : Bool
  pub program_succeeded : Bool
  pub admissions : ℕ
  pub el0_entries : ℕ
  pub traps : ℕ
  pub recoveries : ℕ
  pub rejects : ℕ
  pub exits : ℕ
  pub last_exit_code : ℕ
  pub completions : ℕ
  pub failures : ℕ

pub record TaskAccounting : Type 0 where
  pub switches : ℕ
  pub run_ticks : ℕ
  pub yields : ℕ
  pub preemptions : ℕ
  pub sleep_wakeups : ℕ

pub record TaskFile : Type 0 where
  pub used : Bool
  pub path : List ℕ
  pub offset : ℕ

pub record Task : Type 0 where
  pub pid : ℕ
  pub parent_pid : ℤ
  pub name : String
  pub state : TaskState
  pub entry : Entry
  pub context : CpuContext
  pub sleep_until_tick : ℕ
  pub sleep_requested_ms : ℕ
  pub accounting : TaskAccounting
  pub memory : TaskMemory
  pub user_address_space : AddressSpace
  pub el0 : TaskEl0State
  pub user_status : TaskUserStatus
  pub files : Array TaskFile
  pub user_argc : ℕ
  pub user_argv_address : ℕ
  pub user_arg_lengths_address : ℕ

abbrev pub cleared_context : CpuContext
cleared_context = record { saved = λ i. 0; lr = zero_link; sp = 0 }

abbrev pub cleared_memory : TaskMemory
cleared_memory = record {
  address_space = null_space;
  stack_start = 0;
  stack_end = 0;
  guard_low_start = 0;
  guard_low_end = 0;
  guard_high_start = 0;
  guard_high_end = 0;
}

abbrev pub cleared_el0 : TaskEl0State
cleared_el0 = record { pc = 0; sp = 0; spsr = 0; ready = false }

abbrev pub cleared_user_status : TaskUserStatus
cleared_user_status = record {
  program_completed = false;
  program_succeeded = false;
  admissions = 0;
  el0_entries = 0;
  traps = 0;
  recoveries = 0;
  rejects = 0;
  exits = 0;
  last_exit_code = 0;
  completions = 0;
  failures = 0;
}

abbrev pub cleared_accounting : TaskAccounting
cleared_accounting = record {
  switches = 0;
  run_ticks = 0;
  yields = 0;
  preemptions = 0;
  sleep_wakeups = 0;
}

-- `scheduler_clear_files`: no entry is used, and each path is empty.
abbrev pub cleared_files : Array TaskFile
cleared_files = λ i. record { used = false; path = []; offset = 0 }
