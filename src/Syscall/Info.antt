-- ===== src/Syscall/Info.antt =====
-- The system calls of syscall.c that tell the calling task about the kernel and its tasks.
use Prim.Native.Nat.{bit_xor}
use saturn_os.Prelude.{
  ℕ, ◌*◌, ◌/◌, ◌%◌, ◌^◌, Bool, not, ◌||◌, none, some, List, [], ◌∷◌, leb, ◌==◌, if◌then◌else◌,
  add64, word, ℤ, pos, negsuc, int_is,
}
use saturn_os.Sched.Task.{
  Task, TaskState, unused, ready, running, blocked, sleeping, eligible, zombie,
}
use saturn_os.Sched.Stacks.{max_tasks}
use saturn_os.Sched.Control.{scheduler_task_by_pid}
use saturn_os.Memory.Pmm.{page_size, pmm_total_pages, pmm_free_pages}
use saturn_os.Syscall.{Kernel, fault, err_inval, store_words, caller}
use saturn_os.Syscall.Paths.{can_write}

-- SATURNOS_VERSION_MAJOR, _MINOR and _PATCH
abbrev pub version_major : ℕ
version_major = 0

abbrev pub version_minor : ℕ
version_minor = 6

abbrev pub version_patch : ℕ
version_patch = 95

-- The number of a state in `enum task_state`.
abbrev pub state_number : TaskState → ℕ
state_number unused = 0
state_number ready = 1
state_number running = 2
state_number blocked = 3
state_number sleeping = 4
state_number eligible = 5
state_number zombie = 6

-- `parent_pid > 0 ? parent_pid : 0`
abbrev pub parent_or_none : ℤ → ℕ
parent_or_none (pos n) = n
parent_or_none (negsuc n) = 0

-- The words of a `struct syscall_process_status`.
unfoldable pub status_words : Task → List ℕ
status_words t =
    t.pid
    ∷ parent_or_none t.parent_pid
    ∷ state_number t.state
    ∷ t.accounting.switches
    ∷ t.accounting.run_ticks
    ∷ t.accounting.yields
    ∷ t.accounting.preemptions
    ∷ t.user_status.last_exit_code
    ∷ (if t.user_status.program_succeeded then 1 else 0)
    ∷ []

-- The sizes of the two structures, of nine words each.
abbrev pub info_size : ℕ
info_size = 72

-- `value ^= value << 13; value ^= value >> 17; value ^= value << 5;`
unfoldable pub xorshift : ℕ → ℕ
xorshift v =
    let a : ℕ = bit_xor v (v * 2 ^ 13 % word) in
    let b : ℕ = bit_xor a (a / 2 ^ 17) in bit_xor b (b * 2 ^ 5 % word)

module _ {S : Type 0} where
  -- The words of a `struct syscall_system_info`.
  unfoldable pub info_words : Kernel S → List ℕ
  info_words k =
      version_major
      ∷ version_minor
      ∷ version_patch
      ∷ page_size
      ∷ pmm_total_pages
      ∷ pmm_free_pages k.pmm
      ∷ k.sched.scheduler_ticks
      ∷ k.sched.task_count
      ∷ max_tasks
      ∷ []

  unfoldable pub give_words : Kernel S → ℕ → List ℕ → Kernel S × ℤ
  give_words k address words = (record k { memory = store_words k.memory address words }, pos 0)

  unfoldable pub syscall_system_info : Kernel S → ℕ → Kernel S × ℤ
  syscall_system_info k address =
      if not (can_write k address info_size) then fault k else give_words k address (info_words k)

  unfoldable pub syscall_random : Kernel S → Kernel S × ℤ
  syscall_random k =
      let value : ℕ =
        xorshift (bit_xor k.random_state (add64 k.sched.scheduler_ticks (caller k).pid)) in
      (record k { random_state = value }, pos (value % 2 ^ 31))

  -- Whether the caller may ask about a task: about itself and its children.
  abbrev pub may_ask : Kernel S → Task → Bool
  may_ask k t = (t.pid == (caller k).pid) || int_is t.parent_pid (caller k).pid

  unfoldable pub give_status : Kernel S → ℕ → ℕ → Kernel S × ℤ
  give_status k address i =
      if not (may_ask k (k.sched.tasks i))
      then (k, err_inval)
      else give_words k address (status_words (k.sched.tasks i))

  unfoldable pub syscall_process_status : Kernel S → ℕ → ℕ → Kernel S × ℤ
  syscall_process_status k pid address =
      if not (can_write k address info_size)
      then fault k
      else if leb max_tasks pid
      then (k, err_inval)
      else elim (scheduler_task_by_pid k.sched (pos (if pid == 0 then (caller k).pid else pid))) [
        | none ↦ (k, err_inval)
        | some i ↦ give_status k address i
      ]

  unfoldable pub syscall_getpid : Kernel S → ℤ
  syscall_getpid k = pos (caller k).pid

  unfoldable pub syscall_getppid : Kernel S → ℤ
  syscall_getppid k = pos (parent_or_none (caller k).parent_pid)
