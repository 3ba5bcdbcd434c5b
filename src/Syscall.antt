-- ===== src/Syscall.antt =====
-- kernel/syscall/syscall.c and syscall.h: what a user task asks the kernel to do. `memory` is what the
-- bytes at the addresses of the calling task hold, and `console` what was printed, the last byte first.
pub mod Paths
pub mod Files
pub mod Info
pub mod Process
pub mod Dispatch
pub mod Confined
mod Examples
use saturn_os.Prelude.{
  ℕ, zero, suc, ◌+◌, ◌-◌, ◌*◌, ◌/◌, ◌%◌, ◌^◌, Bool, true, false, not, ◌&&◌, ◌||◌, Option, none,
  some, List, [], ◌∷◌, ltb, leb, ◌==◌, if◌then◌else◌, Array, update, add64, ℤ, pos, negsuc,
}
use saturn_os.Sched.Task.{AddressSpace, is_user_kind, Task, TaskFile}
use saturn_os.Sched.State.{Sched, space_at, set_task}
use saturn_os.Sched.Switch.{user_mode_active_address_space}
use saturn_os.Memory.Pmm.{Pmm}
use saturn_os.Fs.Paths.{FilePath}
use saturn_os.Fs.Vfs.Files.{Vfs, copy_in}

-- `struct syscall_stats`. Its counters of single calls are `calls`, by the number of the call.
pub record SyscallStats : Type 0 where
  pub total : ℕ
  pub handled : ℕ
  pub rejected : ℕ
  pub calls : Array ℕ
  pub last_random : ℕ
  pub last_monotonic_ms : ℕ
  pub faults : ℕ
  pub write_bytes : ℕ
  pub file_write_bytes : ℕ
  pub last_exit_code : ℕ
  pub last_number : ℕ
  pub last_arg0 : ℕ
  pub last_arg1 : ℕ
  pub last_arg2 : ℕ
  pub last_result : ℤ

pub record Kernel (S : Type 0) : Type 0 where
  pub sched : Sched
  pub pmm : Pmm
  pub files : Vfs S
  pub memory : Array ℕ
  pub console : List ℕ
  pub stats : SyscallStats
  pub random_state : ℕ

abbrev pub err_inval : ℤ
err_inval = negsuc 0

abbrev pub err_fault : ℤ
err_fault = negsuc 1

abbrev pub is_negative : ℤ → Bool
is_negative (pos n) = false
is_negative (negsuc n) = true

-- `stats.faults++; return SYSCALL_ERR_FAULT;`
unfoldable pub fault : {S : Type 0} → Kernel S → Kernel S × ℤ
fault k = (record k { stats = record k.stats { faults = add64 k.stats.faults 1 } }, err_fault)

abbrev pub only_user : Option AddressSpace → Option AddressSpace
only_user none = none
only_user (some space) = if is_user_kind space.kind then some space else none

unfoldable pub syscall_address_space : Sched → Option AddressSpace
syscall_address_space s = elim (user_mode_active_address_space s) [
  | some space ↦ some space
  | none ↦ only_user (space_at s (s.tasks s.current_task).memory.address_space)
]

-- The loop that copies a name out of the user's memory; `none` if one of its bytes is zero.
unfoldable pub read_name : ℕ → Array ℕ → ℕ → Option FilePath
read_name zero memory address = some []
read_name (suc n) memory address =
    if memory address == 0 then none else elim (read_name n memory (address + 1)) [
      | none ↦ none
      | some cs ↦ some (memory address ∷ cs)
    ]

-- The stores of 64-bit fields one behind the other, the lowest byte of each first.
unfoldable pub store_words : Array ℕ → ℕ → List ℕ → Array ℕ
store_words memory address [] = memory
store_words memory address (w ∷ ws) =
    store_words (copy_in memory address (λ i. w / 256 ^ i % 256) 8) (address + 8) ws

-- `task->files = …` for the calling task.
unfoldable pub set_files : {S : Type 0} → Kernel S → Array TaskFile → Kernel S
set_files k files = record k {
  sched =
      set_task k.sched k.sched.current_task
        (record (k.sched.tasks k.sched.current_task) { files = files });
}

abbrev pub caller : {S : Type 0} → Kernel S → Task
caller k = k.sched.tasks k.sched.current_task

-- Whether `scheduler_current_task_mutable` gives a task.
abbrev pub has_caller : {S : Type 0} → Kernel S → Bool
has_caller k = ltb k.sched.current_task k.sched.task_count

abbrev pub ok_or_inval : Bool → ℤ
ok_or_inval done = if done then pos 0 else err_inval
