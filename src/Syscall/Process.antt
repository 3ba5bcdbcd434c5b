-- ===== src/Syscall/Process.antt =====
-- The system calls of syscall.c in which other tasks run, or which make a new one. What the other tasks
-- do meanwhile is a parameter.
use saturn_os.Prelude.{
  ℕ, ◌+◌, ◌-◌, ◌/◌, ◌^◌, ◌%◌, not, ◌&&◌, ◌||◌, Option, none, some, List, [], ◌∷◌, ltb, leb, ◌==◌,
  if◌then◌else◌, Array, zero, suc, ℤ, pos, negsuc, int_is,
}
use saturn_os.Sched.Control.{
  WaitStatus, WaitResult, scheduler_wait_task_status, scheduler_set_task_parent,
}
use saturn_os.Fs.Paths.{FilePath}
use saturn_os.Syscall.{
  Kernel, fault, err_inval, is_negative, read_name, store_words, caller, has_caller,
}
use saturn_os.Syscall.Paths.{can_read, can_write}
use saturn_os.Syscall.Files.{file_path_size}

-- What the calls leave to others: the end of a session, other tasks that run until the caller runs
-- again, and the making of a user task from a program. `wait_on` is the loop of `syscall_wait` from its
-- first yield on.
pub record ProcessCalls (S : Type 0) : Type 0 where
  pub exit_call : Kernel S → ℕ → Kernel S
  pub yield_call : Kernel S → Kernel S
  pub sleep_call : Kernel S → ℕ → Kernel S
  pub wait_on : Kernel S → ℕ → ℕ → Kernel S × ℤ
  pub create_program : Kernel S → FilePath → Option (List ℕ) → Kernel S × ℤ
  pub unblock_program : Kernel S → ℤ → Kernel S × ℤ

abbrev pub sleep_max_ms : ℕ
sleep_max_ms = 60000

abbrev pub argument_max : ℕ
argument_max = 128

-- The size of a `struct task_wait_status`.
abbrev pub wait_status_size : ℕ
wait_status_size = 24

-- `(int)value` of an `unsigned long`.
abbrev pub to_int : ℕ → ℤ
to_int value =
    let w : ℕ = value % 2 ^ 32 in if ltb w (2 ^ 31) then pos w else negsuc (2 ^ 32 - w - 1)

-- The bytes of the argument, all of them.
unfoldable pub read_bytes : ℕ → Array ℕ → ℕ → List ℕ
read_bytes zero memory address = []
read_bytes (suc n) memory address = memory address ∷ read_bytes n memory (address + 1)

module _ {S : Type 0} where
  -- The stores of `scheduler_wait_task_status` to its status.
  unfoldable pub store_status : Kernel S → ℕ → Option WaitStatus → Kernel S
  store_status k address none = k
  store_status k address (some w) = record k {
    memory = store_words k.memory address (w.pid ∷ w.exit_code ∷ w.succeeded ∷ []);
  }

  -- One round of the loop of `syscall_wait`.
  unfoldable pub wait_round : Kernel S → ℕ → ℕ → Kernel S × ℤ
  wait_round k pid address =
      let r : WaitResult = scheduler_wait_task_status k.sched (to_int pid) (not (address == 0)) in
      (store_status (record k { sched = r.state }) address r.status, r.value)

  module _ (process : ProcessCalls S) where
    unfoldable pub syscall_sleep : Kernel S → ℕ → Kernel S × ℤ
    syscall_sleep k milliseconds =
        if (milliseconds == 0) || ltb sleep_max_ms milliseconds
        then (k, err_inval)
        else (process.sleep_call k milliseconds, pos 0)

    unfoldable pub syscall_wait : Kernel S → ℕ → ℕ → ℕ → Kernel S × ℤ
    syscall_wait k pid address options =
        if not (options / 2 == 0)
        then (k, err_inval)
        else if not (can_write k address wait_status_size)
        then fault k
        else let (k', result) = wait_round k pid address in
          if int_is result 0 && (options == 0) then process.wait_on k' pid address else (k', result)

    -- `scheduler_set_task_parent(pid, parent->pid)` and what follows; `unblock_program` answers below 0
    -- when it fails.
    unfoldable pub adopt_program : Kernel S → ℤ → Kernel S × ℤ
    adopt_program k pid =
        let (sched, done) = scheduler_set_task_parent k.sched pid (pos (caller k).pid) in
        if int_is done 0
        then (record k { sched = sched }, err_inval)
        else let (k', started) = process.unblock_program (record k { sched = sched }) pid in
          (k', if is_negative started then err_inval else pid)

    unfoldable pub spawn_program : Kernel S → FilePath → Option (List ℕ) → Kernel S × ℤ
    spawn_program k path argument =
        let (k', pid) = process.create_program k path argument in
        if is_negative pid || not (has_caller k') then (k', err_inval) else adopt_program k' pid

    unfoldable pub syscall_spawn : Kernel S → ℕ → ℕ → ℕ → ℕ → Kernel S × ℤ
    syscall_spawn k address length argument size =
        if (length == 0) || leb file_path_size length || not (can_read k address length)
        then fault k
        else elim (read_name length k.memory address) [
          | none ↦ (k, err_inval)
          | some path ↦
              if ltb argument_max size || (not (size == 0) && not (can_read k argument size))
              then fault k
              else spawn_program k path
                  (if size == 0 then none else some (read_bytes size k.memory argument))
        ]
