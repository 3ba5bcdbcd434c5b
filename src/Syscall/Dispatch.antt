-- ===== src/Syscall/Dispatch.antt =====
-- `syscall_dispatch` of syscall.c.
use saturn_os.Prelude.{
  ℕ, zero, suc, List, [], ◌∷◌, int_is, ◌-◌, ◌*◌, ◌%◌, ◌^◌, Bool, true, false, ltb, if◌then◌else◌,
  update, add64, word, ℤ, pos, negsuc,
}
use saturn_os.Sched.Control.{scheduler_terminate_child}
use saturn_os.Fs.Disk.{DiskFs}
use saturn_os.Syscall.{Kernel, err_inval}
use saturn_os.Syscall.Paths.{
  syscall_mkdir, syscall_remove, syscall_rename, syscall_directory_list, syscall_path_stat,
  syscall_truncate,
}
use saturn_os.Syscall.Files.{
  syscall_write, syscall_read, syscall_close, syscall_seek, syscall_open, syscall_dup,
}
use saturn_os.Syscall.Process.{ProcessCalls, to_int, syscall_sleep, syscall_wait, syscall_spawn}
use saturn_os.Syscall.Info.{
  syscall_system_info, syscall_random, syscall_process_status, syscall_getpid, syscall_getppid,
}

-- The numbers of syscall.h.
pub data SyscallNumber : Type 0 where
  write_number exit_number yield_number open_number read_number close_number create_number
        seek_number wait_number spawn_number terminate_number sleep_number monotonic_ms_number
        getpid_number getppid_number system_info_number random_number process_status_number
        directory_list_number mkdir_number remove_number rename_number path_stat_number
        truncate_number dup_number unknown_number :
      SyscallNumber

unfoldable pub numbers : List SyscallNumber
numbers =
    unknown_number ∷ write_number ∷ exit_number ∷ yield_number ∷ open_number ∷ read_number
    ∷ close_number ∷ create_number ∷ seek_number ∷ wait_number ∷ spawn_number ∷ terminate_number
    ∷ sleep_number ∷ monotonic_ms_number ∷ getpid_number ∷ getppid_number ∷ system_info_number
    ∷ random_number ∷ process_status_number ∷ directory_list_number ∷ mkdir_number ∷ remove_number
    ∷ rename_number ∷ path_stat_number ∷ truncate_number ∷ dup_number ∷ []

unfoldable pub number_in : List SyscallNumber → ℕ → SyscallNumber
number_in [] n = unknown_number
number_in (x ∷ xs) zero = x
number_in (x ∷ xs) (suc n) = number_in xs n

unfoldable pub number_of : ℕ → SyscallNumber
number_of n = number_in numbers n

-- `(long)value`
abbrev pub to_long : ℕ → ℤ
to_long value = if ltb value (2 ^ 63) then pos value else negsuc (2 ^ 64 - value - 1)

-- `(unsigned long)result`
abbrev pub to_word : ℤ → ℕ
to_word (pos n) = n
to_word (negsuc n) = word - n - 1

-- Whether the handlers of `exit`, `yield` and unknown numbers count themselves.
abbrev pub counts_itself : SyscallNumber → Bool
counts_itself exit_number = true
counts_itself yield_number = true
counts_itself unknown_number = true
counts_itself _ = false

abbrev pub is_unknown : SyscallNumber → Bool
is_unknown unknown_number = true
is_unknown _ = false

-- What every call of a number changes before it is told apart.
unfoldable pub enter : {S : Type 0} → Kernel S → ℕ → ℕ → ℕ → ℕ → Kernel S
enter k number arg0 arg1 arg2 = record k {
  stats = record k.stats {
    total = add64 k.stats.total 1;
    last_number = number;
    last_arg0 = arg0;
    last_arg1 = arg1;
    last_arg2 = arg2;
    calls =
        if is_unknown (number_of number)
        then k.stats.calls
        else update k.stats.calls number (add64 (k.stats.calls number) 1);
  };
}

abbrev pub count_handled : {S : Type 0} → Kernel S → Kernel S
count_handled k = record k { stats = record k.stats { handled = add64 k.stats.handled 1 } }

abbrev pub count_rejected : {S : Type 0} → Kernel S → Kernel S
count_rejected k = record k { stats = record k.stats { rejected = add64 k.stats.rejected 1 } }

-- `if (result < 0) stats.rejected++; else stats.handled++;`
unfoldable pub count_result : {S : Type 0} → Kernel S × ℤ → Kernel S × ℤ
count_result (k, pos n) = (count_handled k, pos n)
count_result (k, negsuc n) = (count_rejected k, negsuc n)

unfoldable pub leave : {S : Type 0} → Kernel S × ℤ → Kernel S × ℤ
leave (k, result) = (record k { stats = record k.stats { last_result = result } }, result)

unfoldable pub monotonic_ms : {S : Type 0} → ℕ → Kernel S → Kernel S × ℤ
monotonic_ms interval k =
    let ms : ℕ = k.sched.scheduler_ticks * interval % word in
    (record k { stats = record k.stats { last_monotonic_ms = ms } }, to_long ms)

unfoldable pub random_call : {S : Type 0} → Kernel S × ℤ → Kernel S × ℤ
random_call (k, result) =
    (record k { stats = record k.stats { last_random = to_word result } }, result)

unfoldable pub terminate_call : {S : Type 0} → Kernel S → ℕ → ℕ → Kernel S × ℤ
terminate_call k pid code =
    let (sched, done) = scheduler_terminate_child k.sched (to_int pid) code in
    (record k { sched = sched }, if int_is done 0 then err_inval else pos 0)

-- `interval` is what `timer_get_interval_ms` returns.
module _ {S : Type 0} (fs : DiskFs S) (process : ProcessCalls S) (interval : ℕ) where
  unfoldable pub perform : SyscallNumber → Kernel S → ℕ → ℕ → ℕ → ℕ → Kernel S × ℤ
  perform write_number k a b c d = syscall_write fs k a b c
  perform exit_number k a b c d = (
    process.exit_call (count_handled (record k { stats = record k.stats { last_exit_code = a } }))
        a,
    pos 0,
  )
  perform yield_number k a b c d = (process.yield_call (count_handled k), pos 0)
  perform open_number k a b c d = syscall_open fs k a b false
  perform read_number k a b c d = syscall_read fs k a b c
  perform close_number k a b c d = syscall_close k a
  perform create_number k a b c d = syscall_open fs k a b true
  perform seek_number k a b c d = syscall_seek fs k a b
  perform wait_number k a b c d = syscall_wait process k a b c
  perform spawn_number k a b c d = syscall_spawn process k a b c d
  perform terminate_number k a b c d = terminate_call k a b
  perform sleep_number k a b c d = syscall_sleep process k a
  perform monotonic_ms_number k a b c d = monotonic_ms interval k
  perform getpid_number k a b c d = (k, syscall_getpid k)
  perform getppid_number k a b c d = (k, syscall_getppid k)
  perform system_info_number k a b c d = syscall_system_info k a
  perform random_number k a b c d = random_call (syscall_random k)
  perform process_status_number k a b c d = syscall_process_status k a b
  perform directory_list_number k a b c d = syscall_directory_list k a b
  perform mkdir_number k a b c d = syscall_mkdir k a b
  perform remove_number k a b c d = syscall_remove k a b
  perform rename_number k a b c d = syscall_rename k a b c d
  perform path_stat_number k a b c d = syscall_path_stat fs k a b c
  perform truncate_number k a b c d = syscall_truncate fs k a b c
  perform dup_number k a b c d = syscall_dup k a
  perform unknown_number k a b c d = (count_rejected k, negsuc 0)

  unfoldable pub settle : SyscallNumber → Kernel S × ℤ → Kernel S × ℤ
  settle n r = if counts_itself n then r else count_result r

  unfoldable pub syscall_dispatch : Kernel S → ℕ → ℕ → ℕ → ℕ → ℕ → Kernel S × ℤ
  syscall_dispatch k number a b c d =
      leave (settle (number_of number) (perform (number_of number) (enter k number a b c) a b c d))
