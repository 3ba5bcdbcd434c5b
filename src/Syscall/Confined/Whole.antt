-- ===== src/Syscall/Confined/Whole.antt =====
-- `syscall_dispatch` of syscall.c as a whole.
use saturn_os.Prelude.{
  ℕ, ◌+◌, ◌%◌, ◌<◌, ◌≡◌, refl, sym, subst, Bool, true, false, arith, inl, inr, ◌⊎◌, word, ℤ, pos,
  negsuc,
}
use saturn_os.Sched.Invariant.{WellFormed}
use saturn_os.Memory.Space.Ranges.{Writable}
use saturn_os.Fs.Disk.{DiskFs}
use saturn_os.Syscall.{Kernel, syscall_address_space}
use saturn_os.Syscall.Dispatch.{
  SyscallNumber, write_number, exit_number, yield_number, open_number, read_number, close_number,
  create_number, seek_number, wait_number, spawn_number, terminate_number, sleep_number,
  monotonic_ms_number, getpid_number, getppid_number, system_info_number, random_number,
  process_status_number, directory_list_number, mkdir_number, remove_number, rename_number,
  path_stat_number, truncate_number, dup_number, unknown_number, number_of, counts_itself, enter,
  count_rejected, count_result, leave, perform, settle, syscall_dispatch,
}
use saturn_os.Syscall.Process.{ProcessCalls}
use saturn_os.Syscall.Confined.{Confined, same-Confined}
use saturn_os.Syscall.Confined.Calls.{
  syscall_mkdir-Confined, syscall_remove-Confined, syscall_rename-Confined,
  syscall_directory_list-Confined, syscall_system_info-Confined, syscall_process_status-Confined,
  syscall_random-Confined, monotonic_ms-Confined, terminate_call-Confined,
  syscall_path_stat-Confined, syscall_truncate-Confined,
}
use saturn_os.Syscall.Confined.Files.{
  syscall_write-Confined, syscall_read-Confined, syscall_open-Confined, syscall_close-Confined,
  syscall_seek-Confined, syscall_dup-Confined,
}

-- The calls in which other tasks run, or which end the caller.
abbrev pub hands_over : SyscallNumber → Bool
hands_over exit_number = true
hands_over yield_number = true
hands_over wait_number = true
hands_over spawn_number = true
hands_over sleep_number = true
hands_over _ = false

counted_or_unknown :
    (n : SyscallNumber) → hands_over n ≡ false → (counts_itself n ≡ false) ⊎ (n ≡ unknown_number)
counted_or_unknown n h = ground arith

module _ {S : Type 0} (fs : DiskFs S) (process : ProcessCalls S) (interval : ℕ) where
  -- All other known numbers.
  perform-Confined :
      (n : SyscallNumber) (k : Kernel S) (a b c d : ℕ)
      → a < word
      → b < word
      → c < word
      → hands_over n ≡ false
      → counts_itself n ≡ false
      → Confined k (perform fs process interval n k a b c d).0
  unfolding perform
  perform-Confined write_number k a b c d ha hb hc h o = syscall_write-Confined fs k a b c
  perform-Confined exit_number k a b c d ha hb hc h o = absurd (ground arith)
  perform-Confined yield_number k a b c d ha hb hc h o = absurd (ground arith)
  perform-Confined open_number k a b c d ha hb hc h o = syscall_open-Confined fs k a b false
  perform-Confined read_number k a b c d ha hb hc h o = syscall_read-Confined fs k a b c hb
  perform-Confined close_number k a b c d ha hb hc h o = syscall_close-Confined k a
  perform-Confined create_number k a b c d ha hb hc h o = syscall_open-Confined fs k a b true
  perform-Confined seek_number k a b c d ha hb hc h o = syscall_seek-Confined fs k a b
  perform-Confined wait_number k a b c d ha hb hc h o = absurd (ground arith)
  perform-Confined spawn_number k a b c d ha hb hc h o = absurd (ground arith)
  perform-Confined terminate_number k a b c d ha hb hc h o = terminate_call-Confined k a b
  perform-Confined sleep_number k a b c d ha hb hc h o = absurd (ground arith)
  perform-Confined monotonic_ms_number k a b c d ha hb hc h o = monotonic_ms-Confined interval k
  perform-Confined getpid_number k a b c d ha hb hc h o = same-Confined k
  perform-Confined getppid_number k a b c d ha hb hc h o = same-Confined k
  perform-Confined system_info_number k a b c d ha hb hc h o = syscall_system_info-Confined k a ha
  perform-Confined random_number k a b c d ha hb hc h o = syscall_random-Confined k
  perform-Confined process_status_number k a b c d ha hb hc h o =
      syscall_process_status-Confined k a b hb
  perform-Confined directory_list_number k a b c d ha hb hc h o =
      syscall_directory_list-Confined k a b hb
  perform-Confined mkdir_number k a b c d ha hb hc h o = syscall_mkdir-Confined k a b
  perform-Confined remove_number k a b c d ha hb hc h o = syscall_remove-Confined k a b
  perform-Confined rename_number k a b c d ha hb hc h o = syscall_rename-Confined k a b c d
  perform-Confined path_stat_number k a b c d ha hb hc h o =
      syscall_path_stat-Confined fs k a b c hc
  perform-Confined truncate_number k a b c d ha hb hc h o = syscall_truncate-Confined fs k a b c
  perform-Confined dup_number k a b c d ha hb hc h o = syscall_dup-Confined k a
  perform-Confined unknown_number k a b c d ha hb hc h o = absurd (ground arith)

  -- The number of handled and of rejected calls, and that of all of them.
  abbrev pub Counts : Kernel S → Type 0
  Counts k = (k.stats.handled + k.stats.rejected) % word ≡ k.stats.total % word

  -- What a call leaves of the memory, the tasks and the counts.
  abbrev pub Safe : Kernel S → Kernel S → Type 0
  Safe k k' =
      ((x : ℕ) → Writable (syscall_address_space k.sched) x ⊎ (k'.memory x ≡ k.memory x))
      × (WellFormed k.sched → WellFormed k'.sched)
      × (Counts k → Counts k')

  counted-Safe :
      (k k' : Kernel S) (number a b c : ℕ) (result : ℤ)
      → Confined (enter k number a b c) k'
      → Safe k (leave (count_result (k', result))).0
  unfolding enter leave count_result
  counted-Safe k k' number a b c (pos n) f =
      (f.bytes, f.tasks, λ h. ground (arith, f.total, f.handled, f.rejected))
  counted-Safe k k' number a b c (negsuc n) f =
      (f.bytes, f.tasks, λ h. ground (arith, f.total, f.handled, f.rejected))

  unknown-Safe :
      (k : Kernel S) (number a b c : ℕ)
      → Safe k (leave (count_rejected (enter k number a b c), negsuc 0)).0
  unfolding enter leave
  unknown-Safe k number a b c = ((λ x. inr refl), (λ w. w), (λ h. ground arith))

  -- A dispatch of 64-bit arguments to any call but `exit`, `yield`, `wait`, `spawn` and `sleep` changes
  -- no byte of memory that the caller may not write, keeps the scheduler well formed, and keeps the
  -- number of calls the sum of those handled and those rejected, as 64-bit counters.
  pub syscall_dispatch-Safe :
      (k : Kernel S) (number a b c d : ℕ)
      → a < word
      → b < word
      → c < word
      → hands_over (number_of number) ≡ false
      → Safe k (syscall_dispatch fs process interval k number a b c d).0
  unfolding syscall_dispatch settle perform
  syscall_dispatch-Safe k number a b c d ha hb hc h = go (number_of number) h
    where
      go :
          (n : SyscallNumber)
          → hands_over n ≡ false
          → Safe k
              (leave (
                settle fs process interval n
                  (perform fs process interval n (enter k number a b c) a b c d))).0
      go n h = elim (counted_or_unknown n h) [
        | inl o ↦
            let r : Kernel S × ℤ = perform fs process interval n (enter k number a b c) a b c d in
            rw (settle, o)
              (counted-Safe k r.0 number a b c r.1
                (perform-Confined n (enter k number a b c) a b c d ha hb hc h o))
        | inr unknown ↦
            subst
              (λ m.
                Safe k
                  (leave (
                    settle fs process interval m
                      (perform fs process interval m (enter k number a b c) a b c d))).0)
              (sym unknown) (unknown-Safe k number a b c)
      ]
