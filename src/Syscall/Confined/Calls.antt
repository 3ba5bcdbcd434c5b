-- ===== src/Syscall/Confined/Calls.antt =====
-- Each of the system calls of syscall.c that run to their end without other tasks.
use saturn_os.Prelude.{
  ℕ, ◌*◌, ◌<◌, ◌≡◌, refl, true, false, not, ◌&&◌, ◌||◌, List, ltb, leb, arith, inr, word,
}
use saturn_os.Sched.Invariant.Calls.{scheduler_terminate_child-WellFormed}
use saturn_os.Sched.Control.{scheduler_task_by_pid}
use saturn_os.Fs.Paths.{FilePath}
use saturn_os.Fs.Disk.{DiskFs}
use saturn_os.Fs.Vfs.{vfs_mkdir, vfs_remove, vfs_rename, vfs_list, max_file_size}
use saturn_os.Fs.Vfs.Files.{vfs_stat}
use saturn_os.Syscall.{Kernel, read_name}
use saturn_os.Syscall.Paths.{
  can_write, can_read, bad_length, entry_size, syscall_mkdir, syscall_remove, syscall_rename,
  syscall_directory_list, stat_path, syscall_path_stat, truncate_path, syscall_truncate,
}
use saturn_os.Syscall.Info.{
  info_size, info_words, status_words, give_words, syscall_system_info, syscall_random, may_ask,
  give_status, syscall_process_status,
}
use saturn_os.Syscall.Dispatch.{terminate_call, monotonic_ms, random_call}
use saturn_os.Syscall.Process.{to_int}
use saturn_os.Syscall.Confined.{
  Confined, same-Confined, fault-Confined, files-Confined, store-Confined, run_ram-Confined,
  give_entry-Confined, with_path-Confined, if-Confined, found-Confined, store_words_outside,
  word_count,
}

module _ {S : Type 0} where
  pub syscall_mkdir-Confined : (k : Kernel S) (a l : ℕ) → Confined k (syscall_mkdir k a l).0
  unfolding syscall_mkdir
  syscall_mkdir-Confined k a l =
      with_path-Confined k a l false true _
        (λ e path. run_ram-Confined k (vfs_mkdir k.files.ram path))

  pub syscall_remove-Confined : (k : Kernel S) (a l : ℕ) → Confined k (syscall_remove k a l).0
  unfolding syscall_remove
  syscall_remove-Confined k a l =
      with_path-Confined k a l false true _
        (λ e path. run_ram-Confined k (vfs_remove k.files.ram path))

  pub syscall_rename-Confined :
      (k : Kernel S) (a l b m : ℕ) → Confined k (syscall_rename k a l b m).0
  unfolding syscall_rename
  syscall_rename-Confined k a l b m =
      if-Confined k (bad_length l || bad_length m) _ _ (λ e. same-Confined k)
        (λ e.
          if-Confined k (not (can_read k a l && can_read k b m)) _ _ (λ e. fault-Confined k)
            (λ e. found-Confined k (read_name l k.memory a) _ _ (same-Confined k) (λ old e.
              found-Confined k (read_name m k.memory b) _ _ (same-Confined k)
                (λ new e. run_ram-Confined k (vfs_rename k.files.ram old new)))))

  pub syscall_directory_list-Confined :
      (k : Kernel S) (index output : ℕ)
      → output < word
      → Confined k (syscall_directory_list k index output).0
  unfolding syscall_directory_list
  syscall_directory_list-Confined k index output fits =
      if-Confined k (not (can_write k output entry_size)) _ _ (λ e. fault-Confined k)
        (λ e.
          found-Confined k (vfs_list k.files.ram index) _ _ (same-Confined k)
            (λ entry _. give_entry-Confined k output 1 entry fits (ground arith)))

  pub give_words-Confined :
      (k : Kernel S) (address : ℕ) (words : List ℕ)
      → address < word
      → 8 * word_count words ≡ info_size
      → can_write k address info_size ≡ true
      → Confined k (give_words k address words).0
  unfolding give_words
  give_words-Confined k address words fits size ok =
      store-Confined k _ address info_size fits (omega arith) ok
        (λ j h. store_words_outside k.memory address words j (ground (arith, size)))

  pub syscall_system_info-Confined :
      (k : Kernel S) (address : ℕ) → address < word → Confined k (syscall_system_info k address).0
  unfolding syscall_system_info info_words word_count
  syscall_system_info-Confined k address fits =
      if-Confined k (not (can_write k address info_size)) _ _ (λ e. fault-Confined k)
        (λ e. give_words-Confined k address (info_words k) fits refl (ground arith))

  give_status-Confined :
      (k : Kernel S) (address i : ℕ)
      → address < word
      → can_write k address info_size ≡ true
      → Confined k (give_status k address i).0
  unfolding give_status status_words word_count
  give_status-Confined k address i fits ok =
      if-Confined k (not (may_ask k (k.sched.tasks i))) _ _ (λ e. same-Confined k)
        (λ e. give_words-Confined k address (status_words (k.sched.tasks i)) fits refl ok)

  pub syscall_process_status-Confined :
      (k : Kernel S) (pid address : ℕ)
      → address < word
      → Confined k (syscall_process_status k pid address).0
  unfolding syscall_process_status
  syscall_process_status-Confined k pid address fits =
      if-Confined k (not (can_write k address info_size)) _ _ (λ e. fault-Confined k)
        (λ ok.
          if-Confined k (leb _ pid) _ _ (λ e. same-Confined k)
            (λ e.
              found-Confined k (scheduler_task_by_pid k.sched _) _ _ (same-Confined k)
                (λ i _. give_status-Confined k address i fits (ground arith))))

  pub syscall_random-Confined : (k : Kernel S) → Confined k (random_call (syscall_random k)).0
  unfolding syscall_random random_call
  syscall_random-Confined k = record {
    bytes = λ a. inr refl;
    total = refl;
    handled = refl;
    rejected = refl;
    tasks = λ w. w;
  }

  pub monotonic_ms-Confined : (interval : ℕ) (k : Kernel S) → Confined k (monotonic_ms interval k).0
  unfolding monotonic_ms
  monotonic_ms-Confined interval k = record {
    bytes = λ a. inr refl;
    total = refl;
    handled = refl;
    rejected = refl;
    tasks = λ w. w;
  }

  pub terminate_call-Confined :
      (k : Kernel S) (pid code : ℕ) → Confined k (terminate_call k pid code).0
  unfolding terminate_call
  terminate_call-Confined k pid code = record {
    bytes = λ a. inr refl;
    total = refl;
    handled = refl;
    rejected = refl;
    tasks = λ w. scheduler_terminate_child-WellFormed k.sched (to_int pid) code w;
  }

  module _ (fs : DiskFs S) where
    stat_path-Confined :
        (k : Kernel S) (output : ℕ) (path : FilePath)
        → output < word
        → can_write k output entry_size ≡ true
        → Confined k (stat_path fs k output path).0
    unfolding stat_path
    stat_path-Confined k output path fits ok =
        found-Confined k (vfs_stat fs k.files path).1 _ _ (files-Confined k _ _ (same-Confined _))
          (λ entry _. files-Confined k _ _ (give_entry-Confined _ output 0 entry fits ok))

    pub syscall_path_stat-Confined :
        (k : Kernel S) (a l output : ℕ)
        → output < word
        → Confined k (syscall_path_stat fs k a l output).0
    unfolding syscall_path_stat
    syscall_path_stat-Confined k a l output fits =
        with_path-Confined k a l false (can_write k output entry_size) _
          (λ ok path. stat_path-Confined k output path fits ok)

    pub syscall_truncate-Confined :
        (k : Kernel S) (a l size : ℕ) → Confined k (syscall_truncate fs k a l size).0
    unfolding syscall_truncate truncate_path
    syscall_truncate-Confined k a l size =
        with_path-Confined k a l (ltb max_file_size size) true _
          (λ e path. files-Confined k _ _ (same-Confined _))
