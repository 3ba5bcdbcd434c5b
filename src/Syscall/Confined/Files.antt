-- ===== src/Syscall/Confined/Files.antt =====
-- The system calls of syscall.c on file descriptors.
use saturn_os.Prelude.{
  ℕ, zero, suc, ◌-◌, ◌<◌, ◌≡◌, refl, Bool, true, not, ◌||◌, some, ltb, leb, ◌==◌, arith, inr, Array,
  add64, word, ℤ, pos, negsuc,
}
use saturn_os.Fs.Paths.{FilePath}
use saturn_os.Fs.Disk.{DiskFs}
use saturn_os.Fs.Vfs.Files.{Vfs, copy_in, vfs_read, vfs_file_data}
use saturn_os.Syscall.{Kernel, read_name, caller, has_caller}
use saturn_os.Syscall.Paths.{can_write, can_read}
use saturn_os.Syscall.Files.{
  transfer_max, bad_fd, not_open, file_of, set_path, advance, user_bytes, write_console,
  count_written, syscall_close, free_file, syscall_dup, refuse_name, write_file, syscall_write,
  give_bytes, read_file, syscall_read, seek_to, syscall_seek, make_file, open_path, open_slot,
  syscall_open, file_used, file_path_size,
}
use saturn_os.Syscall.Confined.{
  Confined, same-Confined, fault-Confined, files-Confined, set_files-Confined, store-Confined,
  if-Confined, found-Confined, then-Confined, copy_in_outside,
}

module _ {S : Type 0} where
  advance-Confined : (k : Kernel S) (fd n : ℕ) → Confined k (advance k fd n)
  unfolding advance
  advance-Confined k fd n = set_files-Confined k _

  pub syscall_close-Confined : (k : Kernel S) (fd : ℕ) → Confined k (syscall_close k fd).0
  unfolding syscall_close
  syscall_close-Confined k fd =
      if-Confined k (not_open k fd) _ _ (λ e. same-Confined k) (λ e. set_files-Confined k _)

  pub syscall_dup-Confined : (k : Kernel S) (fd : ℕ) → Confined k (syscall_dup k fd).0
  unfolding syscall_dup
  syscall_dup-Confined k fd =
      if-Confined k (not_open k fd) _ _ (λ e. same-Confined k)
        (λ e. found-Confined k (free_file k) _ _ (same-Confined k) (λ t _. set_files-Confined k _))

  write_console-Confined :
      (k : Kernel S) (buffer size : ℕ) → Confined k (write_console k buffer size).0
  unfolding write_console
  write_console-Confined k buffer size = record {
    bytes = λ a. inr refl;
    total = refl;
    handled = refl;
    rejected = refl;
    tasks = λ w. w;
  }

  -- A change of the counts of bytes before another change.
  counted-Confined :
      (k k' : Kernel S) (n : ℕ)
      → Confined (record k { stats = record k.stats { file_write_bytes = n } }) k'
      → Confined k k'
  counted-Confined k k' n c = record {
    bytes = c.bytes;
    total = c.total;
    handled = c.handled;
    rejected = c.rejected;
    tasks = c.tasks;
  }

  count_written-Confined : (k : Kernel S) (fd : ℕ) (r : ℤ) → Confined k (count_written k fd r).0
  unfolding count_written
  count_written-Confined k fd (negsuc n) = same-Confined k
  count_written-Confined k fd (pos zero) = same-Confined k
  count_written-Confined k fd (pos (suc n)) =
      counted-Confined k _ (add64 k.stats.file_write_bytes (suc n)) (advance-Confined _ fd (suc n))

  module _ (fs : DiskFs S) where
    write_file-Confined :
        (k : Kernel S) (fd buffer size : ℕ) → Confined k (write_file fs k fd buffer size).0
    unfolding write_file
    write_file-Confined k fd buffer size =
        if-Confined k (not_open k fd) _ _ (λ e. same-Confined k)
          (λ e. files-Confined k _ _ (count_written-Confined _ fd _))

    pub syscall_write-Confined :
        (k : Kernel S) (fd buffer size : ℕ) → Confined k (syscall_write fs k fd buffer size).0
    unfolding syscall_write
    syscall_write-Confined k fd buffer size =
        if-Confined k (size == 0) _ _ (λ e. same-Confined k)
          (λ e.
            if-Confined k (ltb transfer_max size) _ _ (λ e. same-Confined k)
              (λ e.
                if-Confined k (not (can_read k buffer size)) _ _ (λ e. fault-Confined k)
                  (λ e.
                    if-Confined k ((fd == 1) || (fd == 2)) _ _
                      (λ e. write_console-Confined k buffer size)
                      (λ e. write_file-Confined k fd buffer size))))

    seek_to-Confined : (k : Kernel S) (fd offset : ℕ) → Confined k (seek_to fs k fd offset).0
    unfolding seek_to
    seek_to-Confined k fd offset =
        found-Confined k (vfs_file_data fs k.files (file_of k fd).path).1 _ _
          (files-Confined k _ _ (same-Confined _))
          (λ (size, bytes) _.
            if-Confined k (ltb size offset) _ _ (λ e. files-Confined k _ _ (same-Confined _))
              (λ e. files-Confined k _ _ (set_files-Confined _ _)))

    pub syscall_seek-Confined :
        (k : Kernel S) (fd offset : ℕ) → Confined k (syscall_seek fs k fd offset).0
    unfolding syscall_seek
    syscall_seek-Confined k fd offset =
        if-Confined k (not_open k fd) _ _ (λ e. same-Confined k) (λ e. seek_to-Confined k fd offset)

    give_bytes-Confined :
        (k : Kernel S) (fd buffer size : ℕ) (got : ℕ × Array ℕ)
        → buffer < word
        → size < word
        → can_write k buffer size ≡ true
        → Confined k (give_bytes fs k fd buffer size got).0
    unfolding give_bytes
    give_bytes-Confined k fd buffer size (count, bytes) fits short ok =
        let k' : Kernel S = record k { memory = copy_in k.memory buffer bytes size } in
        let stored : Confined k k' =
          store-Confined k (copy_in k.memory buffer bytes size) buffer size fits short ok
            (λ j h. copy_in_outside k.memory buffer bytes size j h) in
        then-Confined k k' _ refl stored (
          if-Confined k' (count == 0) (k', pos count) (advance k' fd count, pos count)
            (λ e. same-Confined k') (λ e. advance-Confined k' fd count))

    read_file-Confined :
        (k : Kernel S) (fd buffer size : ℕ)
        → buffer < word
        → size < word
        → can_write k buffer size ≡ true
        → Confined k (read_file fs k fd buffer size).0
    unfolding read_file
    read_file-Confined k fd buffer size fits short ok =
        found-Confined k
          (vfs_read fs k.files (file_of k fd).path (file_of k fd).offset
            (some (user_bytes k buffer)) size).1
          _ _ (files-Confined k _ _ (same-Confined _))
          (λ got _. files-Confined k _ _ (give_bytes-Confined _ fd buffer size got fits short ok))

    pub syscall_read-Confined :
        (k : Kernel S) (fd buffer size : ℕ)
        → buffer < word
        → Confined k (syscall_read fs k fd buffer size).0
    unfolding syscall_read
    syscall_read-Confined k fd buffer size fits =
        if-Confined k (bad_fd k fd || ltb transfer_max size) _ _ (λ e. same-Confined k)
          (λ small.
            if-Confined k (size == 0) _ _ (λ e. same-Confined k)
              (λ e.
                if-Confined k (not (can_write k buffer size)) _ _ (λ e. fault-Confined k)
                  (λ ok.
                    if-Confined k (not (file_used (caller k).files (fd - 3))) _ _
                      (λ e. same-Confined k)
                      (λ e.
                        read_file-Confined k fd buffer size fits (ground arith) (ground arith)))))

    open_path-Confined :
        (k : Kernel S) (slot : ℕ) (path : FilePath) (create : Bool)
        → Confined k (open_path fs k slot path create).0
    unfolding open_path set_path
    open_path-Confined k slot path create =
        let w : Vfs S = (make_file fs k.files path create).0 in
        if-Confined k (not (make_file fs k.files path create).1) _ _
          (λ e. files-Confined k _ _ (set_files-Confined _ _))
          (λ e.
            found-Confined k (vfs_file_data fs w path).1 _ _
              (files-Confined k _ _ (set_files-Confined _ _))
              (λ found _. files-Confined k _ _ (set_files-Confined _ _)))

    open_slot-Confined :
        (k : Kernel S) (a size : ℕ) (create : Bool) (slot : ℕ)
        → Confined k (open_slot fs k a size create slot).0
    unfolding open_slot refuse_name set_path
    open_slot-Confined k a size create slot =
        found-Confined k (read_name size k.memory a) _ _ (set_files-Confined k _)
          (λ path _. open_path-Confined k slot path create)

    pub syscall_open-Confined :
        (k : Kernel S) (a size : ℕ) (create : Bool) → Confined k (syscall_open fs k a size create).0
    unfolding syscall_open
    syscall_open-Confined k a size create =
        if-Confined k
          (not (has_caller k) || (size == 0) || leb file_path_size size || not (can_read k a size))
          _ _ (λ e. fault-Confined k)
          (λ e.
            found-Confined k (free_file k) _ _ (same-Confined k)
              (λ slot _. open_slot-Confined k a size create slot))
