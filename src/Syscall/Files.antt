-- ===== src/Syscall/Files.antt =====
-- The system calls of syscall.c on file descriptors. The descriptors 3 to 6 are the entries of the
-- calling task's `files`.
use saturn_os.Prelude.{
  ℕ, zero, suc, ◌+◌, ◌-◌, Bool, true, false, not, ◌||◌, Option, none, some, List, [], ◌∷◌, ◌++◌,
  ltb, leb, ◌==◌, if◌then◌else◌, Array, update, find_first, add64, ℤ, pos, negsuc,
}
use saturn_os.Sched.Task.{TaskFile}
use saturn_os.Fs.Paths.{FilePath, drop, length}
use saturn_os.Fs.Disk.{DiskFs}
use saturn_os.Fs.Vfs.Files.{
  Vfs, copy_in, vfs_create, vfs_truncate, vfs_file_data, vfs_read, vfs_write,
}
use saturn_os.Syscall.{Kernel, fault, err_inval, read_name, set_files, caller, has_caller}
use saturn_os.Syscall.Paths.{can_read, can_write}

abbrev pub task_max_files : ℕ
task_max_files = 4

abbrev pub file_path_size : ℕ
file_path_size = 48

-- SYSCALL_WRITE_MAX and SYSCALL_READ_MAX
abbrev pub transfer_max : ℕ
transfer_max = 128

abbrev pub file_used : Array TaskFile → ℕ → Bool
file_used files i = (files i).used

-- The bytes before the first zero, which are copied before a name with a zero in it is refused.
unfoldable pub read_start : ℕ → Array ℕ → ℕ → FilePath
read_start zero memory address = []
read_start (suc n) memory address =
    let rest = read_start n memory (address + 1) in
    if memory address == 0 then [] else memory address ∷ rest

-- The bytes that `console_putc` is called with, in front of those before.
unfoldable pub print_bytes : ℕ → Array ℕ → ℕ → List ℕ → List ℕ
print_bytes zero memory address printed = printed
print_bytes (suc n) memory address printed =
    print_bytes n memory (address + 1) (memory address ∷ printed)

module _ {S : Type 0} where
  -- `!task || fd < 3 || fd >= 3 + TASK_MAX_FILES`
  abbrev pub bad_fd : Kernel S → ℕ → Bool
  bad_fd k fd = not (has_caller k) || ltb fd 3 || leb (3 + task_max_files) fd

  -- The descriptor is out of range, or not open.
  abbrev pub not_open : Kernel S → ℕ → Bool
  not_open k fd = bad_fd k fd || not (file_used (caller k).files (fd - 3))

  abbrev pub file_of : Kernel S → ℕ → TaskFile
  file_of k fd = (caller k).files (fd - 3)

  abbrev pub set_file : Kernel S → ℕ → TaskFile → Kernel S
  set_file k slot file = set_files k (update (caller k).files slot file)

  -- `task->files[slot].offset += result`
  unfoldable pub advance : Kernel S → ℕ → ℕ → Kernel S
  advance k fd n =
      set_file k (fd - 3) (record (file_of k fd) { offset = add64 (file_of k fd).offset n })

  abbrev pub user_bytes : Kernel S → ℕ → Array ℕ
  user_bytes k address = λ i. k.memory (address + i)

  unfoldable pub write_console : Kernel S → ℕ → ℕ → Kernel S × ℤ
  write_console k buffer size = (
    record k {
      console = print_bytes size k.memory buffer k.console;
      stats = record k.stats { write_bytes = add64 k.stats.write_bytes size };
    },
    pos size,
  )

  -- The end of `syscall_write`: what the result of `vfs_write` changes.
  unfoldable pub count_written : Kernel S → ℕ → ℤ → Kernel S × ℤ
  count_written k fd (negsuc n) = (k, err_inval)
  count_written k fd (pos zero) = (k, pos 0)
  count_written k fd (pos (suc n)) = (
    advance
        (record k {
          stats = record k.stats { file_write_bytes = add64 k.stats.file_write_bytes (suc n) };
        })
        fd (suc n),
    pos (suc n),
  )

  unfoldable pub syscall_close : Kernel S → ℕ → Kernel S × ℤ
  syscall_close k fd =
      if not_open k fd
      then (k, err_inval)
      else (set_file k (fd - 3) (record { used = false; path = []; offset = 0 }), pos 0)

  unfoldable pub free_file : Kernel S → Option ℕ
  free_file k = find_first (λ i. not (file_used (caller k).files i)) task_max_files 0

  unfoldable pub syscall_dup : Kernel S → ℕ → Kernel S × ℤ
  syscall_dup k fd = if not_open k fd then (k, err_inval) else elim (free_file k) [
    | none ↦ (k, err_inval)
    | some target ↦ (set_file k target (file_of k fd), pos (3 + target))
  ]

  -- The path of an entry that is not open.
  unfoldable pub set_path : Kernel S → ℕ → FilePath → Kernel S
  set_path k slot path = set_file k slot (record ((caller k).files slot) { path = path })

  -- The copy into the path stops at the zero byte; behind it is what was there before.
  unfoldable pub refuse_name : Kernel S → ℕ → ℕ → ℕ → Kernel S × ℤ
  refuse_name k slot address size =
      let start : FilePath = read_start size k.memory address in
      (set_path k slot (start ++ drop (length start) ((caller k).files slot).path), err_inval)

  module _ (fs : DiskFs S) where
    unfoldable pub write_file : Kernel S → ℕ → ℕ → ℕ → Kernel S × ℤ
    write_file k fd buffer size =
        if not_open k fd
        then (k, err_inval)
        else let (files, r) =
            vfs_write fs k.files (file_of k fd).path (file_of k fd).offset
              (some (user_bytes k buffer)) size in
          count_written (record k { files = files }) fd r

    unfoldable pub syscall_write : Kernel S → ℕ → ℕ → ℕ → Kernel S × ℤ
    syscall_write k fd buffer size =
        if size == 0
        then (k, pos 0)
        else if ltb transfer_max size
        then (k, err_inval)
        else if not (can_read k buffer size)
        then fault k
        else if (fd == 1) || (fd == 2)
        then write_console k buffer size
        else write_file k fd buffer size

    -- The bytes that were read are stored, and the offset moves behind them.
    unfoldable pub give_bytes : Kernel S → ℕ → ℕ → ℕ → ℕ × Array ℕ → Kernel S × ℤ
    give_bytes k fd buffer size (count, bytes) =
        let k' : Kernel S = record k { memory = copy_in k.memory buffer bytes size } in
        if count == 0 then (k', pos count) else (advance k' fd count, pos count)

    unfoldable pub read_file : Kernel S → ℕ → ℕ → ℕ → Kernel S × ℤ
    read_file k fd buffer size =
        let (files, r) =
          vfs_read fs k.files (file_of k fd).path (file_of k fd).offset (some (user_bytes k buffer))
            size in
        elim r [
          | none ↦ (record k { files = files }, err_inval)
          | some got ↦ give_bytes (record k { files = files }) fd buffer size got
        ]

    unfoldable pub syscall_read : Kernel S → ℕ → ℕ → ℕ → Kernel S × ℤ
    syscall_read k fd buffer size =
        if bad_fd k fd || ltb transfer_max size
        then (k, err_inval)
        else if size == 0
        then (k, pos 0)
        else if not (can_write k buffer size)
        then fault k
        else if not (file_used (caller k).files (fd - 3))
        then (k, err_inval)
        else read_file k fd buffer size

    -- `vfs_file_data` of the descriptor's path, and the check of the offset.
    unfoldable pub seek_to : Kernel S → ℕ → ℕ → Kernel S × ℤ
    seek_to k fd offset =
        let (files, r) = vfs_file_data fs k.files (file_of k fd).path in
        elim r [
          | none ↦ (record k { files = files }, err_inval)
          | some (size, bytes) ↦
              if ltb size offset then (record k { files = files }, err_inval) else (
                set_file (record k { files = files }) (fd - 3)
                    (record (file_of k fd) { offset = offset }),
                pos offset,
              )
        ]

    unfoldable pub syscall_seek : Kernel S → ℕ → ℕ → Kernel S × ℤ
    syscall_seek k fd offset = if not_open k fd then (k, err_inval) else seek_to k fd offset

    -- `!create || vfs_create(path, 0, 0) || vfs_truncate(path, 0)`
    unfoldable pub make_file : Vfs S → FilePath → Bool → Vfs S × Bool
    make_file w path false = (w, true)
    make_file w path true =
        let (w', made) = vfs_create fs w path none 0 in
        if made then (w', true) else vfs_truncate fs w' path 0

    -- The end of `syscall_open`, once the path is in the entry.
    unfoldable pub open_path : Kernel S → ℕ → FilePath → Bool → Kernel S × ℤ
    open_path k slot path create =
        let (w, made) = make_file k.files path create in
        if not made
        then (set_path (record k { files = w }) slot [], err_inval)
        else let (w', r) = vfs_file_data fs w path in
          elim r [
            | none ↦ (set_path (record k { files = w' }) slot [], err_inval)
            | some data_and_size ↦ (
              set_file (record k { files = w' }) slot
                  (record { used = true; path = path; offset = 0 }),
              pos (3 + slot),
            )
          ]

    unfoldable pub open_slot : Kernel S → ℕ → ℕ → Bool → ℕ → Kernel S × ℤ
    open_slot k address size create slot = elim (read_name size k.memory address) [
      | none ↦ refuse_name k slot address size
      | some path ↦ open_path k slot path create
    ]

    unfoldable pub syscall_open : Kernel S → ℕ → ℕ → Bool → Kernel S × ℤ
    syscall_open k address size create =
        if not (has_caller k)
          || (size == 0)
          || leb file_path_size size
          || not (can_read k address size)
        then fault k
        else elim (free_file k) [
          | none ↦ (k, err_inval)
          | some slot ↦ open_slot k address size create slot
        ]
