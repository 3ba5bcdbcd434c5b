-- ===== src/Syscall/Paths.antt =====
-- The system calls of syscall.c that take the path of a file or a directory.
use saturn_os.Prelude.{
  ℕ, zero, suc, ◌+◌, Bool, true, false, not, ◌&&◌, ◌||◌, none, some, [], ◌∷◌, ltb, leb, ◌==◌,
  if◌then◌else◌, Array, ℤ, pos,
}
use saturn_os.Memory.Space.{address_space_user_range_valid, address_space_user_writable_range_valid}
use saturn_os.Fs.Paths.{FilePath, max_path}
use saturn_os.Fs.Disk.{DiskFs}
use saturn_os.Fs.Vfs.{Entry, Ramfs, vfs_mkdir, vfs_remove, vfs_rename, vfs_list, max_file_size}
use saturn_os.Fs.Vfs.Files.{copy_in, vfs_stat, vfs_truncate}
use saturn_os.Syscall.{
  Kernel, fault, err_inval, ok_or_inval, syscall_address_space, read_name, store_words,
}

-- The bytes of `entry.path`, with zeros behind the path.
unfoldable pub entry_bytes : FilePath → Array ℕ
entry_bytes [] i = 0
entry_bytes (c ∷ cs) zero = c
entry_bytes (c ∷ cs) (suc i) = entry_bytes cs i

abbrev pub entry_kind : Bool → ℕ
entry_kind is_dir = if is_dir then 2 else 1

abbrev pub entry_size : ℕ
entry_size = 64

-- The stores of a `struct syscall_directory_entry`.
unfoldable pub store_entry : Array ℕ → ℕ → Entry → Array ℕ
store_entry memory address e =
    store_words (copy_in memory address (entry_bytes e.path) max_path) (address + max_path)
      (e.size ∷ entry_kind e.is_dir ∷ [])

-- `!length || length >= sizeof(path)`
abbrev pub bad_length : ℕ → Bool
bad_length length = (length == 0) || leb max_path length

module _ {S : Type 0} where
  abbrev pub can_read : Kernel S → ℕ → ℕ → Bool
  can_read k address size =
      address_space_user_range_valid (syscall_address_space k.sched) address size

  abbrev pub can_write : Kernel S → ℕ → ℕ → Bool
  can_write k address size =
      address_space_user_writable_range_valid (syscall_address_space k.sched) address size

  -- What the calls with one path share: `refused` and `allowed` are the conditions of their own, and
  -- `run` is what they do with the path.
  unfoldable pub with_path :
      Kernel S → ℕ → ℕ → Bool → Bool → (FilePath → Kernel S × ℤ) → Kernel S × ℤ
  with_path k address length refused allowed run =
      if bad_length length || refused
      then (k, err_inval)
      else if not (can_read k address length && allowed)
      then fault k
      else elim (read_name length k.memory address) [ none ↦ (k, err_inval) | some path ↦ run path ]

  -- An operation that changes the RAM file system.
  unfoldable pub run_ram : Kernel S → Ramfs × Bool → Kernel S × ℤ
  run_ram k (ram, done) = (record k { files = record k.files { ram = ram } }, ok_or_inval done)

  unfoldable pub syscall_mkdir : Kernel S → ℕ → ℕ → Kernel S × ℤ
  syscall_mkdir k address length =
      with_path k address length false true (λ path. run_ram k (vfs_mkdir k.files.ram path))

  unfoldable pub syscall_remove : Kernel S → ℕ → ℕ → Kernel S × ℤ
  syscall_remove k address length =
      with_path k address length false true (λ path. run_ram k (vfs_remove k.files.ram path))

  unfoldable pub syscall_rename : Kernel S → ℕ → ℕ → ℕ → ℕ → Kernel S × ℤ
  syscall_rename k old_address old_length new_address new_length =
      if bad_length old_length || bad_length new_length
      then (k, err_inval)
      else if not (can_read k old_address old_length && can_read k new_address new_length)
      then fault k
      else elim (read_name old_length k.memory old_address) [
        | none ↦ (k, err_inval)
        | some old ↦ elim (read_name new_length k.memory new_address) [
          | none ↦ (k, err_inval)
          | some new ↦ run_ram k (vfs_rename k.files.ram old new)
        ]
      ]

  -- An entry that was found is written to the user's memory, with the result of the call.
  unfoldable pub give_entry : Kernel S → ℕ → ℕ → Entry → Kernel S × ℤ
  give_entry k output result e = (record k { memory = store_entry k.memory output e }, pos result)

  unfoldable pub syscall_directory_list : Kernel S → ℕ → ℕ → Kernel S × ℤ
  syscall_directory_list k index output =
      if not (can_write k output entry_size) then fault k else elim (vfs_list k.files.ram index) [
        | none ↦ (k, pos 0)
        | some e ↦ give_entry k output 1 e
      ]

  module _ (fs : DiskFs S) where
    unfoldable pub stat_path : Kernel S → ℕ → FilePath → Kernel S × ℤ
    stat_path k output path =
        let (files, r) = vfs_stat fs k.files path in
        elim r [
          | none ↦ (record k { files = files }, err_inval)
          | some e ↦ give_entry (record k { files = files }) output 0 e
        ]

    unfoldable pub syscall_path_stat : Kernel S → ℕ → ℕ → ℕ → Kernel S × ℤ
    syscall_path_stat k address length output =
        with_path k address length false (can_write k output entry_size) (stat_path k output)

    unfoldable pub truncate_path : Kernel S → ℕ → FilePath → Kernel S × ℤ
    truncate_path k size path =
        let (files, done) = vfs_truncate fs k.files path size in
        (record k { files = files }, ok_or_inval done)

    unfoldable pub syscall_truncate : Kernel S → ℕ → ℕ → ℕ → Kernel S × ℤ
    syscall_truncate k address length size =
        with_path k address length (ltb max_file_size size) true (truncate_path k size)
