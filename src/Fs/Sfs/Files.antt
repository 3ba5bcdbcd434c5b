-- ===== src/Fs/Sfs/Files.antt =====
-- `sfs_write_file` and `sfs_read_file` of kernel/fs/sfs.c.
use saturn_os.Prelude.{
  ℕ, ◌%◌, ◌^◌, Bool, false, not, ◌||◌, Option, none, some, ltb, ◌==◌, if◌then◌else◌, Array, update,
}
use saturn_os.Storage.Block.{VirtioBlk, block_read, block_write}
use saturn_os.Fs.Paths.{FilePath}
use saturn_os.Fs.Disk.{Buffer, DiskFs, is_null}
use saturn_os.Fs.Sfs.{
  SfsEntry, Sfs, file_sectors, sfs_max_file_size, sfs_path_valid, sfs_checksum, find_entry,
  entry_for, copy_path, buffer_bytes, buffer_missing, filled,
}
use saturn_os.Fs.Sfs.Format.{write_directory}

-- The entry of a file that was written.
unfoldable pub written_entry : SfsEntry → FilePath → Buffer → ℕ → SfsEntry
written_entry e path b size = record e {
  path = copy_path e.path path;
  size = size % 2 ^ 32;
  checksum = sfs_checksum (buffer_bytes b) size;
  flags = 1;
}

-- What the caller's buffer holds once the file is in `io_buffer`, if its checksum is right.
unfoldable pub check_read : SfsEntry → Array ℕ → Array ℕ → Option (ℕ × Array ℕ)
check_read e io target =
    if not (sfs_checksum io e.size == e.checksum)
    then none
    else some (e.size, λ i. if ltb i e.size then io i else target i)

module _ {V : Type 0} (dev : VirtioBlk V) where
  unfoldable pub write_entry : Sfs V → ℕ → FilePath → Buffer → ℕ → Sfs V × Bool
  write_entry s i path b size =
      let e : SfsEntry = s.directory.entries i in
      let io : Array ℕ = filled b size s.io_buffer in
      let (block, done) = block_write dev s.block e.start_sector (some io) file_sectors in
      if not done
      then (record s { block = block; io_buffer = io }, false)
      else write_directory dev (record s {
        block = block;
        io_buffer = io;
        directory = record s.directory {
          entries = update s.directory.entries i (written_entry e path b size);
        };
      })

  unfoldable pub sfs_write_file : Sfs V → FilePath → Buffer → ℕ → Sfs V × Bool
  sfs_write_file s path b size =
      if not s.mounted
        || not (sfs_path_valid path)
        || buffer_missing b size
        || ltb sfs_max_file_size size
      then (s, false)
      else elim (entry_for s.directory path) [
        | none ↦ (s, false)
        | some i ↦ write_entry s i path b size
      ]

  unfoldable pub read_entry : Sfs V → SfsEntry → Array ℕ → ℕ → Sfs V × Option (ℕ × Array ℕ)
  read_entry s e target capacity =
      if ltb capacity e.size || ltb sfs_max_file_size e.size
      then (s, none)
      else let (block, r) = block_read dev s.block e.start_sector (some s.io_buffer) file_sectors in
        elim r [
          | none ↦ (record s { block = block }, none)
          | some io ↦ (record s { block = block; io_buffer = io }, check_read e io target)
        ]

  unfoldable pub sfs_read_file : Sfs V → FilePath → Buffer → ℕ → Sfs V × Option (ℕ × Array ℕ)
  sfs_read_file s path target capacity =
      if not s.mounted || is_null target then (s, none) else elim (find_entry s.directory path) [
        | none ↦ (s, none)
        | some i ↦ read_entry s (s.directory.entries i) (buffer_bytes target) capacity
      ]

  -- SaturnFS as the file system below /disk.
  abbrev pub sfs_disk : DiskFs (Sfs V)
  sfs_disk = record { sfs_write_file = sfs_write_file; sfs_read_file = sfs_read_file }
