-- ===== src/Fs/Disk.antt =====
-- What kernel/fs/vfs.c uses of the file system under /disk: `sfs_write_file` and `sfs_read_file` of
-- kernel/fs/sfs.h. The state of that file system is a parameter of the client.
use saturn_os.Prelude.{ℕ, Bool, true, false, Option, none, some, Array}
use saturn_os.Fs.Paths.{FilePath}

-- A buffer is its bytes; `none` is the null pointer.
abbrev pub Buffer : Type 0
Buffer = Option (Array ℕ)

abbrev pub is_null : Buffer → Bool
is_null none = true
is_null (some b) = false

-- A read gives the size of the file and what its buffer holds afterwards, or `none` for an error;
-- the number is the capacity of the buffer that is passed.
pub record DiskFs (S : Type 0) : Type 0 where
  pub sfs_write_file : S → FilePath → Buffer → ℕ → S × Bool
  pub sfs_read_file : S → FilePath → Buffer → ℕ → S × Option (ℕ × Array ℕ)
