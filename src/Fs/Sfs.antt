-- ===== src/Fs/Sfs.antt =====
-- kernel/fs/sfs.c and sfs.h: SaturnFS, eight files on the block device. `superblock`, `directory` and
-- `io_buffer` are the source's variables; what is written of them is their bytes.
pub mod Format
pub mod Files
pub mod Contents
pub mod Entries
pub mod Update
pub mod Writes
pub mod Tables
pub mod Mount
pub mod Stored
pub mod Empty
pub mod RoundTrip
mod Examples
use saturn_os.Prelude.{
  ℕ, zero, suc, ◌+◌, ◌-◌, ◌*◌, ◌/◌, ◌%◌, ◌^◌, Bool, true, false, not, ◌&&◌, ◌||◌, Option, none,
  some, ltb, leb, ◌==◌, if◌then◌else◌, Array, update, find_first, map_range, byte_of, word32_at,
  text_from, char_at, string_length,
}
use Prim.Native.Nat.{bit_xor}
use saturn_os.Storage.Block.{Block, VirtioBlk, block_read, block_write, block_sector_count}
use saturn_os.Fs.Paths.{FilePath, path_equals, starts_with_slash, length}
use saturn_os.Fs.Disk.{Buffer, DiskFs}

abbrev pub sfs_magic : ℕ
sfs_magic = 0x53465331

abbrev pub sfs_version : ℕ
sfs_version = 1

abbrev pub super_sector : ℕ
super_sector = 0

abbrev pub directory_sector : ℕ
directory_sector = 1

abbrev pub data_start_sector : ℕ
data_start_sector = 2

abbrev pub sfs_max_files : ℕ
sfs_max_files = 8

abbrev pub sfs_max_path : ℕ
sfs_max_path = 44

abbrev pub file_sectors : ℕ
file_sectors = 8

abbrev pub sfs_max_file_size : ℕ
sfs_max_file_size = file_sectors * 512

pub record SuperBlock : Type 0 where
  pub magic : ℕ
  pub version : ℕ
  pub sector_size : ℕ
  pub total_sectors : ℕ
  pub max_files : ℕ
  pub data_start : ℕ
  pub reserved : Array ℕ

pub record SfsEntry : Type 0 where
  pub path : Array ℕ
  pub start_sector : ℕ
  pub size : ℕ
  pub checksum : ℕ
  pub flags : ℕ

pub record SfsDirectory : Type 0 where
  pub entries : Array SfsEntry
  pub reserved : Array ℕ

pub record Sfs (V : Type 0) : Type 0 where
  pub block : Block V
  pub superblock : SuperBlock
  pub directory : SfsDirectory
  pub io_buffer : Array ℕ
  pub mounted : Bool

-- The bytes of a `struct sfs_entry`, of which there are 60.
unfoldable pub entry_byte : SfsEntry → ℕ → ℕ
entry_byte e j =
    if ltb j 44
    then e.path j
    else if ltb j 48
    then byte_of e.start_sector (j - 44)
    else if ltb j 52
    then byte_of e.size (j - 48)
    else if ltb j 56
    then byte_of e.checksum (j - 52)
    else byte_of e.flags (j - 56)

unfoldable pub directory_bytes : SfsDirectory → Array ℕ
directory_bytes d j =
    if ltb j 480 then entry_byte (d.entries (j / 60)) (j % 60) else d.reserved (j - 480)

unfoldable pub entry_at : Array ℕ → ℕ → SfsEntry
entry_at bytes i = record {
  path = λ j. bytes (i * 60 + j);
  start_sector = word32_at bytes (i * 60 + 44);
  size = word32_at bytes (i * 60 + 48);
  checksum = word32_at bytes (i * 60 + 52);
  flags = word32_at bytes (i * 60 + 56);
}

-- The directory that a sector holds.
unfoldable pub directory_of : Array ℕ → SfsDirectory
directory_of bytes = record { entries = entry_at bytes; reserved = λ j. bytes (480 + j) }

unfoldable pub super_bytes : SuperBlock → Array ℕ
super_bytes s j =
    if ltb j 4
    then byte_of s.magic j
    else if ltb j 8
    then byte_of s.version (j - 4)
    else if ltb j 12
    then byte_of s.sector_size (j - 8)
    else if ltb j 16
    then byte_of s.total_sectors (j - 12)
    else if ltb j 20
    then byte_of s.max_files (j - 16)
    else if ltb j 24
    then byte_of s.data_start (j - 20)
    else s.reserved (j - 24)

unfoldable pub super_of : Array ℕ → SuperBlock
super_of bytes = record {
  magic = word32_at bytes 0;
  version = word32_at bytes 4;
  sector_size = word32_at bytes 8;
  total_sectors = word32_at bytes 12;
  max_files = word32_at bytes 16;
  data_start = word32_at bytes 20;
  reserved = λ j. bytes (24 + j);
}

unfoldable pub sfs_path_valid : FilePath → Bool
sfs_path_valid path =
    starts_with_slash path && ltb (length path) sfs_max_path && ltb 1 (length path)

-- `(value << 5) ^ (value >> 2) ^ byte`
unfoldable pub sfs_checksum_step : ℕ → ℕ → ℕ
sfs_checksum_step value byte =
    bit_xor (bit_xor (value * 32 % 2 ^ 32) (value / 4)) (byte % 256) % 2 ^ 32

-- The loop from the byte `i` on, with the rounds that are left.
unfoldable pub sfs_checksum_from : ℕ → Array ℕ → ℕ → ℕ → ℕ
sfs_checksum_from zero bytes i value = value
sfs_checksum_from (suc n) bytes i value =
    sfs_checksum_from n bytes (suc i) (sfs_checksum_step value (bytes i))

unfoldable pub sfs_checksum : Array ℕ → ℕ → ℕ
sfs_checksum bytes size = sfs_checksum_from size bytes 0 0

abbrev pub entry_used : SfsEntry → Bool
entry_used e = e.flags % 2 == 1

-- A path in the directory is read as a C string, at most up to the end of its array.
abbrev pub entry_named : FilePath → SfsEntry → Bool
entry_named path e = entry_used e && path_equals (text_from sfs_max_path e.path 0) path

unfoldable pub find_entry : SfsDirectory → FilePath → Option ℕ
find_entry d path = find_first (λ i. entry_named path (d.entries i)) sfs_max_files 0

-- The entry to write: the one of the path, or else the first that is not used.
unfoldable pub entry_for : SfsDirectory → FilePath → Option ℕ
entry_for d path = elim (find_entry d path) [
  | some i ↦ some i
  | none ↦ find_first (λ i. not (entry_used (d.entries i))) sfs_max_files 0
]

-- The copy of the path with its closing zero into `entry->path`.
unfoldable pub copy_path : Array ℕ → FilePath → Array ℕ
copy_path old path j = if leb j (string_length path) then char_at path j else old j

unfoldable pub formatted_entry : ℕ → SfsEntry → SfsEntry
formatted_entry i e = record {
  path = update e.path 0 0;
  start_sector = (data_start_sector + i * file_sectors) % 2 ^ 32;
  size = 0;
  checksum = 0;
  flags = 0;
}

abbrev pub buffer_bytes : Buffer → Array ℕ
buffer_bytes none = λ i. 0
buffer_bytes (some b) = b

abbrev pub buffer_missing : Buffer → ℕ → Bool
buffer_missing none size = not (size == 0)
buffer_missing (some b) size = false

-- `io_buffer[i] = i < size ? data[i] : 0` for each byte of the buffer.
unfoldable pub filled : Buffer → ℕ → Array ℕ → Array ℕ
filled b size old i =
    if ltb i sfs_max_file_size then (if ltb i size then buffer_bytes b i else 0) else old i

unfoldable pub super_accepted : SuperBlock → ℕ → Bool
super_accepted s sectors =
    (s.magic == sfs_magic)
    && (s.version == sfs_version)
    && (s.sector_size == 512)
    && (s.max_files == sfs_max_files)
    && (s.data_start == data_start_sector)
    && leb s.total_sectors sectors
