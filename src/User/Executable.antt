-- ===== src/User/Executable.antt =====
-- kernel/user/executable.c and executable.h: the format of executable files. A pointer into the file
-- is the number of bytes before it.
pub mod Bounds
mod Examples
use Prim.Native.Nat.{bit_xor}
use saturn_os.Prelude.{
  ℕ, zero, suc, ◌+◌, ◌-◌, ◌*◌, ◌/◌, ◌%◌, ◌^◌, Bool, true, false, not, ◌||◌, Option, none, some, ltb,
  leb, ◌==◌, if◌then◌else◌, Array, add64, sub64,
}

abbrev pub exec_magic : ℕ
exec_magic = 0x53415458

abbrev pub exec_version : ℕ
exec_version = 1

abbrev pub exec_page_size : ℕ
exec_page_size = 4096

-- `sizeof(struct saturn_exec_header)`
abbrev pub exec_header_size : ℕ
exec_header_size = 24

pub record ExecHeader : Type 0 where
  pub magic : ℕ
  pub version : ℕ
  pub header_size : ℕ
  pub code_size : ℕ
  pub data_size : ℕ
  pub entry_offset : ℕ
  pub payload_checksum : ℕ

pub record ExecImage : Type 0 where
  pub code : ℕ
  pub data_start : ℕ
  pub code_size : ℕ
  pub data_size : ℕ
  pub entry_offset : ℕ

-- An `unsigned short` and an `unsigned int` of the file, the lowest byte first.
unfoldable pub read16 : Array ℕ → ℕ → ℕ
read16 file at = file at % 256 + file (at + 1) % 256 * 256

unfoldable pub read32 : Array ℕ → ℕ → ℕ
read32 file at = read16 file at + read16 file (at + 2) * 65536

-- The file seen as a `struct saturn_exec_header`.
unfoldable pub exec_header : Array ℕ → ExecHeader
exec_header file = record {
  magic = read32 file 0;
  version = read16 file 4;
  header_size = read16 file 6;
  code_size = read32 file 8;
  data_size = read32 file 12;
  entry_offset = read32 file 16;
  payload_checksum = read32 file 20;
}

-- `(checksum << 5) ^ (checksum >> 2) ^ byte`
unfoldable pub checksum_step : ℕ → ℕ → ℕ
checksum_step checksum byte = bit_xor (bit_xor (checksum * 32 % 2 ^ 32) (checksum / 4)) (byte % 256)

-- The loop from the byte `at` on, with the rounds that are left.
unfoldable pub checksum_from : ℕ → Array ℕ → ℕ → ℕ → ℕ
checksum_from zero file at checksum = checksum
checksum_from (suc rounds) file at checksum =
    checksum_from rounds file (at + 1) (checksum_step checksum (file at))

-- The checksum of `size` bytes from the byte `start` on.
unfoldable pub saturn_exec_checksum : Array ℕ → ℕ → ℕ → ℕ
saturn_exec_checksum file start size = checksum_from size file start 0

unfoldable pub header_refused : ExecHeader → Bool
header_refused h =
    not (h.magic == exec_magic)
    || not (h.version == exec_version)
    || not (h.header_size == exec_header_size)
    || (h.code_size == 0)
    || ltb exec_page_size h.code_size
    || ltb exec_page_size h.data_size
    || leb h.code_size h.entry_offset
    || not (h.entry_offset % 4 == 0)

unfoldable pub payload_refused : ExecHeader → ℕ → Bool
payload_refused h file_size =
    let payload_size : ℕ = add64 h.code_size h.data_size in
    ltb (sub64 file_size h.header_size) payload_size
    || not (add64 h.header_size payload_size == file_size)

unfoldable pub checksum_refused : Array ℕ → ExecHeader → Bool
checksum_refused file h =
    not (
      saturn_exec_checksum file h.header_size (add64 h.code_size h.data_size) == h.payload_checksum)

unfoldable pub exec_image : ExecHeader → ExecImage
exec_image h = record {
  code = h.header_size;
  data_start = h.header_size + h.code_size;
  code_size = h.code_size;
  data_size = h.data_size;
  entry_offset = h.entry_offset;
}

unfoldable pub parse_file : Array ℕ → ℕ → Option ExecImage
parse_file file file_size =
    let h : ExecHeader = exec_header file in
    if ltb file_size exec_header_size
      || header_refused h
      || payload_refused h file_size
      || checksum_refused file h
    then none
    else some (exec_image h)

-- `none` for the file is the null pointer, and `has_image` says whether the other pointer is not null.
unfoldable pub saturn_exec_parse : Option (Array ℕ) → ℕ → Bool → Option ExecImage
saturn_exec_parse none file_size has_image = none
saturn_exec_parse (some file) file_size has_image =
    if not has_image then none else parse_file file file_size
