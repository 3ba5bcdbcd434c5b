-- ===== src/User/Executable/Examples.antt =====
-- A file of four bytes of code, and the theorem about it.
use saturn_os.Prelude.{ℕ, ◌≡◌, true, refl, some, Array, ◌==◌, if◌then◌else◌}
use saturn_os.User.Executable.{
  saturn_exec_parse, parse_file, exec_header, exec_image, header_refused, payload_refused,
  checksum_refused, saturn_exec_checksum, checksum_from, checksum_step, read16, read32,
}
use saturn_os.User.Executable.Bounds.{Parses, saturn_exec_parse-Parses}

-- "XTAS", version 1, header size 24, code size 4, no data, entry 0, the checksum of the byte 7 last.
abbrev small_file : Array ℕ
small_file i =
    if i == 0
    then 0x58
    else if i == 1
    then 0x54
    else if i == 2
    then 0x41
    else if i == 3
    then 0x53
    else if i == 4
    then 1
    else if i == 6
    then 24
    else if i == 8
    then 4
    else if i == 20
    then 7
    else if i == 27
    then 7
    else 0

small_file_parses :
    saturn_exec_parse (some small_file) 28 true
    ≡ some (record { code = 24; data_start = 28; code_size = 4; data_size = 0; entry_offset = 0 })
unfolding saturn_exec_parse parse_file exec_header exec_image header_refused payload_refused
    checksum_refused saturn_exec_checksum checksum_from checksum_step read16 read32
small_file_parses = refl

saturn_exec_parse-Parses_example :
    Parses small_file 28 (saturn_exec_parse (some small_file) 28 true)
saturn_exec_parse-Parses_example = saturn_exec_parse-Parses small_file 28 true
