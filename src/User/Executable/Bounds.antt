-- ===== src/User/Executable/Bounds.antt =====
-- The images that `saturn_exec_parse` of kernel/user/executable.c gives.
use saturn_os.Prelude.{
  ℕ, ◌+◌, ◌%◌, ◌≤◌, ◌<◌, ◌≡◌, Bool, true, false, refl, Option, none, some, ◌||◌, arith, inl, inr,
  Bool-cases, Array, ltb, add64, subst,
}
use saturn_os.User.Executable.{
  ExecImage, exec_header, exec_header_size, exec_page_size, exec_image, header_refused,
  payload_refused, checksum_refused, saturn_exec_checksum, saturn_exec_parse, parse_file,
}

-- The image of a file of the size: the code behind the header, the data behind the code up to the end
-- of the file, each of at most a page, and an entry inside the code at a multiple of 4.
pub record Inside (file_size : ℕ) (image : ExecImage) : Type 0 where
  pub code_at : image.code ≡ exec_header_size
  pub data_at : image.data_start ≡ image.code + image.code_size
  pub ends : image.data_start + image.data_size ≡ file_size
  pub code_fits : (1 ≤ image.code_size) × (image.code_size ≤ exec_page_size)
  pub data_fits : image.data_size ≤ exec_page_size
  pub entry_in : image.entry_offset < image.code_size
  pub entry_aligned : image.entry_offset % 4 ≡ 0

-- The payload of the accepted file has the checksum of its header.
abbrev pub Parses : Array ℕ → ℕ → Option ExecImage → Type 0
Parses file file_size none = Unit {0}
Parses file file_size (some image) =
    Inside file_size image
    × (saturn_exec_checksum file image.code (image.code_size + image.data_size)
        ≡ (exec_header file).payload_checksum)

accepted :
    (file : Array ℕ) (file_size : ℕ)
    → header_refused (exec_header file) ≡ false
    → payload_refused (exec_header file) file_size ≡ false
    → checksum_refused file (exec_header file) ≡ false
    → Parses file file_size (some (exec_image (exec_header file)))
unfolding header_refused payload_refused checksum_refused exec_image
accepted file file_size h p c =
    let total : add64 (exec_header file).code_size (exec_header file).data_size
        ≡ (exec_header file).code_size + (exec_header file).data_size =
      ground arith in
    (
      record {
        code_at = ground arith;
        data_at = refl;
        ends = ground arith;
        code_fits = ground arith;
        data_fits = ground arith;
        entry_in = ground arith;
        entry_aligned = ground arith;
      },
      subst
          (λ n.
            saturn_exec_checksum file (exec_header file).header_size n
            ≡ (exec_header file).payload_checksum)
          total (ground arith),
    )

-- An image that `saturn_exec_parse` gives lies inside the file: the code is behind the header, the
-- data fills the rest of the file, neither is larger than a page, the entry is a multiple of 4 inside
-- the code, and the code and the data have the checksum that the header names.
pub saturn_exec_parse-Parses :
    (file : Array ℕ) (file_size : ℕ) (has_image : Bool)
    → Parses file file_size (saturn_exec_parse (some file) file_size has_image)
unfolding saturn_exec_parse parse_file
saturn_exec_parse-Parses file file_size false = tt
saturn_exec_parse-Parses file file_size true =
    elim (Bool-cases (
      ltb file_size exec_header_size
      || header_refused (exec_header file)
      || payload_refused (exec_header file) file_size
      || checksum_refused file (exec_header file))) [
        | inl e ↦ rw e tt
        | inr e ↦ rw e (accepted file file_size (ground arith) (ground arith) (ground arith))
      ]
