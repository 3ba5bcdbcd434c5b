-- ===== src/Fs/Sfs/RoundTrip.antt =====
-- A file of SaturnFS from `sfs_write_file` to `sfs_read_file`, with `sfs_init` between them.
use saturn_os.Prelude.{
  ℕ, ◌≤◌, ◌≡◌, ◌∙◌, refl, ap, fun_ext, true, false, some, ltb, arith, if◌then◌else◌, Array,
  IsString,
}
use saturn_os.Storage.Block.{VirtioBlk}
use saturn_os.Fs.Paths.{FilePath}
use saturn_os.Fs.Paths.Laws.{path_equals_self}
use saturn_os.Fs.Disk.{Buffer}
use saturn_os.Fs.Sfs.{Sfs, buffer_bytes}
use saturn_os.Fs.Sfs.Format.{sfs_init}
use saturn_os.Fs.Sfs.Files.{sfs_write_file, sfs_read_file}
use saturn_os.Fs.Sfs.Contents.{Mounted, contents, given, sfs_read_file-found}
use saturn_os.Fs.Sfs.Writes.{accepts, sfs_write_file-Writes}
use saturn_os.Fs.Sfs.Mount.{OnDisk, sfs_init-Remounts}
use saturn_os.Fs.Sfs.Stored.{sfs_write_file-OnDisk}

module _ {V : Type 0} (dev : VirtioBlk V) where
  -- A write that is accepted on a mounted disk in RAM with its tables stored on it is found again after
  -- `sfs_init` has run on that disk with any other variables: `sfs_read_file` gives the size and the bytes
  -- that were written to a buffer that is large enough. The path is a C string.
  pub sfs_read_file-sfs_init :
      (s t : Sfs V) (path : FilePath) (b : Buffer) (size : ℕ) (fill target : Array ℕ) (capacity : ℕ)
      → Mounted s
      → OnDisk s
      → IsString path
      → accepts s.directory path b size ≡ true
      → t.block ≡ (sfs_write_file dev s path b size).0.block
      → size ≤ capacity
      → (sfs_read_file dev (sfs_init dev t fill) path (some target) capacity).1
        ≡ some (size, λ j. if ltb j size then buffer_bytes b j else target j)
  sfs_read_file-sfs_init s t path b size fill target capacity m o ok accepted same fits =
      let (_, files, mounted) = sfs_write_file-Writes dev s path b size m ok in
      let again =
        sfs_init-Remounts dev (sfs_write_file dev s path b size).0 t fill mounted
          (sfs_write_file-OnDisk dev s path b size m o) same in
      let (result, _, _) =
        sfs_read_file-found dev (sfs_init dev t fill) path target capacity again.mounted in
      let file : contents (sfs_init dev t fill) path
          ≡ some (size, λ j. if ltb j size then buffer_bytes b j else 0) =
        again.files path ∙ files path ∙ rw (accepted, path_equals_self path) refl in
      let large : ltb capacity size ≡ false = ground arith in
      result
      ∙ ap (given target capacity) file
      ∙ rw large (ap (λ (bytes : Array ℕ). some (size, bytes)) (fun_ext λ j. ground arith))
