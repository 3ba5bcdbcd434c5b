-- ===== src/Fs/Sfs/Writes.antt =====
-- Writing files to SaturnFS on the disk in RAM.
use saturn_os.Prelude.{
  ℕ, ◌≤◌, ◌<◌, ◌≡◌, ◌∙◌, refl, ap, sym, fun_ext, Bool, true, false, not, ◌&&◌, ◌||◌, Option, none,
  some, inl, inr, ltb, arith, if◌then◌else◌, Array, Bool-cases, Option-cases, IsString,
}
use saturn_os.Storage.Block.{VirtioBlk, block_write}
use saturn_os.Storage.Block.RamDisk.{in_range, block_write-stored}
use saturn_os.Fs.Paths.{FilePath, path_equals}
use saturn_os.Fs.Disk.{Buffer}
use saturn_os.Fs.Sfs.{
  Sfs, SfsEntry, SfsDirectory, sfs_max_files, sfs_max_file_size, directory_sector, file_sectors,
  entry_for, directory_bytes, filled, buffer_bytes, buffer_missing, sfs_path_valid,
}
use saturn_os.Fs.Sfs.Format.{write_directory}
use saturn_os.Fs.Sfs.Files.{sfs_write_file, write_entry, written_entry}
use saturn_os.Fs.Sfs.Contents.{contents, Mounted}
use saturn_os.Fs.Sfs.Entries.{entry_for-Fits}
use saturn_os.Fs.Sfs.Update.{new_directory, with_directory, with_file, stored_file-after}

-- Whether a write is accepted.
abbrev pub is_there : Option ℕ → Bool
is_there none = false
is_there (some i) = true

abbrev pub accepts : SfsDirectory → FilePath → Buffer → ℕ → Bool
accepts d path b size =
    not (not (sfs_path_valid path) || buffer_missing b size || ltb sfs_max_file_size size)
    && is_there (entry_for d path)

module _ {V : Type 0} (dev : VirtioBlk V) where
  -- What a write to the entry `i` changes.
  abbrev pub Wrote : Sfs V → FilePath → Buffer → ℕ → ℕ → Sfs V × Bool → Type 0
  Wrote s path b size i (s', done) =
      (done ≡ true)
      × (s'.directory ≡ new_directory s.directory i path b size)
      × (s'.block.ram_disk
          ≡ with_directory (with_file s.block.ram_disk i (filled b size s.io_buffer))
              (new_directory s.directory i path b size))
      × (s'.block.use_virtio ≡ false)
      × (s'.mounted ≡ s.mounted)

  pub write_directory-Wrote :
      (s : Sfs V)
      → s.block.use_virtio ≡ false
      → ((write_directory dev s).1 ≡ true)
        × ((write_directory dev s).0.directory ≡ s.directory)
        × ((write_directory dev s).0.block.ram_disk ≡ with_directory s.block.ram_disk s.directory)
        × ((write_directory dev s).0.block.use_virtio ≡ false)
        × ((write_directory dev s).0.mounted ≡ s.mounted)
  unfolding write_directory
  write_directory-Wrote s in_ram =
      let (done, disk, ram) =
        block_write-stored dev s.block in_ram directory_sector (directory_bytes s.directory) 1 in
      (done, refl, fun_ext disk, ram, refl)

  pub write_entry-Wrote :
      (s : Sfs V) (path : FilePath) (b : Buffer) (size i : ℕ)
      → Mounted s
      → i < sfs_max_files
      → Wrote s path b size i (write_entry dev s i path b size)
  unfolding write_entry
  write_entry-Wrote s path b size i m l =
      let e : SfsEntry = s.directory.entries i in
      let start = m.starts i l in
      let io : Array ℕ = filled b size s.io_buffer in
      let (done, disk, ram) =
        block_write-stored dev s.block m.in_ram e.start_sector io file_sectors in
      let inside : in_range e.start_sector file_sectors ≡ true = ground (arith, start) in
      let (written, dir, disk₂, ram₂, kept) =
        write_directory-Wrote
          (record s {
            block = (block_write dev s.block e.start_sector (some io) file_sectors).0;
            io_buffer = io;
            directory = new_directory s.directory i path b size;
          })
          ram in
      rw (done, inside)
        (
          written,
          dir,
          disk₂
              ∙ ap (λ d. with_directory d (new_directory s.directory i path b size))
                  (fun_ext (λ j. disk j ∙ rw (inside, start) refl)),
          ram₂,
          kept,
        )

  written_directory-Mounted :
      (s : Sfs V) (path : FilePath) (b : Buffer) (size i : ℕ) (r : Sfs V × Bool)
      → Mounted s
      → Wrote s path b size i r
      → Mounted r.0
  unfolding written_entry
  written_directory-Mounted s path b size i (s', done) m (_, dir, _, ram, kept) = record {
    in_ram = ram;
    ready = kept ∙ m.ready;
    starts = λ k l. let start = m.starts k l in rw dir (ground (arith, start));
  }

  -- What `sfs_write_file` promises: its result, and the files afterwards.
  abbrev pub Writes : Sfs V → FilePath → Buffer → ℕ → Sfs V × Bool → Type 0
  Writes s path b size r =
      (r.1 ≡ accepts s.directory path b size)
      × ((q : FilePath)
          → contents r.0 q ≡ (
              if accepts s.directory path b size && path_equals path q
              then some (size, λ j. if ltb j size then buffer_bytes b j else 0)
              else contents s q))
      × Mounted r.0

  write_entry-Writes :
      (s : Sfs V) (path : FilePath) (b : Buffer) (size i : ℕ)
      → Mounted s
      → IsString path
      → sfs_path_valid path ≡ true
      → size ≤ sfs_max_file_size
      → entry_for s.directory path ≡ some i
      → accepts s.directory path b size ≡ true
      → Writes s path b size (write_entry dev s i path b size)
  write_entry-Writes s path b size i m ok valid small e accepted =
      let fits = entry_for-Fits s.directory path i e in
      let w = write_entry-Wrote s path b size i m fits.inside in
      let (done, dir, disk, _, _) = w in
      (
        done ∙ sym accepted,
        (λ q. rw (dir, disk, accepted) (stored_file-after s m path b size i fits ok valid small q)),
        written_directory-Mounted s path b size i (write_entry dev s i path b size) m w,
      )

  refused-Writes :
      (s : Sfs V) (path : FilePath) (b : Buffer) (size : ℕ)
      → Mounted s
      → accepts s.directory path b size ≡ false
      → Writes s path b size (s, false)
  refused-Writes s path b size m no_write = (sym no_write, (λ q. rw no_write refl), m)

  abbrev pub refuses : Sfs V → FilePath → Buffer → ℕ → Bool
  refuses s path b size =
      not s.mounted
      || not (sfs_path_valid path)
      || buffer_missing b size
      || ltb sfs_max_file_size size

  pub sfs_write_file-full :
      (s : Sfs V) (path : FilePath) (b : Buffer) (size : ℕ)
      → refuses s path b size ≡ false
      → entry_for s.directory path ≡ none
      → sfs_write_file dev s path b size ≡ (s, false)
  unfolding sfs_write_file
  sfs_write_file-full s path b size allowed full = rw (allowed, full) refl

  pub sfs_write_file-entry :
      (s : Sfs V) (path : FilePath) (b : Buffer) (size i : ℕ)
      → refuses s path b size ≡ false
      → entry_for s.directory path ≡ some i
      → sfs_write_file dev s path b size ≡ write_entry dev s i path b size
  unfolding sfs_write_file
  sfs_write_file-entry s path b size i allowed e = rw (allowed, e) refl

  pub sfs_write_file-Writes :
      (s : Sfs V) (path : FilePath) (b : Buffer) (size : ℕ)
      → Mounted s
      → IsString path
      → Writes s path b size (sfs_write_file dev s path b size)
  unfolding sfs_write_file
  sfs_write_file-Writes s path b size m ok =
      let ready = m.ready in
      elim (Bool-cases (refuses s path b size)) [
        | inl refused ↦ rw refused (refused-Writes s path b size m (ground (arith, refused, ready)))
        | inr allowed ↦ elim (Option-cases (entry_for s.directory path)) [
          | inl full ↦
              let none_there : is_there (entry_for s.directory path) ≡ false = rw full refl in
              rw (sfs_write_file-full s path b size allowed full)
                (refused-Writes s path b size m (ground (arith, none_there)))
          | inr (i, e) ↦
              let there : is_there (entry_for s.directory path) ≡ true = rw e refl in
              rw (sfs_write_file-entry s path b size i allowed e) (
                write_entry-Writes s path b size i m ok (ground (arith, allowed))
                  (ground (arith, allowed)) e (ground (arith, allowed, there)))
        ]
      ]
