-- ===== src/Fs/Sfs/Update.antt =====
-- The directory and the disk once a file is written to an entry, and the files they hold.
use saturn_os.Prelude.{
  ℕ, ◌+◌, ◌*◌, ◌%◌, ◌^◌, ◌≤◌, ◌<◌, ◌≡◌, ◌≢◌, ◌∙◌, refl, ap, sym, subst, fun_ext, true, false, some,
  inl, inr, ltb, ◌==◌, arith, if◌then◌else◌, Array, update, Bool-cases, Option-cases, IsString,
  text_from,
}
use saturn_os.Storage.Block.RamDisk.{stored}
use saturn_os.Fs.Paths.{FilePath, path_equals}
use saturn_os.Fs.Paths.Laws.{path_equals_self, eq_of_path_equals}
use saturn_os.Fs.Disk.{Buffer}
use saturn_os.Fs.Sfs.{
  entry_named, sfs_max_path, Sfs, SfsEntry, SfsDirectory, sfs_max_file_size, data_start_sector,
  directory_sector, file_sectors, sfs_checksum, sfs_checksum_from, find_entry, directory_bytes,
  filled, buffer_bytes, sfs_path_valid, entry_used,
}
use saturn_os.Fs.Sfs.Files.{written_entry}
use saturn_os.Fs.Sfs.Contents.{
  data_at, file_at, stored_file, stored_file-none, stored_file-some, contents, Mounted,
  sfs_checksum_same, find_entry-inside,
}
use saturn_os.Fs.Sfs.Entries.{text_from-copy_path, Fits, find_entry-new, find_entry-named}

-- The directory with the file in the entry `i`, and the disk once the file and the directory are written.
abbrev pub new_directory : SfsDirectory → ℕ → FilePath → Buffer → ℕ → SfsDirectory
new_directory d i path b size = record d {
  entries = update d.entries i (written_entry (d.entries i) path b size);
}

abbrev pub with_directory : Array ℕ → SfsDirectory → Array ℕ
with_directory disk d = stored disk directory_sector (directory_bytes d) 1

abbrev pub with_file : Array ℕ → ℕ → Array ℕ → Array ℕ
with_file disk i io = stored disk (data_start_sector + i * file_sectors) io file_sectors

-- Entries of the same file on disks with the same bytes of it.
file_at_same :
    (disk disk' : Array ℕ) (e : SfsEntry)
    → ((j : ℕ) → j < sfs_max_file_size → data_at disk' e j ≡ data_at disk e j)
    → file_at disk' e ≡ file_at disk e
unfolding file_at sfs_checksum
file_at_same disk disk' e same = elim (Bool-cases (ltb sfs_max_file_size e.size)) [
  | inl large ↦ rw large refl
  | inr small ↦
      let sums =
        sfs_checksum_same e.size (data_at disk' e) (data_at disk e) 0 0
          (λ j l m. same j (ground arith)) in
      let bytes : (λ j. if ltb j e.size then data_at disk' e j else 0)
          ≡ (λ j. if ltb j e.size then data_at disk e j else 0) =
        fun_ext λ j. ground (arith, same j) in
      rw (sums, bytes) refl
]

-- The file of an entry whose bytes are those of a buffer.
file_at-written :
    (disk : Array ℕ) (e : SfsEntry) (path : FilePath) (b : Buffer) (size : ℕ)
    → size ≤ sfs_max_file_size
    → ((j : ℕ) → j < size → data_at disk e j ≡ buffer_bytes b j)
    → file_at disk (written_entry e path b size)
      ≡ some (size, λ j. if ltb j size then buffer_bytes b j else 0)
unfolding file_at sfs_checksum written_entry
file_at-written disk e path b size small same =
    let n : size % 2 ^ 32 ≡ size = omega arith in
    let fits : ltb sfs_max_file_size size ≡ false = ground arith in
    let sums =
      sfs_checksum_same size (data_at disk e) (buffer_bytes b) 0 0
        (λ j l m. same j (ground arith)) in
    let equal : (sfs_checksum_from size (buffer_bytes b) 0 0
          == sfs_checksum_from size (buffer_bytes b) 0 0)
        ≡ true =
      ground arith in
    rw (n, fits, sums, equal)
      (ap (λ (bytes : Array ℕ). some (size, bytes)) (fun_ext λ j. ground (arith, same j)))

module _ {V : Type 0} (s : Sfs V) (m : Mounted s) (path : FilePath) (b : Buffer) (size i : ℕ)
    (fits : Fits s.directory path i) where
  abbrev directory_after : SfsDirectory
  directory_after = new_directory s.directory i path b size

  abbrev disk_after : Array ℕ
  disk_after =
      with_directory (with_file s.block.ram_disk i (filled b size s.io_buffer)) directory_after

  new_entry : directory_after.entries i ≡ written_entry (s.directory.entries i) path b size
  new_entry = ground arith

  old_entry : (k : ℕ) → k ≢ i → directory_after.entries k ≡ s.directory.entries k
  old_entry k other = ground arith

  -- What the write leaves at the path.
  stored_file-new :
      size ≤ sfs_max_file_size
      → find_entry directory_after path ≡ some i
      → stored_file directory_after disk_after path
        ≡ some (size, λ j. if ltb j size then buffer_bytes b j else 0)
  unfolding filled
  stored_file-new small found =
      let start = m.starts i fits.inside in
      stored_file-some directory_after disk_after path i found
      ∙ ap (file_at disk_after) new_entry
      ∙ file_at-written disk_after (s.directory.entries i) path b size small
          (λ j l. ground (arith, start))

  -- The files of other paths.
  stored_file-old :
      (q : FilePath)
      → path_equals path q ≡ false
      → find_entry directory_after q ≡ find_entry s.directory q
      → stored_file directory_after disk_after q ≡ stored_file s.directory s.block.ram_disk q
  stored_file-old q other same = elim (Option-cases (find_entry s.directory q)) [
    | inl missing ↦
        stored_file-none directory_after disk_after q (same ∙ missing)
        ∙ sym (stored_file-none s.directory s.block.ram_disk q missing)
    | inr (k, found) ↦
        let named = find_entry-named s.directory q k found in
        let apart : k ≢ i = λ e.
          let not_it =
            subst (λ n. entry_named q (s.directory.entries n) ≡ false) (sym e)
              (fits.others q other) in
          ground (arith, named, not_it) in
        let inside = find_entry-inside s.directory q k found in
        let start = m.starts k inside in
        stored_file-some directory_after disk_after q k (same ∙ found)
        ∙ ap (file_at disk_after) (old_entry k apart)
        ∙ file_at_same s.block.ram_disk disk_after (s.directory.entries k)
            (λ j l. ground (arith, start))
        ∙ sym (stored_file-some s.directory s.block.ram_disk q k found)
  ]

  find_entry-after :
      IsString path
      → sfs_path_valid path ≡ true
      → (q : FilePath)
      → find_entry directory_after q
        ≡ (if path_equals path q then some i else find_entry s.directory q)
  unfolding written_entry
  find_entry-after ok valid q =
      find_entry-new s.directory directory_after path q i fits old_entry
        (ap entry_used new_entry ∙ refl)
        (ap (λ (e : SfsEntry). text_from sfs_max_path e.path 0) new_entry
          ∙ text_from-copy_path (s.directory.entries i).path path ok valid)

  -- All files after the write.
  pub stored_file-after :
      IsString path
      → sfs_path_valid path ≡ true
      → size ≤ sfs_max_file_size
      → (q : FilePath)
      → stored_file directory_after disk_after q ≡ (
          if path_equals path q
          then some (size, λ j. if ltb j size then buffer_bytes b j else 0)
          else contents s q)
  stored_file-after ok valid small q =
      let find = find_entry-after ok valid in
      elim (Bool-cases (path_equals path q)) [
        | inl same ↦
            let q_is : path ≡ q = eq_of_path_equals path q same in
            let found : find_entry directory_after path ≡ some i =
              find path ∙ rw (path_equals_self path) refl in
            rw (same, sym q_is) (stored_file-new small found)
        | inr other ↦ rw other (stored_file-old q other (find q ∙ rw other refl))
      ]
