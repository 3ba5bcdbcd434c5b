-- ===== src/Fs/Sfs/Contents.antt =====
-- The files of SaturnFS on the disk in RAM, as a map from paths to bytes, and how they are read.
use saturn_os.Prelude.{
  ℕ, zero, suc, ◌+◌, ◌*◌, ◌≤◌, ◌<◌, ◌≡◌, ◌∙◌, refl, ap, sym, subst, fun_ext, true, false, not, ◌||◌,
  Option, none, some, inl, inr, ltb, ◌==◌, arith, if◌then◌else◌, Array, find_first, Finds,
  find_first-Finds, find_first-first, Bool-cases, Option-cases, ◌%◌, ◌↔◌, text_from,
}
use saturn_os.Storage.Block.{VirtioBlk, sector_size}
use saturn_os.Storage.Block.RamDisk.{in_range, fetched, block_read-fetched}
use saturn_os.Fs.Paths.{FilePath, path_equals}
use saturn_os.Fs.Disk.{Buffer}
use saturn_os.Fs.Sfs.{
  Sfs, SfsEntry, SfsDirectory, sfs_max_path, buffer_bytes, sfs_max_files, sfs_max_file_size,
  data_start_sector, file_sectors, sfs_checksum, sfs_checksum_from, find_entry, entry_named,
}
use saturn_os.Fs.Sfs.Files.{sfs_read_file, read_entry, check_read}

-- A file is its size and its bytes, with zeros behind them.
abbrev pub File : Type 0
File = ℕ × Array ℕ

abbrev pub data_at : Array ℕ → SfsEntry → Array ℕ
data_at disk e j = disk (e.start_sector * sector_size + j)

unfoldable pub file_at : Array ℕ → SfsEntry → Option File
file_at disk e =
    if ltb sfs_max_file_size e.size
    then none
    else if not (sfs_checksum (data_at disk e) e.size == e.checksum)
    then none
    else some (e.size, λ j. if ltb j e.size then data_at disk e j else 0)

unfoldable pub stored_file : SfsDirectory → Array ℕ → FilePath → Option File
stored_file d disk path = elim (find_entry d path) [
  | none ↦ none
  | some i ↦ file_at disk (d.entries i)
]

pub stored_file-none :
    (d : SfsDirectory) (disk : Array ℕ) (path : FilePath)
    → find_entry d path ≡ none
    → stored_file d disk path ≡ none
unfolding stored_file
stored_file-none d disk path e = rw (e, stored_file) refl

pub stored_file-some :
    (d : SfsDirectory) (disk : Array ℕ) (path : FilePath) (i : ℕ)
    → find_entry d path ≡ some i
    → stored_file d disk path ≡ file_at disk (d.entries i)
unfolding stored_file
stored_file-some d disk path i e = rw (e, stored_file) refl

-- The file of a path, if there is one whose bytes have their checksum.
abbrev pub contents : {V : Type 0} → Sfs V → FilePath → Option File
contents s = stored_file s.directory s.block.ram_disk

pub record Mounted {V : Type 0} (s : Sfs V) : Type 0 where
  pub in_ram : s.block.use_virtio ≡ false
  pub ready : s.mounted ≡ true
  pub starts :
      (i : ℕ)
      → i < sfs_max_files
      → (s.directory.entries i).start_sector ≡ data_start_sector + i * file_sectors

pub sfs_checksum_same :
    (n : ℕ) (a b : Array ℕ) (i v : ℕ)
    → ((j : ℕ) → i ≤ j → j < i + n → a j ≡ b j)
    → sfs_checksum_from n a i v ≡ sfs_checksum_from n b i v
unfolding sfs_checksum_from
sfs_checksum_same zero a b i v h = refl
sfs_checksum_same (suc n) a b i v h =
    let first = h i (omega arith) (omega arith) in
    rw first (sfs_checksum_same n a b (suc i) _ (λ j l m. h j (omega arith) (omega arith)))

pub find_entry-inside :
    (d : SfsDirectory) (path : FilePath) (i : ℕ) → find_entry d path ≡ some i → i < sfs_max_files
unfolding find_entry
find_entry-inside d path i e =
    go (find_first (λ j. entry_named path (d.entries j)) sfs_max_files 0)
      (find_first-Finds _ sfs_max_files 0) e
  where
    go :
        (r : Option ℕ)
        → Finds (λ j. entry_named path (d.entries j)) sfs_max_files 0 r
        → r ≡ some i
        → i < sfs_max_files
    go none f e = absurd (ground arith)
    go (some k) (hit, low, high, rest) e = ground arith

-- The entry `i` is in use and has the path.
abbrev pub Names : SfsDirectory → FilePath → ℕ → Type 0
Names d path i =
    ((d.entries i).flags % 2 ≡ 1)
    × (path_equals (text_from sfs_max_path (d.entries i).path 0) path ≡ true)

-- It is the first such entry.
abbrev pub IsFirst : SfsDirectory → FilePath → ℕ → Type 0
IsFirst d path i = (i < sfs_max_files) × Names d path i × ((j : ℕ) → j < i → ¬ Names d path j)

entry_named-Names :
    (d : SfsDirectory) (path : FilePath) (i : ℕ)
    → (entry_named path (d.entries i) ≡ true) ↔ Names d path i
entry_named-Names d path i = (λ e. (ground arith, ground arith), λ n. ground (arith, n.0, n.1))

find_entry-missing :
    (d : SfsDirectory) (path : FilePath)
    → ((i : ℕ) → i < sfs_max_files → ¬ Names d path i)
    → find_entry d path ≡ none
unfolding find_entry
find_entry-missing d path h =
    go (find_first (λ j. entry_named path (d.entries j)) sfs_max_files 0)
      (find_first-Finds _ sfs_max_files 0)
  where
    go : (r : Option ℕ) → Finds (λ j. entry_named path (d.entries j)) sfs_max_files 0 r → r ≡ none
    go none f = refl
    go (some k) (hit, low, high, rest) =
        absurd (h k (omega arith) ((entry_named-Names d path k).0 hit))

find_entry-first :
    (d : SfsDirectory) (path : FilePath) (i : ℕ) → IsFirst d path i → find_entry d path ≡ some i
unfolding find_entry
find_entry-first d path i (inside, named, before) =
    find_first-first (λ j. entry_named path (d.entries j)) sfs_max_files i inside
      ((entry_named-Names d path i).1 named)
      (λ j l. elim (Bool-cases (entry_named path (d.entries j))) [
        | inl e ↦ absurd (before j l ((entry_named-Names d path j).0 e))
        | inr e ↦ e
      ])

-- What a read of a file gives: nothing when the buffer is too small.
abbrev pub given : Array ℕ → ℕ → Option File → Option File
given target capacity none = none
given target capacity (some (n, bytes)) =
    if ltb capacity n then none else some (n, λ j. if ltb j n then bytes j else target j)

check_read-file_at :
    (disk io : Array ℕ) (e : SfsEntry) (target : Array ℕ) (capacity : ℕ)
    → ltb capacity e.size ≡ false
    → ltb sfs_max_file_size e.size ≡ false
    → ((j : ℕ) → j < sfs_max_file_size → io j ≡ data_at disk e j)
    → check_read e io target ≡ given target capacity (file_at disk e)
unfolding check_read file_at sfs_checksum
check_read-file_at disk io e target capacity fits small same =
    let sums = sfs_checksum_same e.size io (data_at disk e) 0 0 (λ j l m. same j (ground arith)) in
    rw (small, sums)
      (elim (Bool-cases (sfs_checksum_from e.size (data_at disk e) 0 0 == e.checksum)) [
        | inl ok ↦
            rw (ok, fits)
              (ap (λ (b : Array ℕ). some (e.size, b)) (fun_ext λ j. ground (arith, same j)))
        | inr bad ↦ rw bad refl
      ])

module _ {V : Type 0} (dev : VirtioBlk V) where
  -- What a read of the entry `i` gives, and that it changes neither the disk nor the directory.
  abbrev Given : Sfs V → ℕ → Array ℕ → ℕ → Sfs V × Option File → Type 0
  Given s i target capacity (s', r) =
      (r ≡ given target capacity (file_at s.block.ram_disk (s.directory.entries i)))
      × (s'.block.ram_disk ≡ s.block.ram_disk)
      × (s'.directory ≡ s.directory)
      × Mounted s'

  too_large-Given :
      (disk : Array ℕ) (e : SfsEntry) (target : Array ℕ) (capacity : ℕ)
      → (ltb capacity e.size || ltb sfs_max_file_size e.size) ≡ true
      → none ≡ given target capacity (file_at disk e)
  unfolding file_at
  too_large-Given disk e target capacity large = ground (arith, large)

  read_entry-Given :
      (s : Sfs V) (i : ℕ) (target : Array ℕ) (capacity : ℕ)
      → Mounted s
      → i < sfs_max_files
      → Given s i target capacity (read_entry dev s (s.directory.entries i) target capacity)
  unfolding read_entry
  read_entry-Given s i target capacity m l =
      let e : SfsEntry = s.directory.entries i in
      let start = m.starts i l in
      let inside : in_range e.start_sector file_sectors ≡ true = ground (arith, start) in
      let (result, disk, ram) =
        block_read-fetched dev s.block m.in_ram e.start_sector s.io_buffer file_sectors in
      elim (Bool-cases (ltb capacity e.size || ltb sfs_max_file_size e.size)) [
        | inl large ↦
            rw large (too_large-Given s.block.ram_disk e target capacity large, refl, refl, m)
        | inr fits ↦
            rw (fits, result, inside)
              (
                check_read-file_at s.block.ram_disk
                    (fetched dev s.block m.in_ram e.start_sector s.io_buffer file_sectors) e target
                    capacity (ground arith) (ground arith) (λ j k. ground arith),
                disk,
                refl,
                record { in_ram = ram; ready = m.ready; starts = m.starts },
              )
      ]

  -- The same by the place that the search of the code finds.
  pub sfs_read_file-found :
      (s : Sfs V) (path : FilePath) (target : Array ℕ) (capacity : ℕ)
      → Mounted s
      → ((sfs_read_file dev s path (some target) capacity).1
          ≡ given target capacity (contents s path))
        × (contents (sfs_read_file dev s path (some target) capacity).0 ≡ contents s)
        × Mounted (sfs_read_file dev s path (some target) capacity).0
  unfolding sfs_read_file
  sfs_read_file-found s path target capacity m = elim (Option-cases (find_entry s.directory path)) [
    | inl missing ↦
        rw (m.ready, missing)
          (
            ap (given target capacity)
                (sym (stored_file-none s.directory s.block.ram_disk path missing)),
            refl,
            m,
          )
    | inr (i, found) ↦
        let (result, disk, dir, kept) =
          read_entry-Given s i target capacity m (find_entry-inside s.directory path i found) in
        rw (m.ready, found)
          (
            result
                ∙ ap (given target capacity)
                    (sym (stored_file-some s.directory s.block.ram_disk path i found)),
            rw (disk, dir) refl,
            kept,
          )
  ]

  sfs_read_file-null :
      (s : Sfs V) (path : FilePath) (capacity : ℕ)
      → sfs_read_file dev s path none capacity ≡ (s, none)
  unfolding sfs_read_file
  sfs_read_file-null s path capacity = elim (Bool-cases s.mounted) [
    | inl e ↦ simp e
    | inr e ↦ simp e
  ]

  -- What a read of the path promises, by the entries of the directory.
  pub record Reads (s : Sfs V) (path : FilePath) (target : Buffer) (capacity : ℕ)
      (r : Sfs V × Option File) : Type 0 where
    pub null : target ≡ none → r.1 ≡ none
    pub missing : ((i : ℕ) → i < sfs_max_files → ¬ Names s.directory path i) → r.1 ≡ none
    pub found :
        (b : Array ℕ) (i : ℕ)
        → target ≡ some b
        → IsFirst s.directory path i
        → r.1 ≡ given b capacity (file_at s.block.ram_disk (s.directory.entries i))
    pub files : contents r.0 ≡ contents s
    pub mounted : Mounted r.0

  -- On a mounted disk in RAM, `sfs_read_file` fails with a null buffer, and when no entry that is in use
  -- has the path. Otherwise it reads the first such entry: it fails when the size of the entry is above
  -- the capacity or above that of a file, or when the bytes of the entry do not have its checksum, and
  -- else gives the bytes of the entry's sectors, and behind them what the buffer held. No file is
  -- changed by it, and the disk stays mounted.
  pub sfs_read_file-Given :
      (s : Sfs V) (path : FilePath) (target : Buffer) (capacity : ℕ)
      → Mounted s
      → Reads s path target capacity (sfs_read_file dev s path target capacity)
  sfs_read_file-Given s path none capacity m =
      subst (Reads s path none capacity) (sym (sfs_read_file-null s path capacity)) (record {
        null = λ e. refl;
        missing = λ h. refl;
        found = λ b i e. absurd (cc);
        files = refl;
        mounted = m;
      })
  sfs_read_file-Given s path (some target) capacity m =
      let (result, files, mounted) = sfs_read_file-found s path target capacity m in
      record {
        null = λ e. absurd (cc);
        missing = λ h.
            result
            ∙ ap (given target capacity) (
                stored_file-none s.directory s.block.ram_disk path
                  (find_entry-missing s.directory path h));
        found = λ b i e first.
            result
            ∙ ap (given target capacity) (
                stored_file-some s.directory s.block.ram_disk path i
                  (find_entry-first s.directory path i first))
            ∙ ap
                (λ (a : Buffer).
                  given (buffer_bytes a) capacity
                    (file_at s.block.ram_disk (s.directory.entries i)))
                e;
        files = files;
        mounted = mounted;
      }
