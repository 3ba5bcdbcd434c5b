-- ===== src/Fs/Sfs/Empty.antt =====
-- `sfs_format` on the disk in RAM.
use saturn_os.Prelude.{
  ℕ, ◌+◌, ◌-◌, ◌*◌, ◌<◌, ◌≡◌, ◌∙◌, refl, ap, sym, subst, fun_ext, true, false, ◌&&◌, Option, none,
  some, ltb, leb, arith, Array, find_first, Finds, find_first-Finds, map_range_lem,
}
use saturn_os.Storage.Block.{VirtioBlk, ram_sectors, block_sector_count, block_write}
use saturn_os.Storage.Block.RamDisk.{stored, block_write-stored}
use saturn_os.Fs.Paths.{FilePath}
use saturn_os.Fs.Sfs.{
  Sfs, SfsEntry, SfsDirectory, sfs_max_files, formatted_entry, super_of, super_bytes,
  super_accepted, find_entry, entry_named, data_start_sector, file_sectors, super_sector,
  directory_bytes,
}
use saturn_os.Fs.Sfs.Format.{formatted, write_tables, sfs_format}
use saturn_os.Fs.Sfs.Contents.{Mounted, contents, stored_file-none}
use saturn_os.Fs.Sfs.Update.{with_directory}
use saturn_os.Fs.Sfs.Writes.{write_directory-Wrote}
use saturn_os.Fs.Sfs.Tables.{Word32}
use saturn_os.Fs.Sfs.Mount.{OnDisk}
use saturn_os.Fs.Sfs.Stored.{super_accepted-super_of}

-- An entry as `sfs_format` leaves it.
abbrev IsBlank : SfsEntry → ℕ → Type 0
IsBlank e i =
    (e.start_sector ≡ data_start_sector + i * file_sectors)
    × (e.size ≡ 0)
    × (e.checksum ≡ 0)
    × (e.flags ≡ 0)

find_entry-blank :
    (d : SfsDirectory) (q : FilePath)
    → ((i : ℕ) → i < sfs_max_files → IsBlank (d.entries i) i)
    → find_entry d q ≡ none
unfolding find_entry
find_entry-blank d q blank =
    go (find_first (λ i. entry_named q (d.entries i)) sfs_max_files 0)
      (find_first-Finds (λ i. entry_named q (d.entries i)) sfs_max_files 0)
  where
    go : (r : Option ℕ) → Finds (λ i. entry_named q (d.entries i)) sfs_max_files 0 r → r ≡ none
    go none f = refl
    go (some k) (hit, _, inside, _) =
        let (_, _, _, unused) = blank k (omega arith) in absurd (ground (arith, hit, unused))

-- A SaturnFS that was formatted: mounted, with its tables on the disk and no files.
pub record IsEmpty {V : Type 0} (s : Sfs V) : Type 0 where
  pub mounted : Mounted s
  pub on_disk : OnDisk s
  pub no_files : (q : FilePath) → contents s q ≡ none

blank-Word32 : (e : SfsEntry) (i : ℕ) → i < sfs_max_files → IsBlank e i → Word32 e
blank-Word32 e i l (start, size, checksum, flags) = record {
  start_sector = omega (arith, start);
  size = omega (arith, size);
  checksum = omega (arith, checksum);
  flags = omega (arith, flags);
}

module _ {V : Type 0} (dev : VirtioBlk V) where
  formatted-IsBlank :
      (s : Sfs V) (i : ℕ) → i < sfs_max_files → IsBlank ((formatted dev s).directory.entries i) i
  unfolding formatted formatted_entry
  formatted-IsBlank s i l =
      let now : (formatted dev s).directory.entries i ≡ formatted_entry i (s.directory.entries i) =
        map_range_lem formatted_entry sfs_max_files 0 s.directory.entries i ∙ ground arith in
      rw now (omega arith, refl, refl, refl)

  formatted-accepted :
      (s : Sfs V)
      → s.block.use_virtio ≡ false
      → super_accepted (super_of (super_bytes (formatted dev s).superblock)) ram_sectors ≡ true
  unfolding super_accepted super_of super_bytes formatted block_sector_count
  formatted-accepted s in_ram = rw in_ram refl

  -- What the two writes of `write_tables` store.
  abbrev tables : Sfs V → Array ℕ
  tables s =
      with_directory (stored s.block.ram_disk super_sector (super_bytes s.superblock) 1) s.directory

  write_tables-stored :
      (s : Sfs V)
      → s.block.use_virtio ≡ false
      → ((write_tables dev s).1 ≡ true)
        × ((write_tables dev s).0.directory ≡ s.directory)
        × ((write_tables dev s).0.block.ram_disk ≡ tables s)
        × ((write_tables dev s).0.block.use_virtio ≡ false)
  unfolding write_tables
  write_tables-stored s in_ram =
      let (done, disk, ram) =
        block_write-stored dev s.block in_ram super_sector (super_bytes s.superblock) 1 in
      let (written, dir, disk₂, ram₂, _) =
        write_directory-Wrote dev
          (record s {
            block = (block_write dev s.block super_sector (some (super_bytes s.superblock)) 1).0;
          })
          ram in
      rw done (
        written,
        dir,
        disk₂ ∙ ap (λ (d : Array ℕ). with_directory d s.directory) (fun_ext disk),
        ram₂,
      )

  formatted-IsEmpty :
      (s s' : Sfs V)
      → s.block.use_virtio ≡ false
      → s'.directory ≡ (formatted dev s).directory
      → s'.block.ram_disk ≡ tables (formatted dev s)
      → s'.block.use_virtio ≡ false
      → s'.mounted ≡ true
      → IsEmpty s'
  formatted-IsEmpty s s' in_ram dir disk ram ready = record {
    mounted = record { in_ram = ram; ready = ready; starts = λ i l. (blank i l).0 };
    on_disk = record {
      super =
          super_accepted-super_of s'.block.ram_disk (super_bytes (formatted dev s).superblock)
            ram_sectors (λ j l. ap (λ (d : Array ℕ). d j) disk ∙ ground arith)
          ∙ formatted-accepted s in_ram;
      table = λ j l.
          ap (λ (d : Array ℕ). d (512 + j)) disk
          ∙ table_now j l
          ∙ ap (λ d. directory_bytes d j) (sym dir);
      words = λ i l. blank-Word32 (s'.directory.entries i) i l (blank i l);
    };
    no_files = λ q.
        stored_file-none s'.directory s'.block.ram_disk q (find_entry-blank s'.directory q blank);
  }
    where
      blank : (i : ℕ) → i < sfs_max_files → IsBlank (s'.directory.entries i) i
      blank i l =
          subst (λ (d : SfsDirectory). IsBlank (d.entries i) i) (sym dir) (formatted-IsBlank s i l)

      table_now :
          (j : ℕ)
          → j < 512
          → tables (formatted dev s) (512 + j) ≡ directory_bytes (formatted dev s).directory j
      table_now j l =
          let inside : (leb 512 (512 + j) && ltb (512 + j) 1024) ≡ true = ground arith in
          let place : 512 + j - 512 ≡ j = omega arith in rw (inside, place) refl

  -- On the disk in RAM `sfs_format` succeeds: it leaves SaturnFS mounted, with its tables on the disk and
  -- without a file at any path.
  pub sfs_format-IsEmpty :
      (s : Sfs V)
      → s.block.use_virtio ≡ false
      → ((sfs_format dev s).1 ≡ true) × IsEmpty (sfs_format dev s).0
  unfolding sfs_format block_sector_count formatted
  sfs_format-IsEmpty s in_ram =
      let enough : ltb (block_sector_count dev s.block)
            (data_start_sector + sfs_max_files * file_sectors)
          ≡ false =
        rw in_ram refl in
      let (done, dir, disk, ram) = write_tables-stored (formatted dev s) in_ram in
      rw (enough, done) (refl, formatted-IsEmpty s _ in_ram dir disk ram refl)
