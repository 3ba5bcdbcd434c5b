-- ===== src/Fs/Sfs/Stored.antt =====
-- What the disk in RAM holds after `sfs_write_file`.
use saturn_os.Prelude.{
  ℕ, zero, suc, ◌+◌, ◌-◌, ◌^◌, ◌≤◌, ◌<◌, ◌≡◌, ◌∙◌, refl, ap, sym, subst, Bool, true, ◌&&◌, inl, inr,
  ltb, leb, ◌==◌, arith, Array, Bool-cases, Option-cases, word32_at,
}
use saturn_os.Storage.Block.{VirtioBlk, ram_sectors}
use saturn_os.Fs.Paths.{FilePath}
use saturn_os.Fs.Disk.{Buffer}
use saturn_os.Fs.Sfs.{
  Sfs, SfsEntry, SfsDirectory, sfs_max_files, entry_for, super_of, super_accepted, sfs_checksum,
  sfs_checksum_from, sfs_checksum_step, directory_bytes, buffer_bytes, filled,
}
use saturn_os.Fs.Sfs.Files.{sfs_write_file, write_entry, written_entry}
use saturn_os.Fs.Sfs.Contents.{Mounted}
use saturn_os.Fs.Sfs.Entries.{entry_for-Fits}
use saturn_os.Fs.Sfs.Update.{new_directory, with_directory, with_file}
use saturn_os.Fs.Sfs.Writes.{
  refuses, Wrote, write_entry-Wrote, sfs_write_file-full, sfs_write_file-entry,
}
use saturn_os.Fs.Sfs.Tables.{Word32}
use saturn_os.Fs.Sfs.Mount.{OnDisk}

word32_at_same :
    (a b : Array ℕ) (i : ℕ)
    → ((j : ℕ) → j < 24 → a j ≡ b j)
    → i + 4 ≤ 24
    → word32_at a i ≡ word32_at b i
word32_at_same a b i same l =
    let s0 = same i (omega arith) in
    let s1 = same (i + 1) (omega arith) in
    let s2 = same (i + 2) (omega arith) in
    let s3 = same (i + 3) (omega arith) in rw (s0, s1, s2, s3) refl

-- The check of the superblock reads the first 24 bytes.
pub super_accepted-super_of :
    (a b : Array ℕ) (sectors : ℕ)
    → ((j : ℕ) → j < 24 → a j ≡ b j)
    → super_accepted (super_of a) sectors ≡ super_accepted (super_of b) sectors
unfolding super_accepted super_of
super_accepted-super_of a b sectors same =
    let word : (i : ℕ) → i + 4 ≤ 24 → word32_at a i ≡ word32_at b i =
      λ i l. word32_at_same a b i same l in
    rw
      (
        word 0 (omega arith),
        word 4 (omega arith),
        word 8 (omega arith),
        word 12 (omega arith),
        word 16 (omega arith),
        word 20 (omega arith),
      )
      refl

sfs_checksum_bound :
    (n : ℕ) (bytes : Array ℕ) (i v : ℕ) → v < 2 ^ 32 → sfs_checksum_from n bytes i v < 2 ^ 32
unfolding sfs_checksum_from sfs_checksum_step
sfs_checksum_bound zero bytes i v l = l
sfs_checksum_bound (suc n) bytes i v l =
    sfs_checksum_bound n bytes (suc i) (sfs_checksum_step v (bytes i)) (omega arith)

written_entry-Word32 :
    (e : SfsEntry) (path : FilePath) (b : Buffer) (size : ℕ)
    → Word32 e
    → Word32 (written_entry e path b size)
unfolding written_entry sfs_checksum
written_entry-Word32 e path b size w = record {
  start_sector = w.start_sector;
  size = omega arith;
  checksum = sfs_checksum_bound size (buffer_bytes b) 0 0 (omega arith);
  flags = omega arith;
}

module _ {V : Type 0} (dev : VirtioBlk V) where
  Wrote-OnDisk :
      (s : Sfs V) (path : FilePath) (b : Buffer) (size i : ℕ) (r : Sfs V × Bool)
      → OnDisk s
      → Wrote dev s path b size i r
      → OnDisk r.0
  Wrote-OnDisk s path b size i (s', done) o (_, dir, disk, _, _) = record {
    super =
        super_accepted-super_of s'.block.ram_disk s.block.ram_disk ram_sectors
          (λ j l. ap (λ (d : Array ℕ). d j) disk ∙ ground arith)
        ∙ o.super;
    table = λ j l.
        ap (λ (d : Array ℕ). d (512 + j)) disk
        ∙ table_now j l
        ∙ ap (λ d. directory_bytes d j) (sym dir);
    words = λ k l. subst (λ (d : SfsDirectory). Word32 (d.entries k)) (sym dir) (words_now k l);
  }
    where
      d' : SfsDirectory
      d' = new_directory s.directory i path b size

      table_now :
          (j : ℕ)
          → j < 512
          → with_directory (with_file s.block.ram_disk i (filled b size s.io_buffer)) d' (512 + j)
            ≡ directory_bytes d' j
      table_now j l =
          let inside : (leb 512 (512 + j) && ltb (512 + j) 1024) ≡ true = ground arith in
          let place : 512 + j - 512 ≡ j = omega arith in rw (inside, place) refl

      words_now : (k : ℕ) → k < sfs_max_files → Word32 (d'.entries k)
      words_now k l = elim (Bool-cases (k == i)) [
        | inl e ↦
            let here : k ≡ i = ground arith in
            rw e (
              written_entry-Word32 (s.directory.entries i) path b size
                (subst (λ n. Word32 (s.directory.entries n)) here (o.words k l)))
        | inr e ↦ rw e (o.words k l)
      ]

  -- `sfs_write_file` keeps the superblock and the directory stored on a mounted disk in RAM.
  pub sfs_write_file-OnDisk :
      (s : Sfs V) (path : FilePath) (b : Buffer) (size : ℕ)
      → Mounted s
      → OnDisk s
      → OnDisk (sfs_write_file dev s path b size).0
  unfolding sfs_write_file
  sfs_write_file-OnDisk s path b size m o = elim (Bool-cases (refuses dev s path b size)) [
    | inl refused ↦ rw refused o
    | inr allowed ↦ elim (Option-cases (entry_for s.directory path)) [
      | inl full ↦ rw (sfs_write_file-full dev s path b size allowed full) o
      | inr (i, e) ↦
          let fits = entry_for-Fits s.directory path i e in
          rw (sfs_write_file-entry dev s path b size i allowed e) (
            Wrote-OnDisk s path b size i (write_entry dev s i path b size) o
              (write_entry-Wrote dev s path b size i m fits.inside))
    ]
  ]
