-- ===== src/Fs/Sfs/Mount.antt =====
-- `sfs_init` on a disk in RAM that holds the tables of SaturnFS.
use saturn_os.Prelude.{
  ℕ, ◌+◌, ◌<◌, ◌≡◌, ◌∙◌, refl, ap, true, false, ◌&&◌, ltb, ◌==◌, arith, if◌then◌else◌, Array,
}
use saturn_os.Storage.Block.{Block, VirtioBlk, ram_sectors, block_sector_count}
use saturn_os.Storage.Block.RamDisk.{fetched, block_read-fetched}
use saturn_os.Fs.Paths.{FilePath}
use saturn_os.Fs.Sfs.{
  Sfs, SuperBlock, sfs_max_files, super_sector, directory_sector, directory_bytes, directory_of,
  super_of, super_accepted,
}
use saturn_os.Fs.Sfs.Format.{sfs_init, init_super, mount_super}
use saturn_os.Fs.Sfs.Contents.{contents, Mounted}
use saturn_os.Fs.Sfs.Tables.{Word32, SameEntry, entry_at-SameEntry, stored_file-SameEntry}

-- The disk holds a superblock that `sfs_init` accepts, and the directory.
pub record OnDisk {V : Type 0} (s : Sfs V) : Type 0 where
  pub super : super_accepted (super_of s.block.ram_disk) ram_sectors ≡ true
  pub table : (j : ℕ) → j < 512 → s.block.ram_disk (512 + j) ≡ directory_bytes s.directory j
  pub words : (i : ℕ) → i < sfs_max_files → Word32 (s.directory.entries i)

-- What `s` is once its disk is mounted again.
pub record Remounts {V : Type 0} (s s' : Sfs V) : Type 0 where
  pub files : (q : FilePath) → contents s' q ≡ contents s q
  pub mounted : Mounted s'

module _ {V : Type 0} (dev : VirtioBlk V) where
  mount_super-Remounts :
      (s t : Sfs V) (super : SuperBlock)
      → Mounted s
      → OnDisk s
      → t.block.ram_disk ≡ s.block.ram_disk
      → t.block.use_virtio ≡ false
      → Remounts s (mount_super dev t super)
  unfolding mount_super directory_of
  mount_super-Remounts s t super m o same in_ram =
      let (result, disk, ram) =
        block_read-fetched dev t.block in_ram directory_sector (directory_bytes t.directory) 1 in
      let bytes : Array ℕ =
        fetched dev t.block in_ram directory_sector (directory_bytes t.directory) 1 in
      let table : (j : ℕ) → j < 512 → bytes j ≡ directory_bytes s.directory j =
        λ j l. ground (arith, o.table j l, ap (λ d. d (512 + j)) same) in
      let entries : (i : ℕ)
          → i < sfs_max_files
          → SameEntry (s.directory.entries i) ((directory_of bytes).entries i) =
        λ i l. entry_at-SameEntry bytes s.directory table i l (o.words i l) in
      rw (result, mount_super)
        (record {
          files = λ q.
              rw (disk ∙ same)
                (stored_file-SameEntry s.block.ram_disk s.directory (directory_of bytes) q entries);
          mounted = record {
            in_ram = ram;
            ready = refl;
            starts = λ i l. (entries i l).start_sector ∙ m.starts i l;
          };
        })

  init_super-Remounts :
      (s t : Sfs V) (super : SuperBlock)
      → Mounted s
      → OnDisk s
      → super_accepted super ram_sectors ≡ true
      → t.block.ram_disk ≡ s.block.ram_disk
      → t.block.use_virtio ≡ false
      → Remounts s (init_super dev t super)
  unfolding init_super super_accepted block_sector_count
  init_super-Remounts s t super m o accepted same in_ram =
      let not_blank : ((super.magic == 0) && (super.version == 0)) ≡ false =
        ground (arith, accepted) in
      let sectors : block_sector_count dev t.block ≡ ram_sectors = rw in_ram refl in
      rw (not_blank, sectors, accepted) (mount_super-Remounts s t super m o same in_ram)

  -- When the disk in RAM of a mounted SaturnFS, with its superblock and its directory stored on it, is
  -- there as `sfs_init` runs, whatever the other variables are, then SaturnFS is mounted and every path has
  -- the file that it had.
  pub sfs_init-Remounts :
      (s t : Sfs V) (fill : Array ℕ)
      → Mounted s
      → OnDisk s
      → t.block ≡ s.block
      → Remounts s (sfs_init dev t fill)
  unfolding sfs_init super_of super_accepted
  sfs_init-Remounts s t fill m o same =
      let in_ram : t.block.use_virtio ≡ false = rw same m.in_ram in
      let (result, disk, ram) = block_read-fetched dev t.block in_ram super_sector fill 1 in
      let bytes : Array ℕ = fetched dev t.block in_ram super_sector fill 1 in
      let accepted : super_accepted (super_of bytes) ram_sectors ≡ true =
        ap
          (λ (b : Block V).
            super_accepted (super_of (λ j. if ltb j 512 then b.ram_disk j else fill j)) ram_sectors)
          same
        ∙ o.super in
      rw (result, sfs_init)
        (init_super-Remounts s _ (super_of bytes) m o accepted
          (disk ∙ ap (λ (b : Block V). b.ram_disk) same) ram)
