-- ===== src/Fs/Sfs/Format.antt =====
-- `sfs_format`, `sfs_init` and `write_directory` of kernel/fs/sfs.c.
use saturn_os.Prelude.{
  ℕ, ◌+◌, ◌*◌, ◌%◌, ◌^◌, Bool, true, false, not, ◌&&◌, none, some, ltb, ◌==◌, if◌then◌else◌, Array,
  map_range,
}
use saturn_os.Storage.Block.{VirtioBlk, block_read, block_write, block_sector_count}
use saturn_os.Fs.Sfs.{
  SuperBlock, Sfs, sfs_magic, sfs_version, super_sector, directory_sector, data_start_sector,
  sfs_max_files, file_sectors, directory_bytes, directory_of, super_bytes, super_of,
  formatted_entry, super_accepted,
}

module _ {V : Type 0} (dev : VirtioBlk V) where
  unfoldable pub write_directory : Sfs V → Sfs V × Bool
  write_directory s =
      let (b, done) =
        block_write dev s.block directory_sector (some (directory_bytes s.directory)) 1 in
      (record s { block = b }, done)

  -- The tables that `sfs_format` writes.
  unfoldable pub formatted : Sfs V → Sfs V
  formatted s = record s {
    superblock = record {
      magic = sfs_magic;
      version = sfs_version;
      sector_size = 512;
      total_sectors = block_sector_count dev s.block % 2 ^ 32;
      max_files = sfs_max_files;
      data_start = data_start_sector;
      reserved = λ i. if ltb i 488 then 0 else s.superblock.reserved i;
    };
    directory = record {
      entries = map_range formatted_entry sfs_max_files 0 s.directory.entries;
      reserved = λ i. if ltb i 32 then 0 else s.directory.reserved i;
    };
  }

  unfoldable pub write_tables : Sfs V → Sfs V × Bool
  write_tables s =
      let (b, done) = block_write dev s.block super_sector (some (super_bytes s.superblock)) 1 in
      if done then write_directory (record s { block = b }) else (record s { block = b }, false)

  unfoldable pub sfs_format : Sfs V → Sfs V × Bool
  sfs_format s =
      if ltb (block_sector_count dev s.block) (data_start_sector + sfs_max_files * file_sectors)
      then (record s { mounted = false }, false)
      else let (s', done) = write_tables (formatted s) in (record s' { mounted = done }, done)

  -- The end of `sfs_init`: the directory is read, and the superblock kept.
  unfoldable pub mount_super : Sfs V → SuperBlock → Sfs V
  mount_super s super =
      let (b, r) = block_read dev s.block directory_sector (some (directory_bytes s.directory)) 1 in
      elim r [
        | none ↦ record s { block = b }
        | some bytes ↦ record s {
          block = b;
          directory = directory_of bytes;
          superblock = super;
          mounted = true;
        }
      ]

  -- What `sfs_init` does with the superblock of the disk.
  unfoldable pub init_super : Sfs V → SuperBlock → Sfs V
  init_super s super =
      if (super.magic == 0) && (super.version == 0)
      then (sfs_format s).0
      else if not (super_accepted super (block_sector_count dev s.block))
      then s
      else mount_super s super

  -- `fill` is what the local buffer holds before the read.
  unfoldable pub sfs_init : Sfs V → Array ℕ → Sfs V
  sfs_init s fill =
      let (b, r) = block_read dev s.block super_sector (some fill) 1 in
      elim r [
        | none ↦ record s { block = b; mounted = false }
        | some bytes ↦ init_super (record s { block = b; mounted = false }) (super_of bytes)
      ]
