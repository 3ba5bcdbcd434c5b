-- ===== src/Storage/Block/Examples.antt =====
-- The theorems of the block device at a concrete disk. Its `device` is a device that is not there.
use saturn_os.Prelude.{ℕ, ◌*◌, ◌≡◌, Bool, true, false, none, some, refl, ltb, if◌then◌else◌}
use saturn_os.Storage.Block.{
  VirtioBlk, Block, sector_size, block_read, block_write, block_self_test,
}
use saturn_os.Storage.Block.RamDisk.{in_range, stored, block_write-stored, block_read-block_write}
use saturn_os.Storage.Block.SelfTest.{block_self_test-passes}

abbrev pub no_device : VirtioBlk Bool
no_device = record {
  virtio_blk_init = λ v. (v, false);
  virtio_blk_read = λ v sector buffer count. (v, none);
  virtio_blk_write = λ v sector buffer count. (v, false);
  virtio_blk_sector_count = λ v. 0;
}

abbrev pub ram_block : Block Bool
ram_block = record {
  ram_disk = λ j. 0;
  stats = record {
    reads = 0;
    writes = 0;
    read_sectors = 0;
    written_sectors = 0;
    rejected = 0;
    self_test_passed = false;
  };
  use_virtio = false;
  device = false;
}

block_read-block_write_example :
    (block_read no_device
      (block_write no_device ram_block 3 (some (λ j. j)) 2).0
      3
      (some (λ j. 9))
      2).1
    ≡ some (λ j. if ltb j (2 * sector_size) then j else 9)
block_read-block_write_example =
    block_read-block_write no_device ram_block refl 3 (λ j. j) (λ j. 9) 2 refl

block_write-stored_example :
    ((block_write no_device ram_block 127 (some (λ j. j)) 2).1 ≡ in_range 127 2)
    × ((j : ℕ)
        → (block_write no_device ram_block 127 (some (λ k. k)) 2).0.ram_disk j
          ≡ (if in_range 127 2 then stored ram_block.ram_disk 127 (λ k. k) 2 j else 0))
    × ((block_write no_device ram_block 127 (some (λ j. j)) 2).0.use_virtio ≡ false)
block_write-stored_example = block_write-stored no_device ram_block refl 127 (λ j. j) 2

block_self_test-passes_example :
    ((block_self_test no_device ram_block (λ j. 1)).1 ≡ true)
    × ((j : ℕ) → (block_self_test no_device ram_block (λ k. 1)).0.ram_disk j ≡ 0)
block_self_test-passes_example = block_self_test-passes no_device ram_block (λ j. 1) refl
