-- ===== src/Storage/Block/SelfTest.antt =====
-- The test of the block device that runs when the kernel starts, on the disk in RAM.
use saturn_os.Prelude.{
  ℕ, zero, suc, ◌+◌, ◌-◌, ◌*◌, ◌<◌, ◌≡◌, refl, ap, Bool, true, false, some, arith, Array, sub64,
}
use saturn_os.Storage.Block.{
  Block, VirtioBlk, sector_size, ram_sectors, block_sector_count, block_read, block_write,
  pattern_byte, has_pattern, restore_sector, test_sector, block_self_test, self_test_at,
}
use saturn_os.Storage.Block.RamDisk.{block_write-stored, block_read-fetched, stored, fetched}

abbrev last : ℕ
last = ram_sectors - 1

has_pattern-true :
    (n : ℕ) (r : Array ℕ) → ((j : ℕ) → j < n → r j ≡ pattern_byte j) → has_pattern n r ≡ true
unfolding has_pattern
has_pattern-true zero r h = refl
has_pattern-true (suc n) r h =
    let first = h n (omega arith) in
    let rest = has_pattern-true n r (λ j l. h j (omega arith)) in ground (arith, first, rest)

module _ {V : Type 0} (dev : VirtioBlk V) where
  restored :
      (b : Block V) (saved : Array ℕ) (passed : Bool)
      → b.use_virtio ≡ false
      → ((restore_sector dev b last saved passed).1 ≡ passed)
        × ((j : ℕ)
            → (restore_sector dev b last saved passed).0.ram_disk j
              ≡ stored b.ram_disk last saved 1 j)
  unfolding restore_sector
  restored b saved passed in_ram =
      let (done, disk, _) = block_write-stored dev b in_ram last saved 1 in
      (rw done (ground arith), disk)

  tested :
      (b : Block V) (saved fill : Array ℕ)
      → b.use_virtio ≡ false
      → ((test_sector dev b last saved fill).1 ≡ true)
        × ((j : ℕ)
            → (test_sector dev b last saved fill).0.ram_disk j ≡ stored b.ram_disk last saved 1 j)
  unfolding test_sector
  tested b saved fill in_ram =
      let (done, disk, ram) = block_write-stored dev b in_ram last pattern_byte 1 in
      let b₁ : Block V = (block_write dev b last (some pattern_byte) 1).0 in
      let (result, disk₂, ram₂) = block_read-fetched dev b₁ ram last fill 1 in
      let b₂ : Block V = (block_read dev b₁ last (some fill) 1).0 in
      let same : has_pattern sector_size (fetched dev b₁ ram last fill 1) ≡ true =
        has_pattern-true sector_size (fetched dev b₁ ram last fill 1)
          (λ j l. ground (arith, disk (last * sector_size + j))) in
      let (passed, disk₃) = restored b₂ saved true ram₂ in
      rw (done, result, same) (passed, λ j. ground (arith, disk₃ j, disk j, disk₂))

  tested_at :
      (b : Block V) (fill : Array ℕ)
      → b.use_virtio ≡ false
      → ((self_test_at dev b last fill).1 ≡ true)
        × ((j : ℕ) → (self_test_at dev b last fill).0.ram_disk j ≡ b.ram_disk j)
  unfolding self_test_at
  tested_at b fill in_ram =
      let (result, disk, ram) = block_read-fetched dev b in_ram last fill 1 in
      let b₁ : Block V = (block_read dev b last (some fill) 1).0 in
      let (passed, disk₂) = tested b₁ (fetched dev b in_ram last fill 1) fill ram in
      rw (self_test_at, result) (passed, λ j. ground (arith, disk₂ j, ap (λ d. d j) disk))

  last_sector : (b : Block V) → b.use_virtio ≡ false → sub64 (block_sector_count dev b) 1 ≡ last
  unfolding block_sector_count
  last_sector b in_ram = rw in_ram refl

  -- On the disk in RAM `block_self_test` passes, and every byte of the disk is as before.
  pub block_self_test-passes :
      (b : Block V) (fill : Array ℕ)
      → b.use_virtio ≡ false
      → ((block_self_test dev b fill).1 ≡ true)
        × ((j : ℕ) → (block_self_test dev b fill).0.ram_disk j ≡ b.ram_disk j)
  unfolding block_self_test
  block_self_test-passes b fill in_ram = rw (last_sector b in_ram) (tested_at b fill in_ram)
