-- ===== src/Storage/Block.antt =====
-- kernel/storage/block.c: sectors that are read from and written to a disk in RAM, or a virtio
-- device where there is one. `ram_disk` is the array of its bytes, one sector behind the other.
pub mod RamDisk
pub mod SelfTest
pub mod Examples
use Prim.Native.Nat.{bit_xor}
use saturn_os.Prelude.{
  ℕ, zero, suc, ◌+◌, ◌-◌, ◌*◌, ◌%◌, Bool, true, false, not, ◌&&◌, ◌||◌, Option, none, some, ltb,
  leb, ◌==◌, if◌then◌else◌, Array, add64, sub64,
}

abbrev pub sector_size : ℕ
sector_size = 512

abbrev pub ram_sectors : ℕ
ram_sectors = 128

-- What block.c uses of drivers/storage/virtio_blk.h; a read gives the bytes of the buffer, or `none`
-- when the device fails.
pub record VirtioBlk (V : Type 0) : Type 0 where
  pub virtio_blk_init : V → V × Bool
  pub virtio_blk_read : V → ℕ → Array ℕ → ℕ → V × Option (Array ℕ)
  pub virtio_blk_write : V → ℕ → Array ℕ → ℕ → V × Bool
  pub virtio_blk_sector_count : V → ℕ

pub record BlockStats : Type 0 where
  pub reads : ℕ
  pub writes : ℕ
  pub read_sectors : ℕ
  pub written_sectors : ℕ
  pub rejected : ℕ
  pub self_test_passed : Bool

pub record Block (V : Type 0) : Type 0 where
  pub ram_disk : Array ℕ
  pub stats : BlockStats
  pub use_virtio : Bool
  pub device : V

-- `for (i = 0; i < BLOCK_SECTOR_SIZE; i++) target[to + i] = source[from + i];`
unfoldable pub copy_bytes : ℕ → Array ℕ → ℕ → Array ℕ → ℕ → Array ℕ
copy_bytes n target to source from j =
    if leb to j && ltb j (to + n) then source (from + (j - to)) else target j

-- The loop over the sectors, with the rounds that are left.
unfoldable pub copy_sectors : ℕ → Array ℕ → ℕ → Array ℕ → ℕ → Array ℕ
copy_sectors zero target to source from = target
copy_sectors (suc rounds) target to source from =
    copy_sectors rounds (copy_bytes sector_size target to source from) (to + sector_size) source
      (from + sector_size)

unfoldable pub reject : {V : Type 0} → Block V → Block V
reject b = record b { stats = record b.stats { rejected = add64 b.stats.rejected 1 } }

unfoldable pub count_read : {V : Type 0} → ℕ → Block V → Block V
count_read n b = record b {
  stats = record b.stats {
    reads = add64 b.stats.reads 1;
    read_sectors = add64 b.stats.read_sectors n;
  };
}

unfoldable pub count_write : {V : Type 0} → ℕ → Block V → Block V
count_write n b = record b {
  stats = record b.stats {
    writes = add64 b.stats.writes 1;
    written_sectors = add64 b.stats.written_sectors n;
  };
}

-- `(unsigned char)(i ^ 0xA5U)`
abbrev pub pattern_byte : ℕ → ℕ
pattern_byte i = bit_xor i 0xa5 % 256

-- Whether the first `n` bytes of a buffer are the pattern.
unfoldable pub has_pattern : ℕ → Array ℕ → Bool
has_pattern zero result = true
has_pattern (suc n) result = (result n == pattern_byte n) && has_pattern n result

abbrev pub absent : Option (Array ℕ) → Bool
absent none = true
absent (some buffer) = false

module _ {V : Type 0} (dev : VirtioBlk V) where
  unfoldable pub block_sector_count : Block V → ℕ
  block_sector_count b = if b.use_virtio then dev.virtio_blk_sector_count b.device else ram_sectors

  unfoldable pub block_init : Block V → Block V
  block_init b =
      let (device, found) = dev.virtio_blk_init b.device in
      record {
        ram_disk = if found then b.ram_disk else λ j.
            if ltb j (ram_sectors * sector_size) then 0 else b.ram_disk j;
        stats = record {
          reads = 0;
          writes = 0;
          read_sectors = 0;
          written_sectors = 0;
          rejected = 0;
          self_test_passed = false;
        };
        use_virtio = found;
        device = device;
      }

  unfoldable pub refused : Block V → ℕ → Option (Array ℕ) → ℕ → Bool
  refused b sector buffer count =
      absent buffer
      || (count == 0)
      || leb (block_sector_count b) sector
      || ltb (block_sector_count b - sector) count

  unfoldable pub virtio_read : Block V → ℕ → Array ℕ → ℕ → Block V × Option (Array ℕ)
  virtio_read b sector buffer count =
      let (device, r) = dev.virtio_blk_read b.device sector buffer count in
      elim r [
        | none ↦ (reject (record b { device = device }), none)
        | some read ↦ (count_read count (record b { device = device }), some read)
      ]

  unfoldable pub read_buffer : Block V → ℕ → Array ℕ → ℕ → Block V × Option (Array ℕ)
  read_buffer b sector buffer count = if b.use_virtio then virtio_read b sector buffer count else (
    count_read count b,
    some (copy_sectors count buffer 0 b.ram_disk (sector * sector_size)),
  )

  -- The bytes of the buffer afterwards, or `none` for the result 0.
  unfoldable pub block_read : Block V → ℕ → Option (Array ℕ) → ℕ → Block V × Option (Array ℕ)
  block_read b sector none count = (reject b, none)
  block_read b sector (some buffer) count =
      if refused b sector (some buffer) count
      then (reject b, none)
      else read_buffer b sector buffer count

  unfoldable pub virtio_write : Block V → ℕ → Array ℕ → ℕ → Block V × Bool
  virtio_write b sector buffer count =
      let (device, done) = dev.virtio_blk_write b.device sector buffer count in
      if done
      then (count_write count (record b { device = device }), true)
      else (reject (record b { device = device }), false)

  unfoldable pub write_buffer : Block V → ℕ → Array ℕ → ℕ → Block V × Bool
  write_buffer b sector buffer count =
      if b.use_virtio then virtio_write b sector buffer count else (
        count_write count
            (record b { ram_disk = copy_sectors count b.ram_disk (sector * sector_size) buffer 0 }),
        true,
      )

  unfoldable pub block_write : Block V → ℕ → Option (Array ℕ) → ℕ → Block V × Bool
  block_write b sector none count = (reject b, false)
  block_write b sector (some buffer) count =
      if refused b sector (some buffer) count
      then (reject b, false)
      else write_buffer b sector buffer count

  -- The end of `block_self_test`: the saved sector is written back.
  unfoldable pub restore_sector : Block V → ℕ → Array ℕ → Bool → Block V × Bool
  restore_sector b sector saved passed =
      let (b', done) = block_write b sector (some saved) 1 in
      let result : Bool = passed && done in
      (record b' { stats = record b'.stats { self_test_passed = result } }, result)

  -- The part of `block_self_test` behind the first read; `fill` is what the buffers held before.
  unfoldable pub test_sector : Block V → ℕ → Array ℕ → Array ℕ → Block V × Bool
  test_sector b sector saved fill =
      let (b₁, wrote) = block_write b sector (some pattern_byte) 1 in
      if not wrote
      then restore_sector b₁ sector saved false
      else let (b₂, r) = block_read b₁ sector (some fill) 1 in
        elim r [
          | none ↦ restore_sector b₂ sector saved false
          | some result ↦ restore_sector b₂ sector saved (has_pattern sector_size result)
        ]

  unfoldable pub self_test_at : Block V → ℕ → Array ℕ → Block V × Bool
  self_test_at b sector fill =
      let (b', r) = block_read b sector (some fill) 1 in
      elim r [ none ↦ (b', false) | some saved ↦ test_sector b' sector saved fill ]

  unfoldable pub block_self_test : Block V → Array ℕ → Block V × Bool
  block_self_test b fill = self_test_at b (sub64 (block_sector_count b) 1) fill
