-- ===== src/Storage/Block/RamDisk.antt =====
-- The disk in RAM: what a write stores and what a read gives.
use saturn_os.Prelude.{
  ℕ, zero, suc, ◌+◌, ◌-◌, ◌*◌, ◌≡◌, ◌∙◌, refl, ap, fun_ext, Bool, true, false, not, ◌&&◌, none,
  some, inl, inr, ltb, leb, arith, ◌==◌, if◌then◌else◌, Array, Bool-cases,
}
use saturn_os.Storage.Block.{
  Block, VirtioBlk, sector_size, ram_sectors, copy_bytes, copy_sectors, reject, count_read,
  count_write, block_sector_count, refused, read_buffer, block_read, write_buffer, block_write,
}

-- The loop over the sectors copies one range of bytes.
pub copy_sectors_lem :
    (n : ℕ) (target : Array ℕ) (to : ℕ) (source : Array ℕ) (from j : ℕ)
    → copy_sectors n target to source from j
      ≡ (if leb to j && ltb j (to + n * sector_size) then source (from + (j - to)) else target j)
unfolding copy_sectors copy_bytes
copy_sectors_lem zero target to source from j = ground arith
copy_sectors_lem (suc n) target to source from j =
    let behind =
      copy_sectors_lem n (copy_bytes sector_size target to source from) (to + sector_size) source
        (from + sector_size) j in
    elim (Bool-cases (leb to j && ltb j (to + suc n * sector_size))) [
      | inl inside ↦ elim (Bool-cases (leb (to + sector_size) j)) [
        | inl later ↦
            let at : from + sector_size + (j - (to + sector_size)) ≡ from + (j - to) =
              ground arith in
            ground (arith, behind, ap source at)
        | inr first ↦ ground (arith, behind)
      ]
      | inr out ↦ ground (arith, behind)
    ]

abbrev pub in_range : ℕ → ℕ → Bool
in_range sector count = not (count == 0) && leb (sector + count) ram_sectors

-- The byte `j` of the disk once `count` sectors of `source` have been written.
abbrev pub stored : Array ℕ → ℕ → Array ℕ → ℕ → Array ℕ
stored disk sector source count j =
    if leb (sector * sector_size) j && ltb j ((sector + count) * sector_size)
    then source (j - sector * sector_size)
    else disk j

module _ {V : Type 0} (dev : VirtioBlk V) (b : Block V) (in_ram : b.use_virtio ≡ false) where
  refused_lem :
      (sector : ℕ) (source : Array ℕ) (count : ℕ)
      → refused dev b sector (some source) count ≡ not (in_range sector count)
  unfolding refused block_sector_count
  refused_lem sector source count = ground (arith, in_ram)

  -- On the disk in RAM `block_write` answers 1 exactly for a range of sectors of the disk that is not
  -- empty; it stores the bytes of the buffer there and leaves the others, and otherwise it changes
  -- none. The disk stays one in RAM.
  pub block_write-stored :
      (sector : ℕ) (source : Array ℕ) (count : ℕ)
      → ((block_write dev b sector (some source) count).1 ≡ in_range sector count)
        × ((j : ℕ)
            → (block_write dev b sector (some source) count).0.ram_disk j ≡ (
                if in_range sector count
                then stored b.ram_disk sector source count j
                else b.ram_disk j))
        × ((block_write dev b sector (some source) count).0.use_virtio ≡ false)
  unfolding block_write write_buffer reject count_write
  block_write-stored sector source count = elim (Bool-cases (in_range sector count)) [
    | inl e ↦
        let accepted : refused dev b sector (some source) count ≡ false =
          ground (arith, refused_lem sector source count) in
        rw (accepted, in_ram, e)
          (
            refl,
            (λ j.
                ground
                  (arith, copy_sectors_lem count b.ram_disk (sector * sector_size) source 0 j)),
            refl,
          )
    | inr e ↦
        let denied : refused dev b sector (some source) count ≡ true =
          ground (arith, refused_lem sector source count) in
        rw (denied, e) (refl, (λ j. refl), in_ram)
  ]

  -- What a buffer holds after `count` sectors have been read into it.
  abbrev pub fetched : ℕ → Array ℕ → ℕ → Array ℕ
  fetched sector fill count j =
      if ltb j (count * sector_size) then b.ram_disk (sector * sector_size + j) else fill j

  pub block_read-fetched :
      (sector : ℕ) (fill : Array ℕ) (count : ℕ)
      → ((block_read dev b sector (some fill) count).1
          ≡ (if in_range sector count then some (fetched sector fill count) else none))
        × ((block_read dev b sector (some fill) count).0.ram_disk ≡ b.ram_disk)
        × ((block_read dev b sector (some fill) count).0.use_virtio ≡ false)
  unfolding block_read read_buffer reject count_read
  block_read-fetched sector fill count = elim (Bool-cases (in_range sector count)) [
    | inl e ↦
        let accepted : refused dev b sector (some fill) count ≡ false =
          ground (arith, refused_lem sector fill count) in
        rw (accepted, in_ram, e)
          (
            ap some (
                fun_ext (λ j.
                  ground
                    (arith, copy_sectors_lem count fill 0 b.ram_disk (sector * sector_size) j))),
            refl,
            refl,
          )
    | inr e ↦
        let denied : refused dev b sector (some fill) count ≡ true =
          ground (arith, refused_lem sector fill count) in
        rw (denied, e) (refl, refl, in_ram)
  ]

module _ {V : Type 0} (dev : VirtioBlk V) (b : Block V) (in_ram : b.use_virtio ≡ false) where
  -- On the disk in RAM and for a range of sectors of the disk that is not empty, reading what a write has
  -- stored gives the bytes that were written, and leaves what is behind them in the buffer.
  pub block_read-block_write :
      (sector : ℕ) (source fill : Array ℕ) (count : ℕ)
      → in_range sector count ≡ true
      → (block_read dev (block_write dev b sector (some source) count).0 sector (some fill) count).1
        ≡ some (λ j. if ltb j (count * sector_size) then source j else fill j)
  block_read-block_write sector source fill count inside =
      let (_, disk, ram) = block_write-stored dev b in_ram sector source count in
      let (result, _, _) =
        block_read-fetched dev (block_write dev b sector (some source) count).0 ram sector fill
          count in
      result ∙ rw inside (ap some (fun_ext (λ j. ground (arith, disk (sector * sector_size + j)))))
