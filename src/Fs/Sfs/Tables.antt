-- ===== src/Fs/Sfs/Tables.antt =====
-- The directory of SaturnFS as the bytes of a sector, and read back from them.
use saturn_os.Prelude.{
  ℕ, ◌+◌, ◌-◌, ◌*◌, ◌/◌, ◌%◌, ◌^◌, ◌≤◌, ◌<◌, ◌≡◌, ◌∙◌, refl, ap, sym, true, false, inl, inr, ltb,
  arith, Array, find_first_same, Option-cases, byte_of, word32_at, word32-bytes, text_from_same,
}
use saturn_os.Fs.Paths.{FilePath}
use saturn_os.Fs.Sfs.{
  SfsEntry, SfsDirectory, sfs_max_files, sfs_max_path, entry_named, entry_byte, entry_at,
  directory_bytes, find_entry,
}
use saturn_os.Fs.Sfs.Contents.{
  file_at, stored_file, stored_file-none, stored_file-some, find_entry-inside,
}

-- The fields of an entry are 32-bit numbers.
pub record Word32 (e : SfsEntry) : Type 0 where
  pub start_sector : e.start_sector < 2 ^ 32
  pub size : e.size < 2 ^ 32
  pub checksum : e.checksum < 2 ^ 32
  pub flags : e.flags < 2 ^ 32

-- Two entries that hold the same, as far as `path` goes.
pub record SameEntry (e e' : SfsEntry) : Type 0 where
  pub path : (j : ℕ) → j < sfs_max_path → e'.path j ≡ e.path j
  pub start_sector : e'.start_sector ≡ e.start_sector
  pub size : e'.size ≡ e.size
  pub checksum : e'.checksum ≡ e.checksum
  pub flags : e'.flags ≡ e.flags

module _ (bytes : Array ℕ) (d : SfsDirectory)
    (same : (j : ℕ) → j < 512 → bytes j ≡ directory_bytes d j) (i : ℕ) (l : i < sfs_max_files) where
  entry_bytes_at : (k : ℕ) → k < 60 → bytes (i * 60 + k) ≡ entry_byte (d.entries i) k
  unfolding directory_bytes
  entry_bytes_at k m =
      let row : (i * 60 + k) / 60 ≡ i = omega arith in
      let column : (i * 60 + k) % 60 ≡ k = omega arith in
      let low : ltb (i * 60 + k) 480 ≡ true = ground arith in
      same (i * 60 + k) (omega arith) ∙ rw (low, row, column) refl

  start_byte :
      (k : ℕ) → k < 4 → entry_byte (d.entries i) (44 + k) ≡ byte_of (d.entries i).start_sector k
  unfolding entry_byte
  start_byte k m =
      let a : ltb (44 + k) 44 ≡ false = ground arith in
      let b : ltb (44 + k) 48 ≡ true = ground arith in
      let n : 44 + k - 44 ≡ k = omega arith in rw (a, b, n) refl

  size_byte : (k : ℕ) → k < 4 → entry_byte (d.entries i) (48 + k) ≡ byte_of (d.entries i).size k
  unfolding entry_byte
  size_byte k m =
      let a : ltb (48 + k) 44 ≡ false = ground arith in
      let b : ltb (48 + k) 48 ≡ false = ground arith in
      let c : ltb (48 + k) 52 ≡ true = ground arith in
      let n : 48 + k - 48 ≡ k = omega arith in rw (a, b, c, n) refl

  checksum_byte :
      (k : ℕ) → k < 4 → entry_byte (d.entries i) (52 + k) ≡ byte_of (d.entries i).checksum k
  unfolding entry_byte
  checksum_byte k m =
      let a : ltb (52 + k) 44 ≡ false = ground arith in
      let b : ltb (52 + k) 48 ≡ false = ground arith in
      let c : ltb (52 + k) 52 ≡ false = ground arith in
      let e : ltb (52 + k) 56 ≡ true = ground arith in
      let n : 52 + k - 52 ≡ k = omega arith in rw (a, b, c, e, n) refl

  flags_byte : (k : ℕ) → k < 4 → entry_byte (d.entries i) (56 + k) ≡ byte_of (d.entries i).flags k
  unfolding entry_byte
  flags_byte k m =
      let a : ltb (56 + k) 44 ≡ false = ground arith in
      let b : ltb (56 + k) 48 ≡ false = ground arith in
      let c : ltb (56 + k) 52 ≡ false = ground arith in
      let e : ltb (56 + k) 56 ≡ false = ground arith in
      let n : 56 + k - 56 ≡ k = omega arith in rw (a, b, c, e, n) refl

  path_byte : (j : ℕ) → j < sfs_max_path → entry_byte (d.entries i) j ≡ (d.entries i).path j
  unfolding entry_byte
  path_byte j m = let low : ltb j 44 ≡ true = ground arith in rw low refl

  -- A field whose bytes stand at a place of the entry.
  word_field :
      (place v : ℕ)
      → place + 4 ≤ 60
      → v < 2 ^ 32
      → ((k : ℕ) → k < 4 → entry_byte (d.entries i) (place + k) ≡ byte_of v k)
      → word32_at bytes (i * 60 + place) ≡ v
  word_field place v fits small stands =
      word32-bytes bytes (i * 60 + place) v small
        (λ k m. ap bytes (omega arith) ∙ entry_bytes_at (place + k) (omega arith) ∙ stands k m)

  pub entry_at-SameEntry : Word32 (d.entries i) → SameEntry (d.entries i) (entry_at bytes i)
  unfolding entry_at
  entry_at-SameEntry w = record {
    path = λ j m. entry_bytes_at j (omega arith) ∙ path_byte j m;
    start_sector = word_field 44 (d.entries i).start_sector (omega arith) w.start_sector start_byte;
    size = word_field 48 (d.entries i).size (omega arith) w.size size_byte;
    checksum = word_field 52 (d.entries i).checksum (omega arith) w.checksum checksum_byte;
    flags = word_field 56 (d.entries i).flags (omega arith) w.flags flags_byte;
  }

file_at-SameEntry :
    (disk : Array ℕ) (e e' : SfsEntry) → SameEntry e e' → file_at disk e' ≡ file_at disk e
unfolding file_at
file_at-SameEntry disk e e' same = rw (same.start_sector, same.size, same.checksum) refl

entry_named-SameEntry :
    (q : FilePath) (e e' : SfsEntry) → SameEntry e e' → entry_named q e' ≡ entry_named q e
entry_named-SameEntry q e e' same =
    let text = text_from_same sfs_max_path e'.path e.path 0 (λ j l m. same.path j m) in
    rw (same.flags, text) refl

-- Directories with the same entries hold the same files.
pub stored_file-SameEntry :
    (disk : Array ℕ) (d d' : SfsDirectory) (q : FilePath)
    → ((i : ℕ) → i < sfs_max_files → SameEntry (d.entries i) (d'.entries i))
    → stored_file d' disk q ≡ stored_file d disk q
unfolding find_entry
stored_file-SameEntry disk d d' q same =
    let find : find_entry d' q ≡ find_entry d q =
      find_first_same (λ i. entry_named q (d'.entries i)) (λ i. entry_named q (d.entries i))
        sfs_max_files 0
        (λ j l m. entry_named-SameEntry q (d.entries j) (d'.entries j) (same j m)) in
    elim (Option-cases (find_entry d q)) [
      | inl e ↦ stored_file-none d' disk q (find ∙ e) ∙ sym (stored_file-none d disk q e)
      | inr (i, e) ↦
          stored_file-some d' disk q i (find ∙ e)
          ∙ file_at-SameEntry disk (d.entries i) (d'.entries i) (same i (find_entry-inside d q i e))
          ∙ sym (stored_file-some d disk q i e)
    ]
