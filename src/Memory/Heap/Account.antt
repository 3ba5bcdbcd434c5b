-- ===== src/Memory/Heap/Account.antt =====
-- The sums of the heap: what is in use, and the sizes of the blocks with their headers.
use saturn_os.Prelude.{
  ℕ, zero, suc, ◌+◌, ◌≤◌, ◌<◌, ◌≡◌, ◌∙◌, refl, ap, Bool, true, false, Option, none, some, List, [],
  ◌∷◌, inl, inr, ltb, arith, if◌then◌else◌, Bool-cases, word,
}
use saturn_os.Memory.Heap.{
  HeapBlock, header_size, heap_min_split, split_block, merges, merged, coalesce_from, fits,
  find_block, block_at, set_free, split_at,
}

-- The bytes of the blocks in use.
unfoldable pub used_bytes : List HeapBlock → ℕ
used_bytes [] = 0
used_bytes (b ∷ rest) = (if b.free then 0 else b.size) + used_bytes rest

-- The bytes of the blocks and of their headers.
unfoldable pub footprint : List HeapBlock → ℕ
footprint [] = 0
footprint (b ∷ rest) = (header_size + b.size) + footprint rest

pub used_bytes-le : (bs : List HeapBlock) → used_bytes bs ≤ footprint bs
unfolding used_bytes footprint
used_bytes-le [] = omega arith
used_bytes-le (b ∷ rest) = ground (arith, used_bytes-le rest)

pub footprint-coalesce_from :
    (b : HeapBlock) (rest : List HeapBlock)
    → footprint (b ∷ rest) < word
    → (footprint (coalesce_from b rest) ≡ footprint (b ∷ rest))
      × (used_bytes (coalesce_from b rest) ≡ used_bytes (b ∷ rest))
unfolding footprint used_bytes coalesce_from
footprint-coalesce_from b [] h = (refl, refl)
footprint-coalesce_from b (c ∷ rest) h = elim (Bool-cases (merges b c)) [
  | inl e ↦
      rw (e, coalesce_from)
        (ground (arith, footprint-coalesce_from (merged b c) rest (ground arith)))
  | inr e ↦ rw (e, coalesce_from) (ground (arith, footprint-coalesce_from c rest (ground arith)))
]

-- What taking the block at a place for `size` bytes does to the sums.
abbrev pub Takes : List HeapBlock → List HeapBlock → ℕ → ℕ → Type 0
Takes bs bs' size k =
    (b : HeapBlock) × (block_at bs' k ≡ some b)
    × (b.free ≡ false)
    × (size ≤ b.size)
    × (used_bytes bs' ≡ used_bytes bs + b.size)
    × (footprint bs' ≡ footprint bs)

abbrev pub passes : (HeapBlock → Bool) → Option HeapBlock → Bool
passes test none = false
passes test (some b) = test b

pub split_at-Takes :
    (size k : ℕ) (bs : List HeapBlock)
    → passes (fits size) (block_at bs k) ≡ true
    → Takes bs (set_free false k (split_at size k bs)) size k
unfolding block_at set_free split_at split_block used_bytes footprint
split_at-Takes size k [] f = absurd (ground arith)
split_at-Takes size zero (c ∷ rest) f =
    elim (Bool-cases (ltb c.size (size + header_size + heap_min_split))) [
      | inl whole ↦ rw whole (_, refl, refl, ground arith, ground arith, refl)
      | inr split ↦ rw split (_, refl, refl, omega arith, ground arith, ground arith)
    ]
split_at-Takes size (suc k) (c ∷ rest) f =
    let (d, at, taken, large, used, all) = split_at-Takes size k rest f in
    (d, at, taken, large, ground (arith, used), ground (arith, all))

-- A search finds a block that passes the test.
abbrev pub Found : (HeapBlock → Bool) → List HeapBlock → Option ℕ → Type 0
Found test bs none = Unit {0}
Found test bs (some k) = passes test (block_at bs k) ≡ true

pub find_block-Found :
    (test : HeapBlock → Bool) (bs : List HeapBlock) → Found test bs (find_block test bs)
unfolding find_block block_at
find_block-Found test [] = tt
find_block-Found test (b ∷ rest) = elim (Bool-cases (test b)) [
  | inl hit ↦ rw (hit, find_block) hit
  | inr miss ↦ rw (miss, find_block) (behind (find_block test rest) (find_block-Found test rest))
]
  where
    behind :
        (r : Option ℕ)
        → Found test rest r
        → Found test (b ∷ rest) (elim r [ none ↦ none | some k ↦ some (suc k) ])
    behind none f = tt
    behind (some k) f = f

-- A search finds a block as soon as one passes, and no later than that one.
pub find_block-place :
    (test : HeapBlock → Bool) (bs : List HeapBlock) (j : ℕ) (c : HeapBlock)
    → block_at bs j ≡ some c
    → test c ≡ true
    → (k : ℕ) × (b : HeapBlock) × (k ≤ j)
      × (block_at bs k ≡ some b)
      × (test b ≡ true)
      × (find_block test bs ≡ some k)
unfolding find_block block_at
find_block-place test [] j c at hit = absurd (ground arith)
find_block-place test (b ∷ rest) zero c at hit =
    let same : b ≡ c = ground arith in
    let here : test b ≡ true = ap test same ∙ hit in
    (0, b, omega arith, refl, here, rw (here, find_block) refl)
find_block-place test (b ∷ rest) (suc j) c at hit = elim (Bool-cases (test b)) [
  | inl e ↦ (0, b, omega arith, refl, e, rw (e, find_block) refl)
  | inr e ↦
      let (k, d, before, here, passed, found) = find_block-place test rest j c at hit in
      (suc k, d, omega arith, here, passed, rw (e, find_block) (rw (found, find_block) refl))
]
