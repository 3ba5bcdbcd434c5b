-- ===== src/Memory/Heap/Alloc.antt =====
-- `kmalloc` and `kfree` of kernel/memory/heap.c, and the sums of the heap.
use saturn_os.Prelude.{
  ℕ, zero, suc, ◌+◌, ◌*◌, ◌-◌, ◌/◌, ◌≤◌, ◌<◌, ◌≡◌, ◌≢◌, refl, ap, Bool, true, false, Option, none,
  some, List, [], ◌∷◌, ◌++◌, ◌⊎◌, subst, sym, inl, inr, ltb, arith, sub64, if◌then◌else◌, ◌==◌,
  Bool-cases, Option-cases, word,
}
use saturn_os.Memory.Pmm.{page_size, Pmm, pmm_alloc_page, total_pages}
use saturn_os.Memory.Heap.{
  HeapBlock, Heap, header_size, heap_block_capacity, coalesce_blocks, fits, find_block,
  find_free_block, block_at, set_free, split_at, page_block, grow_heap, take_block, kmalloc,
  kmalloc_grown, kmalloc_aligned, kfree, free_block, length, align_up, heap_align, heap_free_bytes,
  starts_at, free_bytes,
}
use saturn_os.Memory.Heap.Account.{
  used_bytes, footprint, used_bytes-le, footprint-coalesce_from, passes, split_at-Takes, Found,
  find_block-Found, find_block-place,
}

-- The sums are right: the counter is what the blocks in use hold, and the blocks with their headers
-- fill the pages, which are no more than there are.
pub record Balanced (h : Heap) : Type 0 where
  pub used : h.heap_used ≡ used_bytes h.blocks
  pub pages : footprint h.blocks ≡ h.heap_pages * page_size
  pub few : h.heap_pages ≤ total_pages

-- What a successful allocation promises.
abbrev pub Gives : ℕ → Option ℕ × Heap → Type 0
Gives size (none, h) = Unit {0}
Gives size (some p, h) =
    (k : ℕ) × (b : HeapBlock) × (block_at h.blocks k ≡ some b)
    × (p ≡ b.address + header_size)
    × (b.free ≡ false)
    × (size ≤ b.size)

pub take_block-Balanced :
    (h : Heap) (size k : ℕ)
    → Balanced h
    → passes (fits size) (block_at h.blocks k) ≡ true
    → Balanced (take_block h size k).1
      × Gives size (take_block h size k)
      × ((take_block h size k).0 ≢ none)
unfolding take_block
take_block-Balanced h size k w f =
    let (b, at, taken, large, used, all) = split_at-Takes size k h.blocks f in
    rw (at, take_block)
      (
        record {
          used = ground (
            arith,
            used,
            all,
            w.used,
            w.pages,
            w.few,
            used_bytes-le (set_free false k (split_at size k h.blocks)),
          );
          pages = ground (arith, all, w.pages);
          few = w.few;
        },
        (k, b, at, refl, taken, large),
        cc,
      )

sums_append :
    (bs : List HeapBlock) (page : ℕ)
    → (used_bytes (bs ++ (page_block page ∷ [])) ≡ used_bytes bs)
      × (footprint (bs ++ (page_block page ∷ [])) ≡ footprint bs + page_size)
unfolding used_bytes footprint
sums_append [] page = (refl, refl)
sums_append (b ∷ rest) page = ground (arith, sums_append rest page)

last_fits :
    (size : ℕ) (bs : List HeapBlock) (page : ℕ)
    → size ≤ heap_block_capacity
    → passes (fits size) (block_at (bs ++ (page_block page ∷ [])) (length bs)) ≡ true
unfolding block_at length
last_fits size [] page h = ground arith
last_fits size (b ∷ rest) page h = last_fits size rest page h

pub grow_heap-Balanced :
    (h : Heap) (page : ℕ) → Balanced h → h.heap_pages < total_pages → Balanced (grow_heap h page)
unfolding grow_heap
grow_heap-Balanced h page w room =
    let (used, all) = sums_append h.blocks page in
    record {
      used = ground (arith, used, w.used);
      pages = ground (arith, all, w.pages, w.few);
      few = ground (arith, w.few);
    }

abbrev size_of : Option HeapBlock → ℕ
size_of none = 0
size_of (some b) = b.size

abbrev free_of : Option HeapBlock → Bool
free_of none = false
free_of (some b) = b.free

freed :
    (k : ℕ) (bs : List HeapBlock) (b : HeapBlock)
    → block_at bs k ≡ some b
    → b.free ≡ false
    → (used_bytes (set_free true k bs) + b.size ≡ used_bytes bs)
      × (footprint (set_free true k bs) ≡ footprint bs)
unfolding block_at set_free used_bytes footprint
freed k [] b e f = absurd (ground arith)
freed zero (c ∷ rest) b e f = ground (arith, ap size_of e, ap free_of e)
freed (suc k) (c ∷ rest) b e f = ground (arith, freed k rest b e f)

coalesce_blocks-sums :
    (bs : List HeapBlock)
    → footprint bs < word
    → (footprint (coalesce_blocks bs) ≡ footprint bs)
      × (used_bytes (coalesce_blocks bs) ≡ used_bytes bs)
unfolding coalesce_blocks
coalesce_blocks-sums [] h = (refl, refl)
coalesce_blocks-sums (b ∷ rest) h = footprint-coalesce_from b rest h

-- What freeing the block `b` promises of the heap afterwards: the sums are right, the counter has gone
-- down by the size of the block if it was in use, and all of the heap is as before if it was not.
pub record Frees (h : Heap) (b : HeapBlock) (h' : Heap) : Type 0 where
  pub sums : Balanced h'
  pub given_back : h'.heap_used + (if b.free then 0 else b.size) ≡ h.heap_used
  pub same_pages : h'.heap_pages ≡ h.heap_pages
  pub twice : b.free ≡ true → h' ≡ h

used_bytes-place :
    (k : ℕ) (bs : List HeapBlock) (b : HeapBlock)
    → block_at bs k ≡ some b
    → b.free ≡ false
    → b.size ≤ used_bytes bs
used_bytes-place k bs b at e = let (used, _) = freed k bs b at e in omega (arith, used)

free_block-Frees :
    (h : Heap) (k : ℕ) (b : HeapBlock)
    → block_at h.blocks k ≡ some b
    → Balanced h
    → Frees h b (free_block h k b)
unfolding free_block
free_block-Frees h k b at w = elim (Bool-cases b.free) [
  | inl e ↦
      let whole : free_block h k b ≡ h = simp e in
      subst (Frees h b) (sym whole)
        (record { sums = w; given_back = ground (arith, e); same_pages = refl; twice = λ e. refl })
  | inr e ↦
      let (used, all) = freed k h.blocks b at e in
      let small : footprint h.blocks < word = ground (arith, w.pages, w.few) in
      let (all', used') = coalesce_blocks-sums (set_free true k h.blocks) (ground (arith, all)) in
      let h' : Heap = record h {
        blocks = coalesce_blocks (set_free true k h.blocks);
        heap_used = sub64 h.heap_used b.size;
      } in
      let changed : free_block h k b ≡ h' = simp e in
      subst (Frees h b) (sym changed) (record {
        sums = record {
          used = ground (arith, used, used', w.used, used_bytes-le h.blocks);
          pages = ground (arith, all, all', w.pages);
          few = w.few;
        };
        given_back = ground (arith, e, used, w.used, used_bytes-le h.blocks);
        same_pages = refl;
        twice = λ t. absurd (ground (arith, t, e));
      })
]

-- From a heap with right sums and for a pointer to the end of the header of a block of the heap, `kfree`
-- frees the first such block: the sums stay right, the counter goes down by the size of the block if
-- it was in use, no page is lost, and the heap stays as it is if the block was free already.
pub kfree-Balanced :
    (h : Heap) (ptr j : ℕ) (c : HeapBlock)
    → Balanced h
    → block_at h.blocks j ≡ some c
    → c.address + header_size ≡ ptr
    → (k : ℕ) × (b : HeapBlock) × (h' : Heap) × (k ≤ j)
      × (block_at h.blocks k ≡ some b)
      × (b.address + header_size ≡ ptr)
      × (kfree h ptr ≡ some h')
      × Frees h b h'
unfolding kfree
kfree-Balanced h ptr j c w at header =
    let (k, b, first, here, starts, found) =
      find_block-place (starts_at ptr) h.blocks j c at (ground (arith, header)) in
    let not_null : (ptr == 0) ≡ false = ground (arith, header) in
    (
      k,
      b,
      free_block h k b,
      first,
      here,
      ground (arith, starts),
      rw (not_null, found, kfree) (rw (here, kfree) refl),
      free_block-Frees h k b here w,
    )

kmalloc_grown-Balanced :
    (h : Heap) (size : ℕ) (r : Option ℕ × Pmm)
    → Balanced h
    → h.heap_pages < total_pages
    → size ≤ heap_block_capacity
    → Balanced (kmalloc_grown h size r).1
      × Gives size ((kmalloc_grown h size r).0, (kmalloc_grown h size r).1)
      × ((kmalloc_grown h size r).0 ≡ none → r.0 ≡ none)
unfolding kmalloc_grown grow_heap
kmalloc_grown-Balanced h size (none, pmm) w room small = (w, tt, λ e. refl)
kmalloc_grown-Balanced h size (some page, pmm) w room small =
    let (balanced, gives, succeeds) =
      take_block-Balanced (grow_heap h page) size (length h.blocks)
        (grow_heap-Balanced h page w room) (last_fits size h.blocks page small) in
    (balanced, gives, λ e. absurd (succeeds e))

kmalloc_aligned-Balanced :
    (h : Heap) (pmm : Pmm) (size : ℕ)
    → Balanced h
    → h.heap_pages < total_pages
    → size ≤ heap_block_capacity
    → Balanced (kmalloc_aligned h pmm size).1
      × Gives size ((kmalloc_aligned h pmm size).0, (kmalloc_aligned h pmm size).1)
      × ((kmalloc_aligned h pmm size).0 ≡ none → (pmm_alloc_page pmm).0 ≡ none)
unfolding kmalloc_aligned find_free_block
kmalloc_aligned-Balanced h pmm size w room small =
    elim (Option-cases (find_block (fits size) h.blocks)) [
      | inl e ↦
          rw (e, kmalloc_aligned) (kmalloc_grown-Balanced h size (pmm_alloc_page pmm) w room small)
      | inr (k, e) ↦
          rw (e, kmalloc_aligned)
            (let found : Found (fits size) h.blocks (some k) =
                subst (Found (fits size) h.blocks) e (find_block-Found (fits size) h.blocks) in
              let (balanced, gives, succeeds) = take_block-Balanced h size k w found in
              (balanced, gives, λ n. absurd (succeeds n)))
    ]

-- The largest size that a page has room for, once it is rounded up.
abbrev pub largest_size : ℕ
largest_size = heap_block_capacity / heap_align * heap_align

-- What `kmalloc` promises of its result, from the heap and the page allocator before.
abbrev pub Serves : ℕ → Pmm → Option ℕ × Heap × Pmm → Type 0
Serves size pmm (r, h, pmm') =
    Gives size (r, h)
    × (r ≡ none → (size ≡ 0) ⊎ (largest_size < size) ⊎ ((pmm_alloc_page pmm).0 ≡ none))

Gives-less :
    (small large : ℕ) (r : Option ℕ × Heap × Pmm)
    → small ≤ large
    → Gives large (r.0, r.1)
    → Gives small (r.0, r.1)
Gives-less small large (none, h, pmm) l g = tt
Gives-less small large (some p, h, pmm) l (k, b, at, address, taken, fit) =
    (k, b, at, address, taken, omega arith)

-- From a heap with right sums, fewer pages than there are and a size that does not wrap when it is
-- rounded up, `kmalloc` leaves the sums right; a pointer it gives is the end of the header of a block
-- in use of at least the size, and it gives none only for the size 0, for a size larger than 4,064,
-- or when no page is free.
pub kmalloc-Serves :
    (h : Heap) (pmm : Pmm) (size : ℕ)
    → Balanced h
    → h.heap_pages < total_pages
    → size + (heap_align - 1) < word
    → Balanced (kmalloc h pmm size).1 × Serves size pmm (kmalloc h pmm size)
unfolding kmalloc
kmalloc-Serves h pmm size w room bound = elim (Bool-cases (size == 0)) [
  | inl e ↦ rw e (w, (tt, λ n. inl (ground arith)))
  | inr e ↦ rw e (elim (Bool-cases (ltb heap_block_capacity (align_up size))) [
    | inl large ↦ rw large (w, (tt, λ n. inr (inl (ground arith))))
    | inr small ↦ rw small (
        let (balanced, gives, succeeds) =
          kmalloc_aligned-Balanced h pmm (align_up size) w room (ground arith) in
        (
          balanced,
          (
            Gives-less size (align_up size) (kmalloc_aligned h pmm (align_up size)) (ground arith)
                gives,
            λ n. inr (inr (succeeds n)),
          ),
        ))
  ])
]

sums_split :
    (bs : List HeapBlock) → used_bytes bs + free_bytes bs + header_size * length bs ≡ footprint bs
unfolding used_bytes free_bytes length footprint
sums_split [] = refl
sums_split (b ∷ rest) = ground (arith, sums_split rest)

-- In a heap with right sums, the bytes in use, the free bytes and 24 bytes for each block are 4,096
-- bytes for each page.
pub heap_free_bytes_lem :
    (h : Heap)
    → Balanced h
    → h.heap_used + heap_free_bytes h + header_size * length h.blocks ≡ h.heap_pages * page_size
unfolding heap_free_bytes
heap_free_bytes_lem h w = ground (arith, sums_split h.blocks, w.used, w.pages, w.few)
