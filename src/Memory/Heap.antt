-- ===== src/Memory/Heap.antt =====
-- kernel/memory/heap.c: the blocks of the heap in the order of their links. `heap_head` is the first
-- of the list and `heap_tail` the last, which each change of the links in the source keeps.
pub mod Account
pub mod Alloc
mod Examples
use saturn_os.Prelude.{
  ℕ, zero, suc, ◌+◌, ◌-◌, ◌*◌, ◌/◌, Bool, true, false, not, ◌&&◌, ◌||◌, Option, none, some, List,
  [], ◌∷◌, ◌++◌, ◌%◌, ltb, leb, ◌==◌, if◌then◌else◌, add64, sub64, word,
}
use saturn_os.Memory.Pmm.{Pmm, page_size, pmm_alloc_page}

abbrev pub heap_align : ℕ
heap_align = 16

abbrev pub heap_min_split : ℕ
heap_min_split = 32

-- `sizeof(struct heap_block)`: two words and a flag, padded to a word.
abbrev pub header_size : ℕ
header_size = 24

-- `struct heap_block`, with its address; the next block is the next of the list.
pub record HeapBlock : Type 0 where
  pub address : ℕ
  pub size : ℕ
  pub free : Bool

pub record Heap : Type 0 where
  pub blocks : List HeapBlock
  pub heap_pages : ℕ
  pub heap_used : ℕ
  pub heap_start : ℕ
  pub heap_end : ℕ

-- `(value + HEAP_ALIGN - 1) & ~(HEAP_ALIGN - 1)`
abbrev pub align_up : ℕ → ℕ
align_up value = add64 value (heap_align - 1) / heap_align * heap_align

abbrev pub heap_block_capacity : ℕ
heap_block_capacity = page_size - header_size

unfoldable pub length : List HeapBlock → ℕ
length [] = 0
length (b ∷ rest) = suc (length rest)

-- The blocks that stand for the block once it has been split for `size` bytes.
unfoldable pub split_block : HeapBlock → ℕ → List HeapBlock → List HeapBlock
split_block b size rest =
    if ltb b.size (size + header_size + heap_min_split)
    then b ∷ rest
    else record b { size = size }
      ∷ record {
        address = b.address + header_size + size;
        size = b.size - size - header_size;
        free = true;
      }
      ∷ rest

abbrev pub merges : HeapBlock → HeapBlock → Bool
merges b c = b.free && c.free && (b.address + header_size + b.size == c.address)

abbrev pub merged : HeapBlock → HeapBlock → HeapBlock
merged b c = record b { size = add64 b.size (header_size + c.size) }

-- The loop of `coalesce_blocks` at the block `b`, with the blocks behind it.
unfoldable pub coalesce_from : HeapBlock → List HeapBlock → List HeapBlock
coalesce_from b [] = b ∷ []
coalesce_from b (c ∷ rest) = elim (merges b c) [
  | true ↦ coalesce_from (merged b c) rest
  | false ↦ b ∷ coalesce_from c rest
]

unfoldable pub coalesce_blocks : List HeapBlock → List HeapBlock
coalesce_blocks [] = []
coalesce_blocks (b ∷ rest) = coalesce_from b rest

abbrev pub fits : ℕ → HeapBlock → Bool
fits size b = b.free && leb size b.size

-- The place of the first block that passes a test.
unfoldable pub find_block : (HeapBlock → Bool) → List HeapBlock → Option ℕ
find_block test [] = none
find_block test (b ∷ rest) = elim (test b) [
  | true ↦ some 0
  | false ↦ elim (find_block test rest) [ none ↦ none | some k ↦ some (suc k) ]
]

unfoldable pub find_free_block : ℕ → List HeapBlock → Option ℕ
find_free_block size bs = find_block (fits size) bs

unfoldable pub block_at : List HeapBlock → ℕ → Option HeapBlock
block_at [] k = none
block_at (b ∷ rest) zero = some b
block_at (b ∷ rest) (suc k) = block_at rest k

-- `block->free = …` on the block at a place.
unfoldable pub set_free : Bool → ℕ → List HeapBlock → List HeapBlock
set_free free k [] = []
set_free free zero (b ∷ rest) = record b { free = free } ∷ rest
set_free free (suc k) (b ∷ rest) = b ∷ set_free free k rest

-- `split_block` on the block at a place.
unfoldable pub split_at : ℕ → ℕ → List HeapBlock → List HeapBlock
split_at size k [] = []
split_at size zero (b ∷ rest) = split_block b size rest
split_at size (suc k) (b ∷ rest) = b ∷ split_at size k rest

-- The block that `grow_heap` makes of a page, behind the others.
abbrev pub page_block : ℕ → HeapBlock
page_block page = record { address = page; size = heap_block_capacity; free = true }

unfoldable pub grow_heap : Heap → ℕ → Heap
grow_heap h page = record {
  blocks = h.blocks ++ (page_block page ∷ []);
  heap_pages = add64 h.heap_pages 1;
  heap_used = h.heap_used;
  heap_start = if (h.heap_start == 0) || ltb page h.heap_start then page else h.heap_start;
  heap_end = if ltb h.heap_end (page + page_size) then page + page_size else h.heap_end;
}

abbrev pub heap_init : Heap
heap_init = record { blocks = []; heap_pages = 0; heap_used = 0; heap_start = 0; heap_end = 0 }

-- The end of `kmalloc`, with the place of the block that was found.
unfoldable pub take_block : Heap → ℕ → ℕ → Option ℕ × Heap
take_block h size k =
    let bs : List HeapBlock = set_free false k (split_at size k h.blocks) in
    elim (block_at bs k) [
      | none ↦ (none, h)
      | some b ↦ (
        some (b.address + header_size),
        record h { blocks = bs; heap_used = add64 h.heap_used b.size },
      )
    ]

unfoldable pub kmalloc_grown : Heap → ℕ → Option ℕ × Pmm → Option ℕ × Heap × Pmm
kmalloc_grown h size (none, pmm) = (none, h, pmm)
kmalloc_grown h size (some page, pmm) =
    let (r, h') = take_block (grow_heap h page) size (length h.blocks) in (r, h', pmm)

unfoldable pub kmalloc_aligned : Heap → Pmm → ℕ → Option ℕ × Heap × Pmm
kmalloc_aligned h pmm size = elim (find_free_block size h.blocks) [
  | some k ↦ let (r, h') = take_block h size k in (r, h', pmm)
  | none ↦ kmalloc_grown h size (pmm_alloc_page pmm)
]

-- The pointer, and `none` for the null pointer.
unfoldable pub kmalloc : Heap → Pmm → ℕ → Option ℕ × Heap × Pmm
kmalloc h pmm size =
    if size == 0
    then (none, h, pmm)
    else if ltb heap_block_capacity (align_up size)
    then (none, h, pmm)
    else kmalloc_aligned h pmm (align_up size)

abbrev pub starts_at : ℕ → HeapBlock → Bool
starts_at address b = b.address + header_size == address

unfoldable pub free_block : Heap → ℕ → HeapBlock → Heap
free_block h k b = if b.free then h else record h {
  blocks = coalesce_blocks (set_free true k h.blocks);
  heap_used = sub64 h.heap_used b.size;
}

-- 0 is the null pointer. Where any other pointer leads to no block, the source reads a header from
-- memory that is not the heap's: its result, `none`, is not defined.
unfoldable pub kfree : Heap → ℕ → Option Heap
kfree h ptr = if ptr == 0 then some h else elim (find_block (starts_at ptr) h.blocks) [
  | none ↦ none
  | some k ↦ elim (block_at h.blocks k) [ none ↦ none | some b ↦ some (free_block h k b) ]
]

unfoldable pub heap_total_bytes : Heap → ℕ
heap_total_bytes h = h.heap_pages * heap_block_capacity % word

unfoldable pub free_bytes : List HeapBlock → ℕ
free_bytes [] = 0
free_bytes (b ∷ rest) = (if b.free then b.size else 0) + free_bytes rest

unfoldable pub heap_free_bytes : Heap → ℕ
heap_free_bytes h = free_bytes h.blocks % word

unfoldable pub heap_overhead_bytes : Heap → ℕ
heap_overhead_bytes h =
    if ltb (heap_total_bytes h) (add64 h.heap_used (heap_free_bytes h))
    then 0
    else heap_total_bytes h - h.heap_used - heap_free_bytes h
