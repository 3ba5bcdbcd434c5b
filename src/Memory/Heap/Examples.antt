-- ===== src/Memory/Heap/Examples.antt =====
-- The theorems of the heap at concrete states.
use saturn_os.Prelude.{ℕ, ◌+◌, ◌≤◌, ◌≡◌, some, refl, true, false, arith, [], ◌∷◌}
use saturn_os.Memory.Pmm.{no_pages_used}
use saturn_os.Memory.Heap.{Heap, HeapBlock, header_size, block_at, kmalloc, kfree}
use saturn_os.Memory.Heap.Account.{used_bytes, footprint}
use saturn_os.Memory.Heap.Alloc.{Balanced, Serves, kmalloc-Serves, Frees, kfree-Balanced}

-- One page, the first 64 bytes of which are in use.
abbrev one_page : Heap
one_page = record {
  blocks =
      record { address = 0x40010000; size = 64; free = false }
      ∷ record { address = 0x40010058; size = 3984; free = true }
      ∷ [];
  heap_pages = 1;
  heap_used = 64;
  heap_start = 0x40010000;
  heap_end = 0x40011000;
}

one_page-Balanced : Balanced one_page
unfolding used_bytes footprint
one_page-Balanced = record { used = refl; pages = refl; few = omega arith }

kmalloc-Serves_example :
    Balanced (kmalloc one_page no_pages_used 100).1
    × Serves 100 no_pages_used (kmalloc one_page no_pages_used 100)
kmalloc-Serves_example =
    kmalloc-Serves one_page no_pages_used 100 one_page-Balanced (omega arith) (omega arith)

abbrev first_block : HeapBlock
first_block = record { address = 0x40010000; size = 64; free = false }

kfree-Balanced_example :
    (k : ℕ) × (b : HeapBlock) × (h' : Heap) × (k ≤ 0)
    × (block_at one_page.blocks k ≡ some b)
    × (b.address + header_size ≡ 0x40010018)
    × (kfree one_page 0x40010018 ≡ some h')
    × Frees one_page b h'
unfolding block_at
kfree-Balanced_example =
    kfree-Balanced one_page 0x40010018 0 first_block one_page-Balanced refl refl
