-- ===== src/Memory/Pmm/Examples.antt =====
-- The theorems of the page allocator at concrete inputs, and tests of its definitions.
use saturn_os.Prelude.{ℕ, ◌+◌, ◌<◌, ◌≡◌, ◌↔◌, refl, none, some, [], ◌∷◌, arith, find_first}
use saturn_os.Memory.Pmm.{
  total_pages, page_is_used, pmm_init, pmm_alloc_page, pmm_free_page, pmm_used_pages,
  pmm_free_pages, no_pages_used, mark_page_used, byte_test,
}
use saturn_os.Memory.Pmm.Marks.{IsValid}
use saturn_os.Memory.Pmm.Alloc.{
  Allocates, pmm_alloc_page-Allocates, is_page, pmm_free_page-pmm_alloc_page,
  pmm_free_pages-eq_zero,
}
use saturn_os.Memory.Pmm.Reserve.{reserved, pmm_init_lem, no_pages_used-IsValid}
use saturn_os.Memory.Pmm.History.{HandsOut, alloc, free, pmm_init-HandsOut}

-- A kernel of two pages.
abbrev small_kernel : ℕ
small_kernel = 0x40001800

first_alloc : (pmm_alloc_page no_pages_used).0 ≡ some 0x40000000
unfolding pmm_alloc_page no_pages_used find_first page_is_used byte_test
first_alloc = refl

pmm_alloc_page-Allocates_example :
    Allocates (pmm_init small_kernel) (pmm_alloc_page (pmm_init small_kernel))
pmm_alloc_page-Allocates_example =
    pmm_alloc_page-Allocates (pmm_init small_kernel) (pmm_init_lem small_kernel (omega arith)).0

pmm_free_page-pmm_alloc_page_example :
    ((j : ℕ)
      → page_is_used (pmm_free_page (mark_page_used no_pages_used 0) 0x40000000) j
        ≡ page_is_used no_pages_used j)
    × ((pmm_free_page (mark_page_used no_pages_used 0) 0x40000000).used_pages ≡ 0)
unfolding pmm_alloc_page no_pages_used find_first page_is_used byte_test
pmm_free_page-pmm_alloc_page_example =
    pmm_free_page-pmm_alloc_page no_pages_used (mark_page_used no_pages_used 0) 0x40000000
      no_pages_used-IsValid refl

pmm_free_pages-eq_zero_example :
    (pmm_used_pages no_pages_used + pmm_free_pages no_pages_used ≡ total_pages)
    × (((pmm_alloc_page no_pages_used).0 ≡ none) ↔ (pmm_free_pages no_pages_used ≡ 0))
pmm_free_pages-eq_zero_example = pmm_free_pages-eq_zero no_pages_used no_pages_used-IsValid

pmm_init_lem_example :
    IsValid (pmm_init small_kernel)
    × ((j : ℕ) → j < total_pages → page_is_used (pmm_init small_kernel) j ≡ reserved small_kernel j)
pmm_init_lem_example = pmm_init_lem small_kernel (omega arith)

pmm_init-HandsOut_example :
    HandsOut small_kernel (pmm_init small_kernel) (alloc ∷ free 0x40002000 ∷ alloc ∷ [])
pmm_init-HandsOut_example =
    pmm_init-HandsOut small_kernel (alloc ∷ free 0x40002000 ∷ alloc ∷ []) (omega arith)
      (unfold is_page in (refl, tt))
