-- ===== src/Memory/Pmm/Marks.antt =====
-- mark_page_used and mark_page_free of kernel/memory/pmm.c, and the meaning of the bitmap.
use saturn_os.Prelude.{
  ℕ, ◌+◌, ◌/◌, ◌%◌, ◌<◌, ◌≡◌, not, ◌&&◌, ◌||◌, arith, ◌==◌, if◌then◌else◌, count, count_change,
  count-le, bit, add64, sub64,
}
use saturn_os.Memory.Pmm.{Pmm, total_pages, page_is_used, mark_page_used, mark_page_free}
use saturn_os.Memory.Pmm.Bits.{test-set, test-clear, set_bound, clear_bound}

-- Every byte is one, and the counter says how many pages are marked.
pub record IsValid (s : Pmm) : Type 0 where
  pub bytes : (i : ℕ) → s.page_bitmap i < 256
  pub counted : s.used_pages ≡ count total_pages (page_is_used s)

module _ (s : Pmm) (index : ℕ) (bytes : (i : ℕ) → s.page_bitmap i < 256) where
  pub page_is_used-mark_page_used :
      (j : ℕ) → page_is_used (mark_page_used s index) j ≡ ((j == index) || page_is_used s j)
  unfolding mark_page_used page_is_used
  page_is_used-mark_page_used j = ground (
    arith,
    test-set (s.page_bitmap (index / 8)) (index % 8) (j % 8) (bytes (index / 8)) (omega arith)
        (omega arith),
  )

  pub page_is_used-mark_page_free :
      (j : ℕ) → page_is_used (mark_page_free s index) j ≡ (not (j == index) && page_is_used s j)
  unfolding mark_page_free page_is_used
  page_is_used-mark_page_free j = ground (
    arith,
    test-clear (s.page_bitmap (index / 8)) (index % 8) (j % 8) (bytes (index / 8)) (omega arith)
        (omega arith),
  )

  pub mark_page_used_bytes : (j : ℕ) → (mark_page_used s index).page_bitmap j < 256
  unfolding mark_page_used
  mark_page_used_bytes j = ground (
    arith,
    bytes j,
    set_bound (s.page_bitmap (index / 8)) (index % 8) 0 (bytes (index / 8)) (omega arith)
        (omega arith),
  )

  pub mark_page_free_bytes : (j : ℕ) → (mark_page_free s index).page_bitmap j < 256
  unfolding mark_page_free
  mark_page_free_bytes j = ground (
    arith,
    bytes j,
    clear_bound (s.page_bitmap (index / 8)) (index % 8) 0 (bytes (index / 8)) (omega arith)
        (omega arith),
  )

module _ (s : Pmm) (index : ℕ) where
  used_pages-mark_page_used :
      (mark_page_used s index).used_pages
      ≡ (if page_is_used s index then s.used_pages else add64 s.used_pages 1)
  unfolding mark_page_used
  used_pages-mark_page_used = ground arith

  used_pages-mark_page_free :
      (mark_page_free s index).used_pages
      ≡ (if page_is_used s index then sub64 s.used_pages 1 else s.used_pages)
  unfolding mark_page_free
  used_pages-mark_page_free = ground arith

module _ (s : Pmm) (index : ℕ) (v : IsValid s) (inside : index < total_pages) where
  count-mark_page_used :
      count total_pages (page_is_used (mark_page_used s index)) + bit (page_is_used s index)
      ≡ count total_pages (page_is_used s) + bit (page_is_used (mark_page_used s index) index)
  count-mark_page_used =
      count_change total_pages (page_is_used s) (page_is_used (mark_page_used s index)) index inside
        (λ i ne. ground (arith, page_is_used-mark_page_used s index v.bytes i))

  count-mark_page_free :
      count total_pages (page_is_used (mark_page_free s index)) + bit (page_is_used s index)
      ≡ count total_pages (page_is_used s) + bit (page_is_used (mark_page_free s index) index)
  count-mark_page_free =
      count_change total_pages (page_is_used s) (page_is_used (mark_page_free s index)) index inside
        (λ i ne. ground (arith, page_is_used-mark_page_free s index v.bytes i))

  pub mark_page_used-IsValid : IsValid (mark_page_used s index)
  mark_page_used-IsValid = record {
    bytes = mark_page_used_bytes s index v.bytes;
    counted = ground (
      arith,
      v.counted,
      used_pages-mark_page_used s index,
      count-mark_page_used,
      page_is_used-mark_page_used s index v.bytes index,
      count-le total_pages (page_is_used s),
    );
  }

  pub mark_page_free-IsValid : IsValid (mark_page_free s index)
  mark_page_free-IsValid = record {
    bytes = mark_page_free_bytes s index v.bytes;
    counted = ground (
      arith,
      v.counted,
      used_pages-mark_page_free s index,
      count-mark_page_free,
      page_is_used-mark_page_free s index v.bytes index,
      count-le total_pages (page_is_used s),
    );
  }
