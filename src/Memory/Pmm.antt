-- ===== src/Memory/Pmm.antt =====
-- kernel/memory/pmm.c and pmm.h: the bitmap of physical pages. `kernel_end` is the address that
-- the linker gives the symbol `_kernel_end`.
pub mod Bits
pub mod Marks
pub mod Alloc
pub mod Reserve
pub mod History
mod Examples
use Prim.Native.Nat.{bit_and, bit_or}
use saturn_os.Prelude.{
  ℕ, zero, suc, ◌+◌, ◌-◌, ◌*◌, ◌/◌, ◌%◌, ◌^◌, Bool, true, false, not, ◌||◌, Option, none, some, ltb,
  leb, ◌==◌, if◌then◌else◌, Array, update, find_first, add64, sub64,
}

abbrev pub page_size : ℕ
page_size = 4096

abbrev pub ram_base : ℕ
ram_base = 0x40000000

abbrev pub ram_size : ℕ
ram_size = 0x08000000

abbrev pub ram_end : ℕ
ram_end = ram_base + ram_size

abbrev pub total_pages : ℕ
total_pages = ram_size / page_size

abbrev pub ramfb_reserved_base : ℕ
ramfb_reserved_base = 0x46ffe000

abbrev pub ramfb_reserved_end : ℕ
ramfb_reserved_end = 0x47200000

pub record Pmm : Type 0 where
  pub page_bitmap : Array ℕ
  pub used_pages : ℕ

-- `value & ~(PMM_PAGE_SIZE - 1)`
abbrev pub align_down : ℕ → ℕ
align_down value = value / page_size * page_size

abbrev pub align_up : ℕ → ℕ
align_up value = align_down (add64 value (page_size - 1))

abbrev pub page_index : ℕ → ℕ
page_index address = sub64 address ram_base / page_size

unfoldable pub byte_test : ℕ → ℕ → Bool
byte_test byte k = not (bit_and byte (2 ^ k) == 0)

-- `byte |= (unsigned char)(1U << k)`
unfoldable pub byte_set : ℕ → ℕ → ℕ
byte_set byte k = bit_or byte (2 ^ k % 256)

-- `byte &= (unsigned char)~(1U << k)`
unfoldable pub byte_clear : ℕ → ℕ → ℕ
byte_clear byte k = bit_and byte ((2 ^ 32 - 1 - 2 ^ k) % 256)

unfoldable pub page_is_used : Pmm → ℕ → Bool
page_is_used s index = byte_test (s.page_bitmap (index / 8)) (index % 8)

unfoldable pub mark_page_used : Pmm → ℕ → Pmm
mark_page_used s index = if page_is_used s index then s else record {
  page_bitmap = update s.page_bitmap (index / 8) (byte_set (s.page_bitmap (index / 8)) (index % 8));
  used_pages = add64 s.used_pages 1;
}

unfoldable pub mark_page_free : Pmm → ℕ → Pmm
mark_page_free s index =
    if page_is_used s index
    then record {
      page_bitmap =
          update s.page_bitmap (index / 8) (byte_clear (s.page_bitmap (index / 8)) (index % 8));
      used_pages = sub64 s.used_pages 1;
    }
    else s

-- The loop of `reserve_range`, with the rounds that are left.
unfoldable pub reserve_pages : ℕ → ℕ → Pmm → Pmm
reserve_pages zero current s = s
reserve_pages (suc rounds) current s =
    reserve_pages rounds (current + page_size) (mark_page_used s (page_index current))

-- How often `for (current = start; current < end; current += PMM_PAGE_SIZE)` runs.
abbrev pub rounds_between : ℕ → ℕ → ℕ
rounds_between start end = (end - start + (page_size - 1)) / page_size

unfoldable pub reserve_range : Pmm → ℕ → ℕ → Pmm
reserve_range s start end =
    if leb end ram_base || leb ram_end start
    then s
    else let first = align_down (if ltb start ram_base then ram_base else start) in
      let last = align_up (if ltb ram_end end then ram_end else end) in
      reserve_pages (rounds_between first last) first s

-- The bitmap after the loop of `pmm_init` that clears its bytes.
unfoldable pub no_pages_used : Pmm
no_pages_used = record { page_bitmap = λ i. 0; used_pages = 0 }

unfoldable pub pmm_init : ℕ → Pmm
pmm_init kernel_end =
    reserve_range (reserve_range no_pages_used ram_base kernel_end) ramfb_reserved_base
      ramfb_reserved_end

-- The address of the page, and `none` for the null pointer.
unfoldable pub pmm_alloc_page : Pmm → Option ℕ × Pmm
pmm_alloc_page s = elim (find_first (λ i. not (page_is_used s i)) total_pages 0) [
  | none ↦ (none, s)
  | some i ↦ (some (ram_base + i * page_size), mark_page_used s i)
]

unfoldable pub pmm_free_page : Pmm → ℕ → Pmm
pmm_free_page s address =
    if ltb address ram_base || leb ram_end address
    then s
    else if not (address % page_size == 0)
    then s
    else mark_page_free s (page_index address)

pub pmm_total_pages : ℕ
pmm_total_pages = total_pages

unfoldable pub pmm_used_pages : Pmm → ℕ
pmm_used_pages s = s.used_pages

unfoldable pub pmm_free_pages : Pmm → ℕ
pmm_free_pages s = sub64 total_pages s.used_pages
