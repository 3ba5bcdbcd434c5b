-- ===== src/Memory/Pmm/Reserve.antt =====
-- reserve_range and pmm_init: which pages are taken before the first allocation.
use saturn_os.Prelude.{
  ℕ, zero, suc, ◌+◌, ◌-◌, ◌*◌, ◌/◌, ◌%◌, ◌≤◌, ◌<◌, ◌≡◌, ◌⊎◌, inl, inr, Bool, false, ◌&&◌, ◌||◌,
  arith, ltb, leb, if◌then◌else◌, Bool-cases, sym, count_none,
}
use saturn_os.Memory.Pmm.{
  Pmm, page_size, ram_base, ram_end, total_pages, page_index, page_is_used, mark_page_used,
  reserve_pages, reserve_range, no_pages_used, pmm_init, ramfb_reserved_base, ramfb_reserved_end,
  align_up, align_down, rounds_between,
}
use saturn_os.Memory.Pmm.Bits.{test_empty}
use saturn_os.Memory.Pmm.Marks.{IsValid, page_is_used-mark_page_used, mark_page_used-IsValid}

page_index_at : (k : ℕ) → k < total_pages → page_index (ram_base + k * page_size) ≡ k
page_index_at k h = omega arith

pub reserve_pages_lem :
    (n k current : ℕ) (s : Pmm)
    → current ≡ ram_base + k * page_size
    → k + n ≤ total_pages
    → IsValid s
    → IsValid (reserve_pages n current s)
      × ((j : ℕ)
          → page_is_used (reserve_pages n current s) j
            ≡ ((leb k j && ltb j (k + n)) || page_is_used s j))
unfolding reserve_pages
reserve_pages_lem zero k current s e h v = (v, λ j. ground arith)
reserve_pages_lem (suc n) k current s e h v =
    let at : page_index current ≡ k = omega arith in
    let (v', used) =
      reserve_pages_lem n (suc k) (current + page_size) (mark_page_used s (page_index current))
        (omega arith) (omega arith)
        (mark_page_used-IsValid s (page_index current) v (omega arith)) in
    (v', λ j. ground (arith, used j, page_is_used-mark_page_used s (page_index current) v.bytes j))

-- Whether the page `j` and the bytes from `start` up to `end` have an address in common.
abbrev pub touches : ℕ → ℕ → ℕ → Bool
touches j start end =
    ltb (ram_base + j * page_size) end && ltb start (ram_base + j * page_size + page_size)

reserve_range_lem :
    (s : Pmm) (start end : ℕ)
    → start < end
    → IsValid s
    → IsValid (reserve_range s start end)
      × ((j : ℕ)
          → j < total_pages
          → page_is_used (reserve_range s start end) j ≡ (touches j start end || page_is_used s j))
unfolding reserve_range
reserve_range_lem s start end ordered v =
    elim (Bool-cases (leb end ram_base || leb ram_end start)) [
      | inl out ↦ rw out (v, λ j h. ground arith)
      | inr inside ↦ rw inside (
          let lo : ℕ = if ltb start ram_base then ram_base else start in
          let hi : ℕ = if ltb ram_end end then ram_end else end in
          let lo_at : (ram_base ≤ lo) × (start ≤ lo) × ((lo ≡ ram_base) ⊎ (lo ≡ start)) =
            ground arith in
          let hi_at : (hi ≤ ram_end) × (hi ≤ end) × ((hi ≡ ram_end) ⊎ (hi ≡ end)) = ground arith in
          let lt : lo < hi = ground arith in
          let (v', used) =
            reserve_pages_lem (rounds_between (align_down lo) (align_up hi))
              ((lo - ram_base) / page_size) (align_down lo) s (omega arith) (omega arith) v in
          (v', λ j h. ground (arith, used j)))
    ]

-- The bytes that `pmm_init` keeps from the allocator: all from the start of the RAM to the kernel's end,
-- the first 512 KiB below the kernel included, and those of the frame buffer.
abbrev pub reserved : ℕ → ℕ → Bool
reserved kernel_end j =
    touches j ramfb_reserved_base ramfb_reserved_end || touches j ram_base kernel_end

page_is_used-no_pages_used : (j : ℕ) → page_is_used no_pages_used j ≡ false
unfolding page_is_used no_pages_used
page_is_used-no_pages_used j = test_empty (j % 8) (omega arith)

pub no_pages_used-IsValid : IsValid no_pages_used
no_pages_used-IsValid = record {
  bytes = λ i. unfold no_pages_used in omega arith;
  counted =
      unfold no_pages_used in sym (count_none total_pages _ (λ i h. page_is_used-no_pages_used i));
}

-- With a kernel that ends behind the start of the RAM, after `pmm_init` the pages in use are exactly
-- those of the RAM that have a byte between the start of the RAM and the end of the kernel, or a byte of
-- the frame buffer, and the counter is their number.
pub pmm_init_lem :
    (kernel_end : ℕ)
    → ram_base < kernel_end
    → IsValid (pmm_init kernel_end)
      × ((j : ℕ) → j < total_pages → page_is_used (pmm_init kernel_end) j ≡ reserved kernel_end j)
unfolding pmm_init
pmm_init_lem kernel_end h =
    let (v, kernel) = reserve_range_lem _ ram_base kernel_end h no_pages_used-IsValid in
    let (v', ramfb) = reserve_range_lem _ ramfb_reserved_base ramfb_reserved_end (omega arith) v in
    (v', λ j l. ground (arith, ramfb j l, kernel j l, page_is_used-no_pages_used j))
