-- ===== src/Memory/Pmm/Alloc.antt =====
-- pmm_alloc_page and pmm_free_page against a set of used pages.
use saturn_os.Prelude.{
  ℕ, ◌+◌, ◌-◌, ◌*◌, ◌/◌, ◌%◌, ◌<◌, ◌≡◌, refl, inl, inr, Bool, true, false, not, ◌&&◌, ◌||◌, Option,
  none, some, ◌↔◌, subst, sym, ◌∙◌, arith, ltb, leb, ◌==◌, if◌then◌else◌, Bool-cases, find_first,
  Finds, find_first-Finds, count_lt, count-le, count_same, count_all, sub64,
}
use saturn_os.Memory.Pmm.{
  Pmm, page_size, ram_base, ram_end, total_pages, page_index, page_is_used, mark_page_used,
  mark_page_free, pmm_alloc_page, pmm_free_page, pmm_used_pages, pmm_free_pages,
}
use saturn_os.Memory.Pmm.Marks.{
  IsValid, page_is_used-mark_page_used, page_is_used-mark_page_free, mark_page_used-IsValid,
  mark_page_free-IsValid,
}

-- What an allocation does to the set of used pages: it fails only when every page is used, and
-- otherwise takes the lowest page that is not.
abbrev pub Allocates : Pmm → Option ℕ × Pmm → Type 0
Allocates s (none, t) = (t ≡ s) × ((i : ℕ) → i < total_pages → page_is_used s i ≡ true)
Allocates s (some address, t) =
    (i : ℕ) × (i < total_pages)
    × (address ≡ ram_base + i * page_size)
    × (page_is_used s i ≡ false)
    × ((j : ℕ) → j < i → page_is_used s j ≡ true)
    × ((j : ℕ) → page_is_used t j ≡ ((j == i) || page_is_used s j))

-- With a valid bitmap, `pmm_alloc_page` fails only when every page is in use, and otherwise gives the
-- address of the first page that is not, and marks that page and no other as used.
pub pmm_alloc_page-Allocates : (s : Pmm) → IsValid s → Allocates s (pmm_alloc_page s)
unfolding pmm_alloc_page
pmm_alloc_page-Allocates s v =
    go (find_first (λ i. not (page_is_used s i)) total_pages 0) (find_first-Finds _ total_pages 0)
  where
    go :
        (r : Option ℕ)
        → Finds (λ i. not (page_is_used s i)) total_pages 0 r
        → Allocates s (elim r [
          | none ↦ (none, s)
          | some i ↦ (some (ram_base + i * page_size), mark_page_used s i)
        ])
    go none all = (refl, λ i h. ground (arith, all i))
    go (some i) (hit, _, inside, first) = (
      i,
      inside,
      refl,
      ground arith,
      λ j h. ground (arith, first j),
      page_is_used-mark_page_used s i v.bytes,
    )

pub pmm_alloc_page-IsValid : (s : Pmm) → IsValid s → IsValid (pmm_alloc_page s).1
unfolding pmm_alloc_page
pmm_alloc_page-IsValid s v =
    go (find_first (λ i. not (page_is_used s i)) total_pages 0) (find_first-Finds _ total_pages 0)
  where
    go :
        (r : Option ℕ)
        → Finds (λ i. not (page_is_used s i)) total_pages 0 r
        → IsValid
            (elim r as (λ _. Option ℕ × Pmm) [
              | none ↦ (none, s)
              | some i ↦ (some (ram_base + i * page_size), mark_page_used s i)
            ]).1
    go none all = v
    go (some i) f = mark_page_used-IsValid s i v f.2

-- The addresses at which `pmm_free_page` does anything: the first bytes of the pages of the RAM.
unfoldable pub is_page : ℕ → Bool
is_page address = leb ram_base address && ltb address ram_end && (address % page_size == 0)

pub page_index_lem :
    (a : ℕ)
    → is_page a ≡ true
    → (page_index a ≡ (a - ram_base) / page_size) × (page_index a < total_pages)
unfolding is_page
page_index_lem a h = ground arith

-- With a valid bitmap, `pmm_free_page` frees the page of the RAM that starts at its argument and no
-- other, and for any other address it frees none.
pub page_is_used-pmm_free_page :
    (s : Pmm) (a : ℕ)
    → IsValid s
    → (j : ℕ)
    → page_is_used (pmm_free_page s a) j
      ≡ (not (is_page a && (j == (a - ram_base) / page_size)) && page_is_used s j)
unfolding pmm_free_page is_page
page_is_used-pmm_free_page s a v j =
    ground (arith, page_index_lem a, page_is_used-mark_page_free s (page_index a) v.bytes j)

pmm_free_page_cases :
    (s : Pmm) (a : ℕ)
    → pmm_free_page s a ≡ (if is_page a then mark_page_free s (page_index a) else s)
unfolding pmm_free_page is_page
pmm_free_page_cases s a = ground arith

pub pmm_free_page-IsValid : (s : Pmm) (a : ℕ) → IsValid s → IsValid (pmm_free_page s a)
pmm_free_page-IsValid s a v = rw (pmm_free_page_cases s a) (elim (Bool-cases (is_page a)) [
  | inl hit ↦ rw hit (mark_page_free-IsValid s (page_index a) v (page_index_lem a hit).1)
  | inr miss ↦ rw miss v
])

free_marked :
    (s t : Pmm) (a i : ℕ)
    → IsValid s
    → IsValid t
    → i < total_pages
    → a ≡ ram_base + i * page_size
    → page_is_used s i ≡ false
    → ((j : ℕ) → page_is_used t j ≡ ((j == i) || page_is_used s j))
    → (j : ℕ) → page_is_used (pmm_free_page t a) j ≡ page_is_used s j
unfolding is_page
free_marked s t a i v valid inside at free marks j =
    let index : (a - ram_base) / page_size ≡ i = omega arith in
    let here : is_page a ≡ true = ground arith in
    elim (Bool-cases (j == i)) [
      | inl e ↦ ground (arith, page_is_used-pmm_free_page t a valid j, marks j)
      | inr e ↦ ground (arith, page_is_used-pmm_free_page t a valid j, marks j)
    ]

-- With a valid bitmap, a page that was just allocated and is given back leaves the set of used pages
-- and their number as they were before.
pub pmm_free_page-pmm_alloc_page :
    (s t : Pmm) (a : ℕ)
    → IsValid s
    → pmm_alloc_page s ≡ (some a, t)
    → ((j : ℕ) → page_is_used (pmm_free_page t a) j ≡ page_is_used s j)
      × ((pmm_free_page t a).used_pages ≡ s.used_pages)
pmm_free_page-pmm_alloc_page s t a v e = (same, same_count)
  where
    alloc : Allocates s (some a, t)
    alloc = subst (Allocates s) e (pmm_alloc_page-Allocates s v)

    valid : IsValid t
    valid = subst (λ (r : Option ℕ × Pmm). IsValid r.1) e (pmm_alloc_page-IsValid s v)

    same : (j : ℕ) → page_is_used (pmm_free_page t a) j ≡ page_is_used s j
    same j =
        let (i, inside, at, free, _, marks) = alloc in
        free_marked s t a i v valid inside at free marks j

    same_count : (pmm_free_page t a).used_pages ≡ s.used_pages
    same_count =
        (pmm_free_page-IsValid t a valid).counted
        ∙ (count_same total_pages _ _ (λ i _. same i) ∙ sym v.counted)

-- With a valid bitmap, the numbers of used and of free pages add up to all pages, and an allocation
-- fails exactly when no page is free.
pub pmm_free_pages-eq_zero :
    (s : Pmm)
    → IsValid s
    → (pmm_used_pages s + pmm_free_pages s ≡ total_pages)
      × (((pmm_alloc_page s).0 ≡ none) ↔ (pmm_free_pages s ≡ 0))
unfolding pmm_used_pages pmm_free_pages
pmm_free_pages-eq_zero s v = (
  ground (arith, v.counted, count-le total_pages (page_is_used s)),
  go (pmm_alloc_page s) (pmm_alloc_page-Allocates s v),
)
  where
    go : (r : Option ℕ × Pmm) → Allocates s r → (r.0 ≡ none) ↔ (sub64 total_pages s.used_pages ≡ 0)
    go (none, t) (_, full) = (
      λ _. let all = count_all total_pages (page_is_used s) full in ground (arith, v.counted, all),
      λ _. refl,
    )
    go (some a, t) (i, inside, _, free, _, _) = (
      λ e. cc,
      λ e. absurd (omega (arith, v.counted, count_lt total_pages (page_is_used s) i inside free)),
    )
