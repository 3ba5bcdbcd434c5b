-- ===== src/Memory/Pmm/History.antt =====
-- Sequences of calls of the allocator, as the kernel's other parts make them after `pmm_init`.
use saturn_os.Prelude.{
  ℕ, ◌-◌, ◌/◌, ◌<◌, ◌≡◌, inl, inr, true, false, ◌&&◌, Option, none, some, List, [], ◌∷◌, arith,
  ◌==◌, Bool-cases, subst,
}
use saturn_os.Memory.Pmm.{
  Pmm, page_size, ram_base, total_pages, page_is_used, pmm_init, pmm_alloc_page, pmm_free_page,
}
use saturn_os.Memory.Pmm.Marks.{IsValid}
use saturn_os.Memory.Pmm.Alloc.{
  Allocates, pmm_alloc_page-Allocates, pmm_alloc_page-IsValid, is_page, pmm_free_page-IsValid,
  page_is_used-pmm_free_page,
}
use saturn_os.Memory.Pmm.Reserve.{reserved, pmm_init_lem}

pub data Call : Type 0 where
  alloc : Call
  free : ℕ → Call

-- The number of the page of an address.
abbrev pub page_of : ℕ → ℕ
page_of address = (address - ram_base) / page_size

-- No call gives back a page that `pmm_init` reserved.
abbrev pub Spares : ℕ → List Call → Type 0
Spares kernel_end [] = Unit {0}
Spares kernel_end (alloc ∷ calls) = Spares kernel_end calls
Spares kernel_end (free a ∷ calls) =
    ((is_page a && reserved kernel_end (page_of a)) ≡ false) × Spares kernel_end calls

-- An address that is handed out is the start of a page of the RAM that was not in use and is not
-- reserved.
abbrev pub Fresh : ℕ → Pmm → Option ℕ → Type 0
Fresh kernel_end s none = Unit {0}
Fresh kernel_end s (some a) =
    (is_page a ≡ true)
    × (page_is_used s (page_of a) ≡ false)
    × (reserved kernel_end (page_of a) ≡ false)

-- Every address that the calls hand out is such a one, at its time.
abbrev pub HandsOut : ℕ → Pmm → List Call → Type 0
HandsOut kernel_end s [] = Unit {0}
HandsOut kernel_end s (alloc ∷ calls) =
    Fresh kernel_end s (pmm_alloc_page s).0 × HandsOut kernel_end (pmm_alloc_page s).1 calls
HandsOut kernel_end s (free a ∷ calls) = HandsOut kernel_end (pmm_free_page s a) calls

Keeps : ℕ → Pmm → Type 0
Keeps kernel_end s =
    (j : ℕ) → j < total_pages → reserved kernel_end j ≡ true → page_is_used s j ≡ true

alloc-Fresh :
    (kernel_end : ℕ) (s : Pmm)
    → Keeps kernel_end s
    → (r : Option ℕ × Pmm) → Allocates s r
    → Fresh kernel_end s r.0 × Keeps kernel_end r.1
unfolding Keeps is_page
alloc-Fresh kernel_end s k (none, t) (e, all) = (tt, λ j l h. ground (arith, e, k j l))
alloc-Fresh kernel_end s k (some b, t) (i, inside, at, unused, _, marks) =
    let page : page_of b ≡ i = omega arith in
    (
      (ground arith, ground arith, ground (arith, k i inside)),
      λ j l h. ground (arith, k j l, marks j),
    )

free-Keeps :
    (kernel_end : ℕ) (s : Pmm) (a : ℕ)
    → IsValid s
    → Keeps kernel_end s
    → (is_page a && reserved kernel_end (page_of a)) ≡ false
    → Keeps kernel_end (pmm_free_page s a)
unfolding Keeps
free-Keeps kernel_end s a v k spare = λ j l h. elim (Bool-cases (j == page_of a)) [
  | inl e ↦
      let same : j ≡ page_of a = ground arith in
      let r : reserved kernel_end (page_of a) ≡ true =
        subst (λ x. reserved kernel_end x ≡ true) same h in
      let other : is_page a ≡ false = ground arith in
      ground (arith, page_is_used-pmm_free_page s a v j, k j l)
  | inr e ↦ ground (arith, page_is_used-pmm_free_page s a v j, k j l)
]

history :
    (kernel_end : ℕ) (s : Pmm) (calls : List Call)
    → IsValid s
    → Keeps kernel_end s
    → Spares kernel_end calls
    → HandsOut kernel_end s calls
history kernel_end s [] v k h = tt
history kernel_end s (alloc ∷ calls) v k h =
    let (fresh, k') =
      alloc-Fresh kernel_end s k (pmm_alloc_page s) (pmm_alloc_page-Allocates s v) in
    (fresh, history kernel_end (pmm_alloc_page s).1 calls (pmm_alloc_page-IsValid s v) k' h)
history kernel_end s (free a ∷ calls) v k h =
    history kernel_end (pmm_free_page s a) calls (pmm_free_page-IsValid s a v)
      (free-Keeps kernel_end s a v k h.0) h.1

-- With a kernel that ends behind the start of the RAM, whatever sequence of allocations and frees
-- follows `pmm_init`, as long as none frees a reserved page: each address that is handed out is the
-- start of a page of the RAM that is not in use at that time and that `pmm_init` did not reserve.
pub pmm_init-HandsOut :
    (kernel_end : ℕ) (calls : List Call)
    → ram_base < kernel_end
    → Spares kernel_end calls
    → HandsOut kernel_end (pmm_init kernel_end) calls
pmm_init-HandsOut kernel_end calls h spares =
    let (v, used) = pmm_init_lem kernel_end h in
    history kernel_end (pmm_init kernel_end) calls v
      (unfold Keeps in λ j l r. ground (arith, used j l)) spares
