-- ===== src/Arch/Mmu/Descriptors.antt =====
-- Descriptors as three fields: bits 48 and up, the number of a page, and the lowest 12 bits.
use saturn_os.Prelude.{
  ℕ, Bool, ◌+◌, ◌-◌, ◌*◌, ◌/◌, ◌%◌, ◌^◌, ◌<◌, ◌≡◌, ◌∙◌, refl, ap, not, ◌||◌, ◌==◌, arith, bit_and,
  bit_or, bit_and_fields, bit_or_fields, bit_or-zero, zero-bit_or, bit_and-zero, bit_and-ones,
}
use saturn_os.Arch.Mmu.{
  page_size, l1_index, l2_index, l3_index, desc_address, desc_is_execute_never, desc_is_read_only,
  desc_has_user_access, desc_pxn, desc_uxn,
}

-- The index of a table is the 9 bits above the offset.
low_nine : (x : ℕ) → bit_and x 511 ≡ x % 512
low_nine x =
    bit_and_fields 9 (x / 512) 0 (x % 512) 511 {a = x} {b = 511} (omega arith) (omega arith)
      (omega arith) (omega arith)
    ∙ omega (arith, bit_and-zero (x / 512), bit_and-ones 9 (x % 512) (omega arith))

pub l1_index_lem : (address : ℕ) → l1_index address ≡ address / 2 ^ 30 % 512
unfolding l1_index
l1_index_lem address = low_nine (address / 2 ^ 30)

pub l2_index_lem : (address : ℕ) → l2_index address ≡ address / 2 ^ 21 % 512
unfolding l2_index
l2_index_lem address = low_nine (address / 2 ^ 21)

pub l3_index_lem : (address : ℕ) → l3_index address ≡ address / 2 ^ 12 % 512
unfolding l3_index
l3_index_lem address = low_nine (address / 2 ^ 12)

abbrev pub entry : ℕ → ℕ → ℕ → ℕ
entry high page low = (high * 2 ^ 36 + page) * 2 ^ 12 + low

-- `physical & ~(size - 1)` of a multiple of the size.
pub and_mask_down :
    (k n page : ℕ) {mask : ℕ}
    → page < 2 ^ n
    → mask ≡ (2 ^ n - 1) * 2 ^ k
    → 0 < 2 ^ k
    → bit_and (page * 2 ^ k) mask ≡ page * 2 ^ k
and_mask_down k n page {mask} l e some_bits =
    bit_and_fields k page (2 ^ n - 1) 0 0 {a = page * 2 ^ k} {b = mask} (omega arith)
      (omega (arith, e)) some_bits some_bits
    ∙ rw (bit_and-ones n page l) (omega arith)

module _ (high page low : ℕ) (fits : page < 2 ^ 36) (small : low < 2 ^ 12) where
  -- The attributes and the type are written into the bits around the page.
  pub or_attributes :
      (kind : ℕ)
      → kind < 2 ^ 12
      → bit_or (bit_or (page * 2 ^ 12) (high * 2 ^ 48 + low)) kind
        ≡ entry high page (bit_or low kind)
  or_attributes kind l =
      let upper =
        bit_or_fields 36 0 high page 0 {a = page} {b = high * 2 ^ 36} (omega arith) (omega arith)
          fits (omega arith) in
      let one =
        bit_or_fields 12 page (high * 2 ^ 36) 0 low {a = page * 2 ^ 12} {b = high * 2 ^ 48 + low}
          (omega arith) (omega arith) (omega arith) small in
      let attributes : bit_or (page * 2 ^ 12) (high * 2 ^ 48 + low) ≡ entry high page low =
        omega (arith, one, upper, bit_or-zero page, zero-bit_or low, zero-bit_or high) in
      let two =
        bit_or_fields 12 (high * 2 ^ 36 + page) 0 low kind {a = entry high page low} {b = kind} refl
          (omega arith) small l in
      ap (λ (d : ℕ). bit_or d kind) attributes
      ∙ omega (arith, two, bit_or-zero (high * 2 ^ 36 + page))

  -- A mask of the lowest 12 bits.
  pub and_low : (mask : ℕ) → mask < 2 ^ 12 → bit_and (entry high page low) mask ≡ bit_and low mask
  and_low mask l = omega (
    arith,
    bit_and_fields 12 (high * 2 ^ 36 + page) 0 low mask {a = entry high page low} {b = mask} refl
        (omega arith) small l,
    bit_and-zero (high * 2 ^ 36 + page),
  )

  -- A mask of bits from 48 on.
  and_high : (mask : ℕ) → bit_and (entry high page low) (mask * 2 ^ 48) ≡ bit_and high mask * 2 ^ 48
  and_high mask = omega (
    arith,
    bit_and_fields 12 (high * 2 ^ 36 + page) (mask * 2 ^ 36) low 0 {a = entry high page low}
        {b = mask * 2 ^ 48} refl (omega arith) small (omega arith),
    bit_and_fields 36 high mask page 0 {a = high * 2 ^ 36 + page} {b = mask * 2 ^ 36} refl
        (omega arith) fits (omega arith),
    bit_and-zero page,
    bit_and-zero low,
  )

  -- The mask of the page.
  and_page : bit_and (entry high page low) 0xfffffffff000 ≡ page * 2 ^ 12
  and_page = omega (
    arith,
    bit_and_fields 12 (high * 2 ^ 36 + page) (2 ^ 36 - 1) low 0 {a = entry high page low}
        {b = 0xfffffffff000} refl (omega arith) small (omega arith),
    bit_and_fields 36 high 0 page (2 ^ 36 - 1) {a = high * 2 ^ 36 + page} {b = 2 ^ 36 - 1} refl
        (omega arith) fits (omega arith),
    bit_and-zero high,
    bit_and-ones 36 page fits,
    bit_and-zero low,
  )

-- The type in the lowest two bits, below the attributes.
module _ (low kind : ℕ) (free : low % 4 ≡ 0) (small : kind < 4) where
  pub or_kind : bit_or low kind ≡ low + kind
  or_kind = omega (
    arith,
    bit_or_fields 2 (low / 4) 0 0 kind {a = low} {b = kind} (omega (arith, free)) (omega arith)
        (omega arith) small,
    bit_or-zero (low / 4),
    zero-bit_or kind,
  )

  and_kind : bit_and (low + kind) 3 ≡ kind
  and_kind = omega (
    arith,
    bit_and_fields 2 (low / 4) 0 kind 3 {a = low + kind} {b = 3} (omega (arith, free)) (omega arith)
        small (omega arith),
    bit_and-zero (low / 4),
    bit_and-ones 2 kind small,
  )

  and_access : bit_and (low + kind) 0xc0 ≡ bit_and low 0xc0
  and_access = omega (
    arith,
    bit_and_fields 2 (low / 4) 48 kind 0 {a = low + kind} {b = 0xc0} (omega (arith, free)) refl
        small (omega arith),
    bit_and_fields 2 (low / 4) 48 0 0 {a = low} {b = 0xc0} (omega (arith, free)) refl (omega arith)
        (omega arith),
    bit_and-zero kind,
  )

-- Neither the kernel nor the user may execute what is there.
abbrev pub is_never_executed : ℕ → Bool
is_never_executed d = bit_and d (desc_pxn + desc_uxn) == desc_pxn + desc_uxn

-- The descriptor `d` has the type `kind`, the page `page`, and the permissions of the attributes.
pub record Describes (kind page attributes d : ℕ) : Type 0 where
  pub kind_bits : bit_and d 3 ≡ kind
  pub address : desc_address d ≡ page * page_size
  pub never : desc_is_execute_never d ≡ desc_is_execute_never attributes
  pub both_never : is_never_executed d ≡ is_never_executed attributes
  pub read_only : desc_is_read_only d ≡ desc_is_read_only attributes
  pub user : desc_has_user_access d ≡ desc_has_user_access attributes

module _ (high page low kind : ℕ) (fits : page < 2 ^ 36) (small : low < 2 ^ 12) (free : low % 4 ≡ 0)
    (is_kind : kind < 4) where
  pub entry-Describes : Describes kind page (high * 2 ^ 48 + low) (entry high page (low + kind))
  unfolding desc_address desc_is_execute_never desc_is_read_only desc_has_user_access
  entry-Describes =
      let room : low + kind < 2 ^ 12 = omega (arith, free) in
      let plain : high * 2 ^ 48 + low ≡ entry high 0 low = omega arith in
      let none_set : 0 < 2 ^ 36 = omega arith in
      let access : bit_and (entry high page (low + kind)) 0xc0
          ≡ bit_and (high * 2 ^ 48 + low) 0xc0 =
        and_low high page (low + kind) fits room 0xc0 (omega arith)
        ∙ and_access low kind free is_kind
        ∙ omega (
          arith,
          and_low high 0 low none_set small 0xc0 (omega arith),
          ap (λ (d : ℕ). bit_and d 0xc0) plain,
        ) in
      let never : bit_and (entry high page (low + kind)) (0x60 * 2 ^ 48)
          ≡ bit_and (high * 2 ^ 48 + low) (0x60 * 2 ^ 48) =
        omega (
          arith,
          and_high high page (low + kind) fits room 0x60,
          and_high high 0 low none_set small 0x60,
          ap (λ (d : ℕ). bit_and d (0x60 * 2 ^ 48)) plain,
        ) in
      record {
        kind_bits =
            and_low high page (low + kind) fits room 3 (omega arith)
            ∙ and_kind low kind free is_kind;
        address = and_page high page (low + kind) fits room;
        never = ap (λ (n : ℕ). not (n == 0)) never;
        both_never = ap (λ (n : ℕ). n == 0x60 * 2 ^ 48) never;
        read_only = ap (λ (n : ℕ). n == 128) access;
        user = ap (λ (n : ℕ). (n == 64) || (n == 192)) access;
      }
