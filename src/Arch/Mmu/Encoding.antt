-- ===== src/Arch/Mmu/Encoding.antt =====
-- What the descriptors that mmu.c builds say when they are read.
use saturn_os.Prelude.{
  ℕ, ◌+◌, ◌-◌, ◌*◌, ◌%◌, ◌^◌, ◌<◌, ◌≡◌, ◌∙◌, refl, ap, sym, subst, true, false, ◌==◌, arith,
  bit_and, bit_or, bit_and_fields, bit_and-zero, bit_and-ones,
}
use saturn_os.Arch.Mmu.{
  page_size, l2_block_size, table_desc, l2_block_desc, l3_page_desc, desc_is_table,
  desc_is_l2_block, desc_is_l3_page, l2_block_address,
}
use saturn_os.Arch.Mmu.Descriptors.{
  entry, and_mask_down, or_attributes, or_kind, Describes, entry-Describes,
}

module _ (high page low : ℕ) (fits : page < 2 ^ 36) (small : low < 2 ^ 12)
    (free : low % 4 ≡ 0) where
  pub l3_page_desc_lem :
      l3_page_desc (page * page_size) (high * 2 ^ 48 + low) ≡ entry high page (low + 3)
  unfolding l3_page_desc
  l3_page_desc_lem =
      ap (λ (p : ℕ). bit_or (bit_or p (high * 2 ^ 48 + low)) 3)
        (and_mask_down 12 52 page (omega arith) refl (omega arith))
      ∙ or_attributes high page low fits small 3 (omega arith)
      ∙ ap (λ (l : ℕ). entry high page l) (or_kind low 3 free (omega arith))

  -- A page descriptor of a page below 2 ^ 48 and of attributes outside the bits of the address and of the
  -- type is read back: its type, its address and its permissions are those it was made of.
  pub l3_page_desc-Describes :
      Describes 3 page (high * 2 ^ 48 + low) (l3_page_desc (page * page_size) (high * 2 ^ 48 + low))
  l3_page_desc-Describes =
      subst (Describes 3 page (high * 2 ^ 48 + low)) (sym l3_page_desc_lem)
        (entry-Describes high page low 3 fits small free (omega arith))

module _ (high block low : ℕ) (fits : block < 2 ^ 27) (small : low < 2 ^ 12)
    (free : low % 4 ≡ 0) where
  pub l2_block_desc_lem :
      l2_block_desc (block * l2_block_size) (high * 2 ^ 48 + low)
      ≡ entry high (block * 512) (low + 1)
  unfolding l2_block_desc
  l2_block_desc_lem =
      ap (λ (p : ℕ). bit_or (bit_or p (high * 2 ^ 48 + low)) 1)
        (and_mask_down 21 43 block (omega arith) refl (omega arith))
      ∙ ap (λ (p : ℕ). bit_or (bit_or p (high * 2 ^ 48 + low)) 1) (the_page)
      ∙ or_attributes high (block * 512) low (omega arith) small 1 (omega arith)
      ∙ ap (λ (l : ℕ). entry high (block * 512) l) (or_kind low 1 free (omega arith))
    where
      the_page : block * 2 ^ 21 ≡ block * 512 * 2 ^ 12
      the_page = omega arith

  pub l2_block_desc-Describes :
      Describes 1
        (block * 512)
        (high * 2 ^ 48 + low)
        (l2_block_desc (block * l2_block_size) (high * 2 ^ 48 + low))
  l2_block_desc-Describes =
      subst (Describes 1 (block * 512) (high * 2 ^ 48 + low)) (sym l2_block_desc_lem)
        (entry-Describes high (block * 512) low 1 (omega arith) small free (omega arith))

  pub l2_block_address-l2_block_desc :
      l2_block_address (l2_block_desc (block * l2_block_size) (high * 2 ^ 48 + low))
      ≡ block * l2_block_size
  unfolding l2_block_address
  l2_block_address-l2_block_desc =
      ap (λ (d : ℕ). bit_and d 0xffffffe00000) l2_block_desc_lem
      ∙ omega (
        arith,
        bit_and_fields 21 (high * 2 ^ 27 + block) (2 ^ 27 - 1) (low + 1) 0
            {a = entry high (block * 512) (low + 1)} {b = 0xffffffe00000} (omega arith) refl
            (omega arith) (omega arith),
        bit_and_fields 27 high 0 block (2 ^ 27 - 1) {a = high * 2 ^ 27 + block} {b = 2 ^ 27 - 1}
            refl refl fits (omega arith),
        bit_and-zero high,
        bit_and-ones 27 block fits,
        bit_and-zero (low + 1),
      )

module _ (page : ℕ) (fits : page < 2 ^ 36) where
  pub table_desc_lem : table_desc (page * page_size) ≡ entry 0 page 3
  unfolding table_desc
  table_desc_lem =
      ap (λ (p : ℕ). bit_or (bit_or p 1) 2)
        (and_mask_down 12 52 page (omega arith) refl (omega arith))
      ∙ or_attributes 0 page 1 fits (omega arith) 2 (omega arith)

  pub table_desc-Describes : Describes 3 page 0 (table_desc (page * page_size))
  table_desc-Describes =
      subst (Describes 3 page 0) (sym table_desc_lem)
        (entry-Describes 0 page 0 3 fits (omega arith) refl (omega arith))

-- The tests of the type of a descriptor.
pub Describes-table :
    (page attributes d : ℕ)
    → Describes 3 page attributes d
    → (desc_is_table d ≡ true) × (desc_is_l2_block d ≡ false) × (desc_is_l3_page d ≡ true)
unfolding desc_is_table desc_is_l2_block desc_is_l3_page
Describes-table page attributes d r =
    (ap (λ n. n == 3) r.kind_bits, ap (λ n. n == 1) r.kind_bits, ap (λ n. n == 3) r.kind_bits)

pub Describes-block :
    (page attributes d : ℕ)
    → Describes 1 page attributes d
    → (desc_is_table d ≡ false) × (desc_is_l2_block d ≡ true)
unfolding desc_is_table desc_is_l2_block
Describes-block page attributes d r = (ap (λ n. n == 3) r.kind_bits, ap (λ n. n == 1) r.kind_bits)
