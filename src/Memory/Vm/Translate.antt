-- ===== src/Memory/Vm/Translate.antt =====
-- The translations of the tables that `build_tables` of vm.c leaves.
use saturn_os.Prelude.{
  ℕ, zero, suc, ◌+◌, ◌-◌, ◌*◌, ◌/◌, ◌%◌, ◌^◌, ◌≤◌, ◌<◌, ◌≡◌, ◌≢◌, ◌∙◌, refl, ap, sym, subst, true,
  false, ◌&&◌, Option, none, some, inl, inr, ltb, leb, ◌==◌, arith, if◌then◌else◌, Bool-cases,
  bit_and, bit_and_fields, bit_and-zero, bit_and-ones,
}
use saturn_os.Arch.Mmu.{
  page_size, l2_block_size, l1_index, l2_block_desc, l3_page_desc, table_desc, device_memory_attr,
  desc_is_table, desc_is_l2_block, desc_is_l3_page, desc_address, l2_block_address, l3_page_address,
}
use saturn_os.Arch.Mmu.Descriptors.{Describes, l1_index_lem, l2_index_lem, l3_index_lem}
use saturn_os.Arch.Mmu.Encoding.{
  l3_page_desc-Describes, l2_block_desc-Describes, l2_block_address-l2_block_desc,
  table_desc-Describes, Describes-table, Describes-block,
}
use saturn_os.Memory.Vm.{
  Layout, Vm, vm_address_is_guard_page, kernel_l3_base, kernel_l3_end, device_mmio_end,
  l2_table_address, normal_xn_memory_attr, kernel_page_attributes, address_in_kernel_text,
  address_in_kernel_rodata,
}
use saturn_os.Memory.Vm.Build.{find_l2_table, build_tables}
use saturn_os.Memory.Vm.Blocks.{block_at}
use saturn_os.Memory.Vm.Regions.{find_l2_table_lem}
use saturn_os.Memory.Vm.Tables.{Built, build_tables-Built}
use saturn_os.Memory.Vm.Walk.{Translation, read_l3, walk_l3, walk_l2, translation_for_address}

-- The start of the page and of the block of an address.
abbrev pub page_of : ℕ → ℕ
page_of address = address / 2 ^ 12 * 2 ^ 12

abbrev pub block_of : ℕ → ℕ
block_of address = address / 2 ^ 21 * 2 ^ 21

-- The translations by ranges of addresses: the devices, the block of the kernel, and the other memory.
unfoldable pub reference : Layout → ℕ → Option Translation
reference at address =
    if leb 0x08000000 address && ltb address device_mmio_end
    then some (record {
      physical = address;
      descriptor = l2_block_desc (block_of address) device_memory_attr;
      level = 2;
    })
    else if leb kernel_l3_base address && ltb address kernel_l3_end
    then (if vm_address_is_guard_page at (page_of address)
        then none
        else some (record {
          physical = address;
          descriptor = l3_page_desc (page_of address) (kernel_page_attributes at (page_of address));
          level = 3;
        }))
    else if leb kernel_l3_end address && ltb address 0x48000000
    then some (record {
      physical = address;
      descriptor = l2_block_desc (block_of address) normal_xn_memory_attr;
      level = 2;
    })
    else none

pub page_offset : (address : ℕ) → bit_and address (page_size - 1) ≡ address % 2 ^ 12
page_offset address =
    bit_and_fields 12 (address / 2 ^ 12) 0 (address % 2 ^ 12) (2 ^ 12 - 1) {a = address}
      {b = page_size - 1} (omega arith) refl (omega arith) (omega arith)
    ∙ omega
        (arith, bit_and-zero (address / 2 ^ 12), bit_and-ones 12 (address % 2 ^ 12) (omega arith))

block_offset : (address : ℕ) → bit_and address (l2_block_size - 1) ≡ address % 2 ^ 21
block_offset address =
    bit_and_fields 21 (address / 2 ^ 21) 0 (address % 2 ^ 21) (2 ^ 21 - 1) {a = address}
      {b = l2_block_size - 1} (omega arith) refl (omega arith) (omega arith)
    ∙ omega
        (arith, bit_and-zero (address / 2 ^ 21), bit_and-ones 21 (address % 2 ^ 21) (omega arith))

-- Attributes leave the bits of the address and of the type of a descriptor free.
pub record Fields (attributes : ℕ) : Type 0 where
  pub high : ℕ
  pub low : ℕ
  pub sum : attributes ≡ high * 2 ^ 48 + low
  pub small : low < 2 ^ 12
  pub free : low % 4 ≡ 0

pub kernel_page_attributes-Fields : (at : Layout) (a : ℕ) → Fields (kernel_page_attributes at a)
unfolding kernel_page_attributes
kernel_page_attributes-Fields at a = elim (Bool-cases (address_in_kernel_text at a)) [
  | inl e ↦ rw e (record { high = 0; low = 1920; sum = refl; small = omega arith; free = refl })
  | inr e ↦ elim (Bool-cases (address_in_kernel_rodata at a)) [
    | inl f ↦
        rw (e, f) (record { high = 96; low = 1920; sum = refl; small = omega arith; free = refl })
    | inr f ↦
        rw (e, f) (record { high = 96; low = 1792; sum = refl; small = omega arith; free = refl })
  ]
]

pub page_desc-Describes :
    (page attributes : ℕ)
    → page < 2 ^ 36
    → Fields attributes
    → Describes 3 page attributes (l3_page_desc (page * page_size) attributes)
page_desc-Describes page attributes fits f =
    subst (λ a. Describes 3 page a (l3_page_desc (page * page_size) a)) (sym f.sum)
      (l3_page_desc-Describes f.high page f.low fits f.small f.free)

module _ (at : Layout) (s : Vm) (address : ℕ) where
  walk_l2-block :
      (block high low : ℕ)
      → block < 2 ^ 18
      → low < 2 ^ 12
      → low % 4 ≡ 0
      → address / 2 ^ 21 ≡ block
      → walk_l2 at s address (l2_block_desc (block * l2_block_size) (high * 2 ^ 48 + low))
        ≡ some (record {
          physical = address;
          descriptor = l2_block_desc (block * l2_block_size) (high * 2 ^ 48 + low);
          level = 2;
        })
  unfolding walk_l2
  walk_l2-block block high low fits small free here =
      let (_, is_block) =
        Describes-block _ _ _ (l2_block_desc-Describes high block low (omega arith) small free) in
      let physical : l2_block_address (l2_block_desc (block * l2_block_size) (high * 2 ^ 48 + low))
            + bit_and address (l2_block_size - 1)
          ≡ address =
        omega (
          arith,
          here,
          l2_block_address-l2_block_desc high block low (omega arith) small free,
          block_offset address,
        ) in
      rw (walk_l2, is_block)
        (ap
          (λ (p : ℕ). some (record {
            physical = p;
            descriptor = l2_block_desc (block * l2_block_size) (high * 2 ^ 48 + low);
            level = 2;
          }))
          physical)

  walk_l2-zero : walk_l2 at s address 0 ≡ none
  unfolding walk_l2 desc_is_l2_block desc_is_table
  walk_l2-zero = refl

  walk_l3-zero : walk_l3 at s address 0 ≡ none
  unfolding walk_l3 desc_is_l3_page
  walk_l3-zero = refl

  walk_l2-table :
      (page : ℕ)
      → page < 2 ^ 36
      → at.kernel_l3_table ≡ page * page_size
      → walk_l2 at s address (table_desc at.kernel_l3_table)
        ≡ walk_l3 at s address (s.kernel_l3_table (address / 2 ^ 12 % 512))
  unfolding walk_l2 read_l3
  walk_l2-table page fits where_it_is =
      let described = table_desc-Describes page fits in
      let (is_table, no_block, _) = Describes-table _ _ _ described in
      let found : desc_address (table_desc (page * page_size)) == page * page_size ≡ true =
        ground (arith, described.address) in
      rw (where_it_is, walk_l2, no_block, is_table) (rw (found, l3_index_lem address) refl)

  walk_l3-page :
      (page attributes : ℕ)
      → page < 2 ^ 36
      → Fields attributes
      → address / 2 ^ 12 ≡ page
      → walk_l3 at s address (l3_page_desc (page * page_size) attributes)
        ≡ some (record {
          physical = address;
          descriptor = l3_page_desc (page * page_size) attributes;
          level = 3;
        })
  unfolding walk_l3 l3_page_address desc_address
  walk_l3-page page attributes fits f here =
      let described = page_desc-Describes page attributes fits f in
      let (_, _, is_page) = Describes-table _ _ _ described in
      let physical : l3_page_address (l3_page_desc (page * page_size) attributes)
            + bit_and address (page_size - 1)
          ≡ address =
        omega (arith, here, described.address, page_offset address) in
      rw (walk_l3, is_page)
        (ap
          (λ (p : ℕ). some (record {
            physical = p;
            descriptor = l3_page_desc (page * page_size) attributes;
            level = 3;
          }))
          physical)

first_two {ℓ} :
    {A : Type ℓ} (f : ℕ → A) (other : A) (n : ℕ)
    → n < 2
    → (if n == 0 then f 0 else if n == 1 then f 1 else other) ≡ f n
first_two f other zero l = refl
first_two f other (suc zero) l = refl
first_two f other (suc (suc n)) l = ground (arith, l)

-- The linker puts the tables on pages below 2 ^ 48.
pub record IsPlaced (at : Layout) : Type 0 where
  pub l2_aligned : at.l2_tables % page_size ≡ 0
  pub l2_below : at.l2_tables + 4 * page_size ≤ 2 ^ 48
  pub l3_aligned : at.kernel_l3_table % page_size ≡ 0
  pub l3_below : at.kernel_l3_table < 2 ^ 48

module _ (at : Layout) (placed : IsPlaced at) (s : Vm) (built : Built at s) (address : ℕ)
    (small : address < 2 ^ 39) where
  abbrev i : ℕ
  i = address / 2 ^ 30

  abbrev j : ℕ
  j = address / 2 ^ 21 % 512

  i_lem : l1_index address ≡ i
  i_lem = l1_index_lem address ∙ omega arith

  find_lem :
      find_l2_table s (l1_index address)
      ≡ (if i == 0 then some 0 else if i == 1 then some 1 else none)
  find_lem =
      find_l2_table_lem s (l1_index address) built.used built.slot_zero built.slot_one
      ∙ rw i_lem refl

  no_table : 2 ≤ i → translation_for_address at s address ≡ none
  unfolding translation_for_address desc_is_table
  no_table l =
      let empty : s.l1_table (l1_index address) ≡ 0 =
        ap s.l1_table i_lem ∙ built.first i (omega arith) ∙ ground arith in
      rw (translation_for_address, empty) refl

  through :
      (slot : ℕ)
      → slot < 2
      → i ≡ slot
      → translation_for_address at s address ≡ walk_l2 at s address (s.l2_tables slot j)
  unfolding translation_for_address
  through slot l here =
      let page : ℕ = at.l2_tables / page_size + slot in
      let there : l2_table_address at slot ≡ page * page_size = omega (arith, placed.l2_aligned) in
      let (is_table, _, _) =
        Describes-table _ _ _ (table_desc-Describes page (omega (arith, placed.l2_below))) in
      let first : s.l1_table (l1_index address) ≡ table_desc (page * page_size) =
        ap s.l1_table i_lem
        ∙ built.first i (omega arith)
        ∙ (rw here (first_two (λ n. table_desc (l2_table_address at n)) 0 slot l)
            ∙ ap table_desc there) in
      let found : find_l2_table s (l1_index address) ≡ some slot =
        find_lem ∙ rw here (first_two (λ n. some n) none slot l) in
      rw (translation_for_address, first, is_table, found)
        (ap (λ (n : ℕ). walk_l2 at s address (s.l2_tables slot n)) (l2_index_lem address))

  block_index : i * 512 + j ≡ address / 2 ^ 21
  block_index = omega arith

  block_lem :
      (high low gigabyte : ℕ) {attributes : ℕ}
      → attributes ≡ high * 2 ^ 48 + low
      → low < 2 ^ 12
      → low % 4 ≡ 0
      → i ≡ gigabyte
      → walk_l2 at s address (l2_block_desc (block_at gigabyte j) attributes)
        ≡ some (record {
          physical = address;
          descriptor = l2_block_desc (block_of address) attributes;
          level = 2;
        })
  block_lem high low gigabyte {attributes} e fine free here =
      let block : block_at gigabyte j ≡ block_of address = omega (arith, block_index, here) in
      rw (block, e)
        (walk_l2-block at s address (address / 2 ^ 21) high low (omega arith) fine free refl)

  devices : i ≡ 0 → translation_for_address at s address ≡ reference at address
  unfolding reference
  devices here =
      through 0 (omega arith) here
      ∙ ap (walk_l2 at s address) (built.mmio j (omega arith))
      ∙ elim (Bool-cases (leb 64 j && ltb j 81)) [
        | inl inside ↦
            let range : leb 0x08000000 address && ltb address device_mmio_end ≡ true =
              ground (arith, block_index) in
            rw (inside, reference, range) (block_lem 96 1028 0 refl (omega arith) refl here)
        | inr outside ↦
            let range : leb 0x08000000 address && ltb address device_mmio_end ≡ false =
              ground (arith, block_index) in
            let kernel : leb kernel_l3_base address && ltb address kernel_l3_end ≡ false =
              ground (arith, block_index) in
            let ram : leb kernel_l3_end address && ltb address 0x48000000 ≡ false =
              ground (arith, block_index) in
            rw (outside, reference, range, kernel, ram) (walk_l2-zero at s address)
      ]

  -- In the block of the kernel the third level decides.
  kernel : i ≡ 1 → j ≡ 0 → translation_for_address at s address ≡ reference at address
  unfolding reference
  kernel here zeroth =
      let range : leb 0x08000000 address && ltb address device_mmio_end ≡ false =
        ground (arith, block_index) in
      let block : leb kernel_l3_base address && ltb address kernel_l3_end ≡ true =
        ground (arith, block_index) in
      let page : kernel_l3_base + address / 2 ^ 12 % 512 * 4096 ≡ page_of address =
        omega (arith, block_index) in
      through 1 (omega arith) here
      ∙ ap (walk_l2 at s address) (built.ram j (omega arith) ∙ rw zeroth refl)
      ∙ walk_l2-table at s address (at.kernel_l3_table / page_size) (omega (arith, placed.l3_below))
          (omega (arith, placed.l3_aligned))
      ∙ ap (walk_l3 at s address) (built.pages (address / 2 ^ 12 % 512) (omega arith))
      ∙ elim (Bool-cases (vm_address_is_guard_page at (page_of address))) [
        | inl guard ↦ rw (reference, range, block, page, guard) (walk_l3-zero at s address)
        | inr free ↦
            rw (reference, range, block, page, free)
              (walk_l3-page at s address (address / 2 ^ 12)
                (kernel_page_attributes at (page_of address)) (omega arith)
                (kernel_page_attributes-Fields at (page_of address)) refl)
      ]

  memory : i ≡ 1 → j ≢ 0 → translation_for_address at s address ≡ reference at address
  unfolding reference
  memory here later =
      let range : leb 0x08000000 address && ltb address device_mmio_end ≡ false =
        ground (arith, block_index) in
      let block : leb kernel_l3_base address && ltb address kernel_l3_end ≡ false =
        ground (arith, block_index) in
      let no_l3 : (j == 0) ≡ false = ground arith in
      through 1 (omega arith) here
      ∙ ap (walk_l2 at s address) (built.ram j (omega arith))
      ∙ elim (Bool-cases (ltb j 64)) [
        | inl inside ↦
            let ram : leb kernel_l3_end address && ltb address 0x48000000 ≡ true =
              ground (arith, block_index) in
            rw (no_l3, inside, reference, range, block, ram)
              (block_lem 96 1792 1 refl (omega arith) refl here)
        | inr outside ↦
            let ram : leb kernel_l3_end address && ltb address 0x48000000 ≡ false =
              ground (arith, block_index) in
            rw (no_l3, outside, reference, range, block, ram) (walk_l2-zero at s address)
      ]

  nothing : 2 ≤ i → translation_for_address at s address ≡ reference at address
  unfolding reference
  nothing l =
      let range : leb 0x08000000 address && ltb address device_mmio_end ≡ false = ground arith in
      let block : leb kernel_l3_base address && ltb address kernel_l3_end ≡ false = ground arith in
      let ram : leb kernel_l3_end address && ltb address 0x48000000 ≡ false = ground arith in
      no_table l ∙ sym (rw (reference, range, block, ram) refl)

  -- Every address is translated as the ranges say.
  pub translation_for_address-Built : translation_for_address at s address ≡ reference at address
  translation_for_address-Built = elim (Bool-cases (i == 0)) [
    | inl e ↦ devices (ground arith)
    | inr e ↦ elim (Bool-cases (i == 1)) [
      | inl f ↦ elim (Bool-cases (j == 0)) [
        | inl g ↦ kernel (ground arith) (ground arith)
        | inr g ↦ memory (ground arith) (ground arith)
      ]
      | inr f ↦ nothing (ground arith)
    ]
  ]

-- After `build_tables`, whatever the state was before, an address below 2 ^ 39 is translated to itself
-- where there is a device, memory or a page of the kernel, by the descriptor that its range calls for,
-- and an address elsewhere or in a guard page is not translated. The tables are on pages below 2 ^ 48.
pub translation_for_address-build_tables :
    (at : Layout) (s : Vm) (address : ℕ)
    → IsPlaced at
    → address < 2 ^ 39
    → translation_for_address at (build_tables at s).0 address ≡ reference at address
translation_for_address-build_tables at s address placed small =
    let (_, _, built) = build_tables-Built at s in
    translation_for_address-Built at placed (build_tables at s).0 built address small
