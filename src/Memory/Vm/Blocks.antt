-- ===== src/Memory/Vm/Blocks.antt =====
-- The loops of vm.c that fill the tables, entry by entry.
use saturn_os.Prelude.{
  ℕ, zero, suc, ◌+◌, ◌*◌, ◌^◌, ◌≤◌, ◌<◌, ◌≡◌, ◌≢◌, ◌∙◌, refl, ap, sym, subst, Bool, true, false,
  not, ◌&&◌, none, some, inl, inr, ltb, leb, ◌==◌, arith, if◌then◌else◌, Bool-cases, Finds,
  find_first-Finds, find_first-first, add64,
}
use saturn_os.Arch.Mmu.{l2_block_size, l1_index, l2_index, l2_block_desc}
use saturn_os.Arch.Mmu.Descriptors.{l1_index_lem, l2_index_lem}
use saturn_os.Memory.Vm.{Layout, Vm, l2_table_capacity, vm_address_is_guard_page, kernel_l3_base}
use saturn_os.Memory.Vm.Build.{
  find_l2_table, slot_holds, set_l2, count_block, new_l2_table, get_l2_table, map_block, map_blocks,
  map_page, map_pages, count_page, with_table, kernel_page_desc,
}

-- The address of a block of 2 MB.
abbrev pub block_at : ℕ → ℕ → ℕ
block_at gigabyte block = gigabyte * 2 ^ 30 + block * 2 ^ 21

-- What the loop over `n` blocks from the block `b` of a gigabyte on changes.
pub record Maps (gigabyte slot b n attributes : ℕ) (s s' : Vm) : Type 0 where
  pub first : s'.l1_table ≡ s.l1_table
  pub slots : s'.l2_slots ≡ s.l2_slots
  pub used : s'.used_l2_tables ≡ s.used_l2_tables
  pub counted : s.blocks_mapped + n < 2 ^ 64 → s'.blocks_mapped ≡ s.blocks_mapped + n
  pub pages_kept : s'.pages_mapped ≡ s.pages_mapped
  pub guards_kept : s'.guard_pages ≡ s.guard_pages
  pub validated_kept : s'.guard_pages_validated ≡ s.guard_pages_validated
  pub others : (t j : ℕ) → t ≢ slot → s'.l2_tables t j ≡ s.l2_tables t j
  pub blocks :
      (j : ℕ)
      → s'.l2_tables slot j ≡ (
          if leb b j && ltb j (b + n)
          then l2_block_desc (block_at gigabyte j) attributes
          else s.l2_tables slot j)

module _ (at : Layout) where
  pub get_l2_table-found :
      (s : Vm) (l1 slot : ℕ)
      → find_l2_table s l1 ≡ some slot
      → get_l2_table at s l1 ≡ (s, some slot)
  unfolding get_l2_table
  get_l2_table-found s l1 slot e = rw (e, get_l2_table) refl

  get_l2_table-new :
      (s : Vm) (l1 : ℕ)
      → find_l2_table s l1 ≡ none
      → s.used_l2_tables < l2_table_capacity
      → get_l2_table at s l1 ≡ (new_l2_table at s l1, some s.used_l2_tables)
  unfolding get_l2_table
  get_l2_table-new s l1 e room =
      let free : leb l2_table_capacity s.used_l2_tables ≡ false = ground arith in
      rw (e, get_l2_table, free) refl

  -- The table that was made is the one that is found afterwards.
  pub find_l2_table-new :
      (s : Vm) (l1 : ℕ)
      → find_l2_table s l1 ≡ none
      → find_l2_table (new_l2_table at s l1) l1 ≡ some s.used_l2_tables
  unfolding find_l2_table new_l2_table
  find_l2_table-new s l1 e =
      let missing =
        subst (Finds (slot_holds s l1) s.used_l2_tables 0) e
          (find_first-Finds (slot_holds s l1) s.used_l2_tables 0) in
      find_first-first (slot_holds (new_l2_table at s l1) l1) (s.used_l2_tables + 1)
        s.used_l2_tables (omega arith) (ground arith)
        (λ j l. ground (arith, missing j (omega arith) (omega arith)))

  -- The state after one round.
  abbrev one_block : Vm → ℕ → ℕ → ℕ → ℕ → Vm
  one_block s gigabyte slot b attributes =
      map_block at s slot (block_at gigabyte b) (block_at gigabyte b) attributes

  map_blocks-round :
      (n : ℕ) (s : Vm) (gigabyte slot b attributes : ℕ)
      → gigabyte < 512
      → b < 512
      → find_l2_table s gigabyte ≡ some slot
      → map_blocks at (suc n) s (block_at gigabyte b) (block_at gigabyte b) attributes
        ≡ map_blocks at n
            (one_block s gigabyte slot b attributes)
            (block_at gigabyte (suc b))
            (block_at gigabyte (suc b))
            attributes
  unfolding map_blocks with_table
  map_blocks-round n s gigabyte slot b attributes small fits e =
      let index : l1_index (block_at gigabyte b) ≡ gigabyte =
        l1_index_lem (block_at gigabyte b) ∙ omega arith in
      let next_one : add64 (block_at gigabyte b) l2_block_size ≡ block_at gigabyte (suc b) =
        omega arith in
      let table : get_l2_table at s (l1_index (block_at gigabyte b)) ≡ (s, some slot) =
        ap (get_l2_table at s) index ∙ get_l2_table-found s gigabyte slot e in
      ap
        (with_table (λ s' t.
          map_blocks at n (map_block at s' t (block_at gigabyte b) (block_at gigabyte b) attributes)
            (add64 (block_at gigabyte b) l2_block_size) (add64 (block_at gigabyte b) l2_block_size)
            attributes))
        table
      ∙ ap (λ (a : ℕ). map_blocks at n (one_block s gigabyte slot b attributes) a a attributes)
          next_one

  one_block-Maps :
      (s : Vm) (gigabyte slot b attributes : ℕ)
      → b < 512
      → Maps gigabyte slot b 1 attributes s (one_block s gigabyte slot b attributes)
  unfolding map_block set_l2 count_block
  one_block-Maps s gigabyte slot b attributes fits =
      let index : l2_index (block_at gigabyte b) ≡ b =
        l2_index_lem (block_at gigabyte b) ∙ omega arith in
      record {
        first = refl;
        slots = refl;
        used = refl;
        counted = λ l. omega (arith, l);
        pages_kept = refl;
        guards_kept = refl;
        validated_kept = refl;
        others = λ t j d. ground arith;
        blocks = λ j. elim (Bool-cases (j == b)) [
          | inl e ↦ let here : j ≡ b = ground arith in rw here (ground (arith, index))
          | inr e ↦ ground (arith, index)
        ];
      }

  Maps-then :
      (gigabyte slot b n attributes : ℕ) (s s' s'' : Vm)
      → Maps gigabyte slot b 1 attributes s s'
      → Maps gigabyte slot (suc b) n attributes s' s''
      → Maps gigabyte slot b (suc n) attributes s s''
  Maps-then gigabyte slot b n attributes s s' s'' m k = record {
    first = k.first ∙ m.first;
    slots = k.slots ∙ m.slots;
    used = k.used ∙ m.used;
    counted =
        λ l. let one = m.counted (omega arith) in let rest = k.counted (omega arith) in omega arith;
    pages_kept = k.pages_kept ∙ m.pages_kept;
    guards_kept = k.guards_kept ∙ m.guards_kept;
    validated_kept = k.validated_kept ∙ m.validated_kept;
    others = λ t j d. k.others t j d ∙ m.others t j d;
    blocks = λ j. let now = k.blocks j in let before = m.blocks j in ground (arith, now, before);
  }

  find_l2_table-kept :
      (s : Vm) (gigabyte slot b attributes l1 : ℕ)
      → find_l2_table (one_block s gigabyte slot b attributes) l1 ≡ find_l2_table s l1
  unfolding find_l2_table map_block set_l2 count_block
  find_l2_table-kept s gigabyte slot b attributes l1 = refl

  -- The blocks of one gigabyte whose table is there.
  pub map_blocks-Maps :
      (n : ℕ) (s : Vm) (gigabyte slot b attributes : ℕ)
      → gigabyte < 512
      → b + n ≤ 512
      → find_l2_table s gigabyte ≡ some slot
      → ((map_blocks at n s (block_at gigabyte b) (block_at gigabyte b) attributes).1 ≡ true)
        × Maps gigabyte slot b n attributes s
            (map_blocks at n s (block_at gigabyte b) (block_at gigabyte b) attributes).0
  unfolding map_blocks
  map_blocks-Maps zero s gigabyte slot b attributes small fits e = (
    refl,
    record {
      first = refl;
      slots = refl;
      used = refl;
      counted = λ l. omega arith;
      pages_kept = refl;
      guards_kept = refl;
      validated_kept = refl;
      others = λ t j d. refl;
      blocks = λ j. ground arith;
    },
  )
  map_blocks-Maps (suc n) s gigabyte slot b attributes small fits e =
      let s' : Vm = one_block s gigabyte slot b attributes in
      let (done, rest) =
        map_blocks-Maps n s' gigabyte slot (suc b) attributes small (omega arith)
          (find_l2_table-kept s gigabyte slot b attributes gigabyte ∙ e) in
      let round = map_blocks-round n s gigabyte slot b attributes small (omega arith) e in
      (
        ap (λ (r : Vm × Bool). r.1) round ∙ done,
        subst (λ (r : Vm × Bool). Maps gigabyte slot b (suc n) attributes s r.0) (sym round)
            (Maps-then gigabyte slot b n attributes s s' _
              (one_block-Maps s gigabyte slot b attributes (omega arith)) rest),
      )

  -- The same in a gigabyte without a table: it is made first.
  pub map_blocks-new :
      (n : ℕ) (s : Vm) (gigabyte b attributes : ℕ)
      → gigabyte < 512
      → b < 512
      → find_l2_table s gigabyte ≡ none
      → s.used_l2_tables < l2_table_capacity
      → map_blocks at (suc n) s (block_at gigabyte b) (block_at gigabyte b) attributes
        ≡ map_blocks at
            (suc n)
            (new_l2_table at s gigabyte)
            (block_at gigabyte b)
            (block_at gigabyte b)
            attributes
  unfolding map_blocks with_table
  map_blocks-new n s gigabyte b attributes small fits e room =
      let index : l1_index (block_at gigabyte b) ≡ gigabyte =
        l1_index_lem (block_at gigabyte b) ∙ omega arith in
      let table : get_l2_table at s (l1_index (block_at gigabyte b))
          ≡ (new_l2_table at s gigabyte, some s.used_l2_tables) =
        ap (get_l2_table at s) index ∙ get_l2_table-new s gigabyte e room in
      let again : get_l2_table at (new_l2_table at s gigabyte) (l1_index (block_at gigabyte b))
          ≡ (new_l2_table at s gigabyte, some s.used_l2_tables) =
        ap (get_l2_table at (new_l2_table at s gigabyte)) index
        ∙ get_l2_table-found (new_l2_table at s gigabyte) gigabyte s.used_l2_tables
            (find_l2_table-new s gigabyte e) in
      ap
        (with_table (λ s' t.
          map_blocks at n (map_block at s' t (block_at gigabyte b) (block_at gigabyte b) attributes)
            (add64 (block_at gigabyte b) l2_block_size) (add64 (block_at gigabyte b) l2_block_size)
            attributes))
        (table ∙ sym again)

  map_page_lem :
      (s : Vm) (i j : ℕ)
      → (map_page at s i).kernel_l3_table j ≡ (
          if (j == i) && not (vm_address_is_guard_page at (kernel_l3_base + j * 4096))
          then kernel_page_desc at j
          else s.kernel_l3_table j)
  unfolding map_page count_page
  map_page_lem s i j = elim (Bool-cases (j == i)) [
    | inl e ↦
        let here : j ≡ i = ground arith in
        rw (e, here)
          (elim (Bool-cases (vm_address_is_guard_page at (kernel_l3_base + i * 4096))) [
            | inl guard ↦ rw (guard, map_page) refl
            | inr free ↦ rw (free, map_page) (ground arith)
          ])
    | inr e ↦ elim (Bool-cases (vm_address_is_guard_page at (kernel_l3_base + i * 4096))) [
      | inl guard ↦ rw (e, guard, map_page) refl
      | inr free ↦ rw (free, map_page) (ground arith)
    ]
  ]

  -- What the loop over the pages from the page `i` on changes.
  pub map_pages_lem :
      (n i : ℕ) (s : Vm) (j : ℕ)
      → (map_pages at n i s).kernel_l3_table j ≡ (
          if leb i j
            && ltb j (i + n)
            && not (vm_address_is_guard_page at (kernel_l3_base + j * 4096))
          then kernel_page_desc at j
          else s.kernel_l3_table j)
  unfolding map_pages
  map_pages_lem zero i s j = ground arith
  map_pages_lem (suc n) i s j =
      let rest = map_pages_lem n (suc i) (map_page at s i) j in
      elim (Bool-cases (j == i)) [
        | inl e ↦ let here : j ≡ i = ground arith in ground (arith, rest, map_page_lem s i j)
        | inr e ↦ ground (arith, rest, map_page_lem s i j)
      ]

  map_page_rest :
      (s : Vm) (i : ℕ)
      → ((map_page at s i).l1_table ≡ s.l1_table)
        × ((map_page at s i).l2_tables ≡ s.l2_tables)
        × ((map_page at s i).l2_slots ≡ s.l2_slots)
        × ((map_page at s i).used_l2_tables ≡ s.used_l2_tables)
  unfolding map_page count_page
  map_page_rest s i = elim (Bool-cases (vm_address_is_guard_page at (kernel_l3_base + i * 4096))) [
    | inl guard ↦ rw (guard, map_page) (refl, refl, refl, refl)
    | inr free ↦ rw (free, map_page) (refl, refl, refl, refl)
  ]

  pub map_pages_rest :
      (n i : ℕ) (s : Vm)
      → ((map_pages at n i s).l1_table ≡ s.l1_table)
        × ((map_pages at n i s).l2_tables ≡ s.l2_tables)
        × ((map_pages at n i s).l2_slots ≡ s.l2_slots)
        × ((map_pages at n i s).used_l2_tables ≡ s.used_l2_tables)
  unfolding map_pages
  map_pages_rest zero i s = (refl, refl, refl, refl)
  map_pages_rest (suc n) i s =
      let (a, b, c, d) = map_pages_rest n (suc i) (map_page at s i) in
      let (e, f, g, h) = map_page_rest s i in (a ∙ e, b ∙ f, c ∙ g, d ∙ h)
