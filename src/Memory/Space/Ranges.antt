-- ===== src/Memory/Space/Ranges.antt =====
-- The checks of user addresses, against the regions byte by byte.
use saturn_os.Prelude.{
  ℕ, zero, suc, ◌+◌, ◌≤◌, ◌<◌, ◌≡◌, ◌↔◌, refl, sym, Bool, true, false, not, ◌&&◌, ◌||◌, bit_and,
  leb, Option, none, some, ltb, ◌==◌, if◌then◌else◌, arith, inl, inr, ◌⊎◌, ◌∙◌, Bool-cases,
  find_first, Finds, find_first-Finds, add64, word,
}
use saturn_os.Sched.Task.{AddressSpace, UserRegion, is_user_kind}
use saturn_os.Arch.Mmu.{desc_ap_mask, desc_ap_rw_el0, desc_pxn, desc_uxn, desc_has_user_access}
use saturn_os.Memory.Space.{
  region_count, accessible, writable_by_user, covers, is_found, some_region,
  address_space_user_range_valid, address_space_user_writable_range_valid, clear_user_regions,
  set_user_region, set_user_regions, code_start, code_end, data_start, data_end, user_stack_start,
  user_stack_end,
}

pub some_region_iff :
    (test : UserRegion → Bool) (space : AddressSpace)
    → (some_region test space ≡ true)
      ↔ ((i : ℕ) × (i < region_count) × (test (space.user_regions i) ≡ true))
unfolding some_region
some_region_iff test space = (found, finds)
  where
    go :
        (r : Option ℕ)
        → Finds (λ i. test (space.user_regions i)) region_count 0 r
        → is_found r ≡ true
        → (i : ℕ) × (i < region_count) × (test (space.user_regions i) ≡ true)
    go none f e = absurd (ground arith)
    go (some i) (hit, _, inside, _) e = (i, omega arith, hit)

    found :
        is_found (find_first (λ i. test (space.user_regions i)) region_count 0) ≡ true
        → (i : ℕ) × (i < region_count) × (test (space.user_regions i) ≡ true)
    found = go _ (find_first-Finds (λ i. test (space.user_regions i)) region_count 0)

    back :
        (r : Option ℕ)
        → Finds (λ i. test (space.user_regions i)) region_count 0 r
        → (i : ℕ) → i < region_count
        → test (space.user_regions i) ≡ true
        → is_found r ≡ true
    back none f i l h = let miss = f i (omega arith) (omega arith) in absurd (ground arith)
    back (some k) f i l h = refl

    finds :
        ((i : ℕ) × (i < region_count) × (test (space.user_regions i) ≡ true))
        → is_found (find_first (λ i. test (space.user_regions i)) region_count 0) ≡ true
    finds (i, l, h) =
        back _ (find_first-Finds (λ i. test (space.user_regions i)) region_count 0) i l h

-- A region that passes the test holds every address of the range, which does not wrap.
abbrev pub HasRegion : (UserRegion → Bool) → AddressSpace → ℕ → ℕ → Type 0
HasRegion test space address size =
    (i : ℕ) × (i < region_count)
    × (test (space.user_regions i) ≡ true)
    × ((space.user_regions i).start ≤ address)
    × (address + size ≤ (space.user_regions i).end)

-- What both checks have in common.
range_check : (UserRegion → Bool) → AddressSpace → ℕ → ℕ → Bool
range_check test space address size =
    if not (is_user_kind space.kind)
    then false
    else if size == 0
    then true
    else if ltb (add64 address size) address
    then false
    else some_region (λ r. test r && covers r address (add64 address size)) space

range_check_user :
    (space : AddressSpace) (address size : ℕ)
    → address_space_user_range_valid (some space) address size
      ≡ range_check accessible space address size
unfolding address_space_user_range_valid range_check
range_check_user space address size = refl

range_check_writable :
    (space : AddressSpace) (address size : ℕ)
    → address_space_user_writable_range_valid (some space) address size
      ≡ range_check writable_by_user space address size
unfolding address_space_user_writable_range_valid range_check
range_check_writable space address size = ground arith

module _ (test : UserRegion → Bool) (space : AddressSpace) (address size : ℕ)
    (fits : address < word) (short : size < word) where
  range_check_sound :
      range_check test space address size ≡ true
      → (is_user_kind space.kind ≡ true) × ((size ≡ 0) ⊎ HasRegion test space address size)
  unfolding range_check
  range_check_sound e = elim (Bool-cases (size == 0)) [
    | inl none_asked ↦ (ground arith, inl (ground arith))
    | inr some_asked ↦
        let ok : some_region (λ r. test r && covers r address (add64 address size)) space ≡ true =
          ground arith in
        let (i, l, h) =
          (some_region_iff (λ r. test r && covers r address (add64 address size)) space).0 ok in
        (ground arith, inr (i, l, ground arith, ground arith, ground arith))
  ]

  range_check_complete :
      ((i : ℕ) → i < region_count → (space.user_regions i).end < word)
      → is_user_kind space.kind ≡ true
      → (size ≡ 0) ⊎ HasRegion test space address size
      → range_check test space address size ≡ true
  unfolding range_check
  range_check_complete ends user (inl e) = ground arith
  range_check_complete ends user (inr (i, l, ok, low, high)) =
      let small = ends i l in
      let hit : some_region (λ r. test r && covers r address (add64 address size)) space ≡ true =
        (some_region_iff (λ r. test r && covers r address (add64 address size)) space).1
          (i, l, ground arith) in
      ground arith

-- For 64-bit arguments and regions that end below 2 ^ 64, a user range is accepted exactly when the
-- space is a user's and the range is empty or lies, without wrapping, inside one region with access.
pub user_range_valid_iff :
    (space : AddressSpace) (address size : ℕ)
    → address < word
    → size < word
    → ((i : ℕ) → i < region_count → (space.user_regions i).end < word)
    → (address_space_user_range_valid (some space) address size ≡ true)
      ↔ ((is_user_kind space.kind ≡ true) × ((size ≡ 0) ⊎ HasRegion accessible space address size))
user_range_valid_iff space address size fits short ends = (
  λ e.
      range_check_sound accessible space address size fits short
        (sym (range_check_user space address size) ∙ e),
  λ (user, r).
      range_check_user space address size
      ∙ range_check_complete accessible space address size fits short ends user r,
)

-- For 64-bit arguments and regions that end below 2 ^ 64, a range to be written is accepted exactly when
-- the space is a user's and the range is empty or lies, without wrapping, inside one region that the
-- user may write to.
pub user_writable_range_valid_iff :
    (space : AddressSpace) (address size : ℕ)
    → address < word
    → size < word
    → ((i : ℕ) → i < region_count → (space.user_regions i).end < word)
    → (address_space_user_writable_range_valid (some space) address size ≡ true) ↔ (
        (is_user_kind space.kind ≡ true)
        × ((size ≡ 0) ⊎ HasRegion writable_by_user space address size))
user_writable_range_valid_iff space address size fits short ends = (
  λ e.
      range_check_sound writable_by_user space address size fits short
        (sym (range_check_writable space address size) ∙ e),
  λ (user, r).
      range_check_writable space address size
      ∙ range_check_complete writable_by_user space address size fits short ends user r,
)

-- Whether the user may write the byte at an address.
abbrev pub Writable : Option AddressSpace → ℕ → Type 0
Writable none a = ⊥
Writable (some space) a =
    (is_user_kind space.kind ≡ true)
    × ((i : ℕ) × (i < region_count)
        × (writable_by_user (space.user_regions i) ≡ true)
        × ((space.user_regions i).start ≤ a)
        × (a < (space.user_regions i).end))

-- Each byte of an accepted range can be written by the user.
pub writable_range_bytes :
    (space : Option AddressSpace) (address size a : ℕ)
    → address < word
    → size < word
    → address_space_user_writable_range_valid space address size ≡ true
    → address ≤ a
    → a < address + size
    → Writable space a
unfolding address_space_user_writable_range_valid
writable_range_bytes none address size a fits short e low high = absurd (ground arith)
writable_range_bytes (some space) address size a fits short e low high =
    let (user, region) =
      range_check_sound writable_by_user space address size fits short
        (sym (range_check_writable space address size) ∙ e) in
    elim region [
      | inl nothing ↦ absurd (omega arith)
      | inr (i, l, ok, start, end) ↦ (user, (i, l, ok, omega arith, omega arith))
    ]

-- The rights that the access bits and the execution bits of a region's page attributes give, and the
-- flags of the region: `write` and `execute` are those of the user, and the kernel may not execute.
pub record GivesRights (r : UserRegion) (write execute : Bool) : Type 0 where
  pub read_bits : desc_has_user_access r.attributes ≡ true
  pub write_bits : (bit_and r.attributes desc_ap_mask == desc_ap_rw_el0) ≡ write
  pub execute_bits : (bit_and r.attributes desc_uxn == 0) ≡ execute
  pub kernel_bits : (bit_and r.attributes desc_pxn == desc_pxn) ≡ true
  pub read_flag : accessible r ≡ true
  pub write_flag : writable_by_user r ≡ write
  pub execute_flag : r.executable ≡ execute

-- An address in a region of a new user space may be read by the user, written just when it lies in the
-- data or in the stack, and executed just when it lies in the code, both by the page attributes of its
-- region and by the flags that the checks read; the kernel may execute none of them.
pub set_user_regions-Rights :
    (space : AddressSpace) (i a : ℕ)
    → i < region_count
    → ((set_user_regions space).user_regions i).start ≤ a
    → a < ((set_user_regions space).user_regions i).end
    → GivesRights
        ((set_user_regions space).user_regions i)
        ((leb data_start a && ltb a data_end) || (leb user_stack_start a && ltb a user_stack_end))
        (leb code_start a && ltb a code_end)
unfolding set_user_regions set_user_region clear_user_regions desc_has_user_access
set_user_regions-Rights space zero a l low high = record {
  read_bits = refl;
  write_bits = ground arith;
  execute_bits = ground arith;
  kernel_bits = refl;
  read_flag = refl;
  write_flag = ground arith;
  execute_flag = ground arith;
}
set_user_regions-Rights space (suc zero) a l low high = record {
  read_bits = refl;
  write_bits = ground arith;
  execute_bits = ground arith;
  kernel_bits = refl;
  read_flag = refl;
  write_flag = ground arith;
  execute_flag = ground arith;
}
set_user_regions-Rights space (suc (suc zero)) a l low high = record {
  read_bits = refl;
  write_bits = ground arith;
  execute_bits = ground arith;
  kernel_bits = refl;
  read_flag = refl;
  write_flag = ground arith;
  execute_flag = ground arith;
}
set_user_regions-Rights space (suc (suc (suc k))) a l low high = absurd (omega arith)
