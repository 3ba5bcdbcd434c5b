-- ===== src/Memory/Vm/Protection.antt =====
-- What the descriptors of the kernel's translations of vm.c permit.
use saturn_os.Prelude.{ℕ, ◌^◌, ◌<◌, ◌≡◌, true, false, ◌&&◌, ◌||◌, Option, none, some}
use saturn_os.Arch.Mmu.{desc_is_read_only, desc_has_user_access}
use saturn_os.Arch.Mmu.Descriptors.{is_never_executed}
use saturn_os.Memory.Vm.{Layout, Vm, address_in_kernel_text}
use saturn_os.Memory.Vm.Walk.{Translation}
use saturn_os.Memory.Vm.Translate.{page_of}

-- Nothing for user mode; and the descriptor has both bits that forbid execution, or is read-only and
-- the page is in the kernel's text.
pub record IsProtected (at : Layout) (address descriptor : ℕ) : Type 0 where
  pub no_user : desc_has_user_access descriptor ≡ false
  pub no_write :
      (is_never_executed descriptor
        || (desc_is_read_only descriptor && address_in_kernel_text at (page_of address)))
      ≡ true

module _ (at : Layout) (address : ℕ) (small : address < 2 ^ 39) where
  -- The same of a translation, where there is one.
  Protected : Option Translation → Type 0
  Protected none = Unit
  Protected (some t) = IsProtected at address t.descriptor
