-- ===== src/Arch/Mmu/Examples.antt =====
-- The theorems of the descriptors at concrete pages.
use saturn_os.Prelude.{◌+◌, ◌*◌, ◌^◌, refl, arith}
use saturn_os.Arch.Mmu.{page_size, l3_page_desc}
use saturn_os.Arch.Mmu.Descriptors.{Describes}
use saturn_os.Arch.Mmu.Encoding.{l3_page_desc-Describes}

-- The page at 0x40080000 with read-only data: never executed.
l3_page_desc-Describes_example :
    Describes 3 0x40080
      (96 * 2 ^ 48 + 1920)
      (l3_page_desc (0x40080 * page_size) (96 * 2 ^ 48 + 1920))
l3_page_desc-Describes_example =
    l3_page_desc-Describes 96 0x40080 1920 (omega arith) (omega arith) refl
