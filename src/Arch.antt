-- ===== src/Arch.antt =====
-- arch/arm64: the descriptors of the page tables.
pub mod Mmu
