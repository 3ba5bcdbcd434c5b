-- ===== src/Memory.antt =====
-- kernel/memory: the page allocator, the heap on top of it, the address spaces of user tasks, and the kernel's page
-- tables.
pub mod Pmm
pub mod Heap
pub mod Space
pub mod Vm
