-- ===== src/Lib.antt =====
-- A verification library for SaturnOS, a small kernel for 64-bit ARM.
--
-- The kernel hands out physical pages (kernel/memory/pmm.c) and, on top of them, blocks of a
-- heap (kernel/memory/heap.c). At its start it maps its memory and the devices one to one, by
-- page tables (kernel/memory/vm.c) of descriptors (arch/arm64/mmu.c). The scheduler
-- (kernel/sched/scheduler.c) keeps a table of eight tasks, each with a stack between guard
-- pages; the timer's interrupt and the tasks' own calls change it. Files are kept in RAM by
-- kernel/fs/vfs.c, which passes every path below /disk on to SaturnFS (kernel/fs/sfs.c) on a
-- block device (kernel/storage/block.c), a disk in RAM or a virtio device. User tasks reach all
-- of this by system calls (kernel/syscall/syscall.c), which check the addresses they are given
-- against the regions of the caller (kernel/memory/address_space.c).
--
-- Memory/Pmm models pmm.c: `Pmm` is its bitmap, as bytes, and its counter, and each function of
-- the source is a function of its name from state to state. Pmm/Marks has the meaning of the
-- bits, Pmm/Alloc and Pmm/Reserve the operations one by one, Pmm/History sequences of calls.
-- Memory/Heap models heap.c: `Heap` has the blocks as a list in the order of their links, where
-- the source has pointers; `heap_tail` is the last block. Freeing a pointer to no block is not
-- defined, `none`. Heap/Account and Heap/Alloc have its sums.
-- Sched models scheduler.c: Task the structures of scheduler.h, Stacks the layout of the stacks,
-- State the variables and helpers, Switch the operations that pass the processor on, Create and
-- Control the others. `cpu_switch_to` is assembly, so an operation gives an `Outcome` that says
-- between which two tasks it is called. Sched/Invariant has the invariant, operation by
-- operation, and Invariant/Reach the calls as a step relation. Of arch/arm64/user.c and
-- kernel/memory/address_space.c it has what the scheduler reads and what the clearing of a task
-- slot changes.
-- Memory/Space models what address_space.c checks of user addresses, and the regions it checks
-- against.
-- Arch/Mmu models arch/arm64/mmu.c: a descriptor is a 64-bit number; Mmu/Descriptors and
-- Mmu/Encoding take it apart into its fields. Memory/Vm models kernel/memory/vm.c: `Vm` has its
-- variables and tables, `Layout` the addresses that the linker gives, Vm/Build makes the tables,
-- Vm/Walk translates an address, Vm/Validate has `vm_init` and the validation. Blocks, Counts,
-- Regions and Tables say what the tables hold entry by entry, Translate and Protection what the
-- translations are and permit, Validation and Start follow `vm_init` to its end.
-- Storage/Block models block.c, with the virtio driver as the parameter `VirtioBlk`.
-- Fs/Paths and Fs/Vfs model vfs.c: `Ramfs` has the sixteen nodes and the two counters, Vfs/Files
-- has what reads and writes files. The file system below /disk is the parameter `DiskFs`, which
-- SaturnFS (kernel/fs/sfs.c) fills as `sfs_disk`: Fs/Sfs has its tables and their bytes,
-- Sfs/Format mounts and formats, Sfs/Files reads and writes. Sfs/Contents has the files as a map
-- from paths to bytes, Entries the search for a path, Update and Writes what a write changes,
-- Tables the directory read back from its bytes, Mount, Stored and Empty what the disk holds,
-- and RoundTrip a file across a new start.
-- Syscall models kernel/syscall/syscall.c: `Kernel` is the state that the calls share, `memory`
-- the bytes at the addresses of the caller, Syscall/Paths, Files, Info and Process have the
-- handlers, Dispatch the switch. What other tasks do while the caller waits or sleeps is part of
-- the parameter `ProcessCalls`. Syscall/Confined has what the calls leave alone, handler by
-- handler.
-- User/Sessions models arch/arm64/user.c: a session is a task's stay in user mode, and the entry
-- itself, which is assembly, is a parameter whose result is `none` when control never comes back
-- from user mode. Sessions/Handlers has what ends a session, Runs a whole run with the return
-- from the exit call.
-- User/Executable models kernel/user/executable.c: a file is an array of bytes, and a pointer
-- into it is the number of bytes before it.
-- Prelude has the shared tests on numbers, arrays as functions of their index, and the searches,
-- counts and loops over them, with their lemmas.
--
-- Numbers are natural numbers. The counters of type unsigned long wrap at 2 ^ 64, written
-- `add64` and `sub64`; task numbers are small and do not. A negative `int` is `negsuc`. Paths
-- are lists of bytes without the closing zero. Most loops are bounded by the size of a table;
-- the loops that run over a range have the number of rounds as their argument. Only the loop of
-- `validate_region` runs on fuel, one round for each page of the region, and gives `none` when
-- it does not suffice; a round of the source passes over a page at least.
--
-- Not modelled: what is printed, devices, assembly and the page tables of users; the creation of
-- user tasks, which the system call spawn takes as a parameter; the shell and the keyboard.
pub mod Prelude
pub mod Arch
pub mod Memory
pub mod Sched
pub mod Storage
pub mod Fs
pub mod User
pub mod Syscall
