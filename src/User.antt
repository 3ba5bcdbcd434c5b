-- ===== src/User.antt =====
-- kernel/user and arch/arm64/user.c: what the kernel does with the programs of users.
pub mod Executable
pub mod Sessions
