-- ===== src/Fs.antt =====
-- kernel/fs: the file system interface with its RAM file system, and SaturnFS.
pub mod Paths
pub mod Disk
pub mod Vfs
pub mod Sfs
