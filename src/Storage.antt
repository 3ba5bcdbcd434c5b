-- ===== src/Storage.antt =====
-- kernel/storage: the block device.
pub mod Block
