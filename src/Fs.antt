-- ===== src/Fs.antt =====
-- The file system, kernel/fs/fs.c.
pub mod Cache
pub mod State
pub mod Maps
pub mod Blocks
pub mod Files
pub mod Paths
pub mod Inodes
pub mod Dirs
pub mod Create
pub mod Free
pub mod Remove
pub mod Open
pub mod Mkfs
