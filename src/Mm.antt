-- ===== src/Mm.antt =====
-- Memory management: kernel/mm/mm.c and include/os/mm.h.
pub mod Bitmap
pub mod PageNode
pub mod Alloc
pub mod Pte
pub mod Walk
pub mod Swap
pub mod Paging
pub mod Fault
pub mod Shm
