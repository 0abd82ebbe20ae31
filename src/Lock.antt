-- ===== src/Lock.antt =====
-- kernel/locking/lock.c: mutex locks, barriers, condition variables and mailboxes.
pub mod Mutex
pub mod Barrier
pub mod Condition
pub mod Mailbox
