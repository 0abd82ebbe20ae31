-- ===== src/Tests.antt =====
-- A small kernel state, runs of the model on it, and the theorems at concrete inputs.
mod Demo
mod Scheduling
mod Locks
mod Memory
mod Files
mod Rings
mod Paging
mod Blocks
mod Devices
mod Dirs
