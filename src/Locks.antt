-- ===== src/Locks.antt =====
-- The locks: pokerapp/utils/locks.py, and of pokerapp/lock_manager.py the readers-writer lock of a
-- table, the in-memory store of action locks, the order on lock levels, the waiting times, the
-- search for deadlocks, and the acquisition of one lock or of a batch.
pub mod Reentrant
pub mod ReadWrite
pub mod ActionStore
pub mod Levels
pub mod Circuit
pub mod Deadlock
pub mod Batches
