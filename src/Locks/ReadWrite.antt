-- ===== src/Locks/ReadWrite.antt =====
-- The table's readers-writer lock of pokerapp/lock_manager.py: `_RWLockState`, `table_read_lock` and
-- `table_write_lock`, as steps between their waits. Each block under `reader_lock` is one step.
-- Metrics and log lines are left out, and the level checks are in Locks/Levels.
pub mod Tasks
pub mod Safety
unfoldable pub use Tasks.*
pub use Safety.*
