-- ===== src/Locks/Reentrant.antt =====
-- `ReentrantAsyncLock` of pokerapp/utils/locks.py. A task is its number, and no task `none`. The
-- inner `asyncio.Lock` is locked or not; a task that waits for it tries again when it is released.
pub mod Defs
pub mod Depths
unfoldable pub use Defs.*
pub use Depths.*
