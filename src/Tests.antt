-- ===== src/Tests.antt =====
-- Concrete runs of the program's parts: the theorems applied to small tables and wallets.
pub mod Data
pub mod Table
pub mod Callbacks
pub mod Hands
pub mod Actions
pub mod Engine
pub mod Stored
pub mod Locking
pub mod Managers
pub mod Joins
pub mod Deadlocks
pub mod Batches
pub mod Countdowns
pub mod Money
pub mod Whole
