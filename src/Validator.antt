-- ===== src/Validator.antt =====
-- pokerapp/state_validator.py: what is wrong with a game that was read back, and its recovery.
pub mod Defs
pub mod Recovery
pub mod Hands
unfoldable pub use Defs.*
pub use Recovery.*
pub use Hands.*
