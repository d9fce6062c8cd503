-- ===== src/Scrobbler.antt =====
-- The scrobbler module (gmodule/scrobbler).
pub mod Record
pub mod Types
pub mod Response
pub mod Request
pub mod Submit
pub mod Journal
pub mod Player
mod Tests
