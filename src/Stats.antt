-- ===== src/Stats.antt =====
-- The stats module (gmodule/stats): the protocol between the eugene clients and the server.
pub mod Tokenizer
pub mod Protocol
pub mod Command
pub mod Database
pub mod Server
pub mod Client
pub mod Session
mod Tests
