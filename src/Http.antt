-- ===== src/Http.antt =====
-- protocol/src/http: messages, and the incremental parser of requests and responses.
pub mod Text
pub mod Version
pub mod Method
pub mod State
pub mod Message
pub mod Lexer
pub mod Parser
pub mod Sample
mod Tests
