-- ===== src/Rpc.antt =====
-- The remote procedure calls of rpc/src: the framed connection.
pub mod Connection
pub mod Message
pub mod Server
pub mod Channel
pub mod Answers
pub mod Call
pub mod Accept
mod Sample
mod Tests
