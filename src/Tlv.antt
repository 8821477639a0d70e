-- ===== src/Tlv.antt =====
-- protocol/src/tlv: the type-length-value protocol and its integer codecs.
pub mod Width
pub mod Zigzag
pub mod Variant
pub mod Message
pub mod Parser
mod Tests
