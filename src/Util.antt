-- ===== src/Util.antt =====
-- src/util.h: the small shared helpers that compute (reading a file and the clock do not).
pub mod Hex
pub mod Slug
pub mod Decimal
pub mod Strtol
pub mod Base64
pub mod ChunkId
