-- ===== src/Vcdiff.antt =====
-- crates/vcdiff: the VCDIFF (RFC 3284) decoder.
pub mod Error
pub mod Stream
pub mod Varint
pub mod Cursor
pub mod Input
pub mod CodeTable
pub mod Cache
pub mod Adler
pub mod Target
pub mod SourceCopy
pub mod MemoryTarget
pub mod Djw
pub mod Secondary
pub mod Decoder
