-- ===== src/Vcdiff/Djw.antt =====
-- crates/vcdiff/src/djw.rs: the sections that xdelta3 compresses with DJW, its static Huffman coder.
pub mod Fault
pub mod Bits
pub mod Book
pub mod Canonical
pub mod Assigning
pub mod Starts
pub mod Ordered
pub mod Counting
pub mod Symbol
pub mod Prefix
pub mod Spec
pub mod Built
pub mod Huffman
pub mod Kraft
pub mod BitView
pub mod RoundTrip
pub mod Checking
pub mod Machine
pub mod Advancing
pub mod Building
pub mod Totals
pub mod Settling
pub mod Expanding
pub mod Tables
pub mod Reading
pub mod Sectors
pub mod Total
pub mod Tokens
pub mod Section
