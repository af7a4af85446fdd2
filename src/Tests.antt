-- ===== src/Tests.antt =====
-- Examples: the theorems at concrete inputs, and small deltas.
mod Decoding
mod Sections
mod Streams
mod Copies
mod Flushes
mod Windows
mod Plugins
mod Huffman
