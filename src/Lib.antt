-- ===== src/Lib.antt =====
-- The crates `vcdiff` (crates/vcdiff/src), a streaming decoder for VCDIFF deltas, RFC 3284, with the
-- extensions of xdelta3, and `esl-writer` (crates/esl-writer/src), a writer of plugin files for games.
-- They do not use each other.
--
-- `decode_to` reads a delta from a stream through a buffer (`DeltaInput`), checks its header, and then
-- decodes one window after another: it reads the window's header and its three sections into memory,
-- passes compressed sections to a secondary decoder, and runs the instructions. An opcode selects a
-- pair of instructions in the default code table; sizes, data and addresses come from the sections by
-- cursors (`SliceCursor`), addresses through a cache (`AddressCache`). The instructions write to a
-- buffered target (`TargetWriter`), which reads its own output back for copies and sums each window
-- (`Adler32`). `decode` does the same with a target in memory.
--
-- A `Plugin` is built up by its methods, and `to_bytes` writes it: a `TES4` record that holds the counts
-- and the texts in Windows-1252, then each group with its records. Sizes that are known only at the end
-- are patched in, fields over 64 KiB get an `XXXX` field before them, and what the format cannot hold
-- is refused. `carrier_plugin` writes the smallest plugin without a builder.
--
-- Files, with the code that they model:
--   Prelude             lists, tests and machine words over the native numbers
--   Vcdiff/Error        crates/vcdiff/src/error.rs: DecodeError, DecodeContext; results and panics
--   Vcdiff/Stream       the traits Read, Write and Seek of std::io, as parameters
--   Vcdiff/Varint       the arithmetic that both varint readers share; Encoding: RFC 3284, section 2
--   Vcdiff/Cursor       crates/vcdiff/src/input.rs: SliceCursor
--   Vcdiff/Input        crates/vcdiff/src/input.rs: DeltaInput
--   Vcdiff/CodeTable    crates/vcdiff/src/code_table.rs: default_table
--   Vcdiff/Cache        crates/vcdiff/src/cache.rs: AddressCache
--   Vcdiff/Adler        crates/vcdiff/src/target.rs: Adler32
--   Vcdiff/Target       crates/vcdiff/src/target.rs: TargetWriter
--   Vcdiff/SourceCopy   crates/vcdiff/src/target.rs: copy_from_source, read_source_exact
--   Vcdiff/MemoryTarget crates/vcdiff/src/target.rs: FallibleMemoryTarget
--   Vcdiff/Djw          crates/vcdiff/src/djw.rs: decode_section; Spec: canonical Huffman codes; BitView: the
--                       bits of a section; RoundTrip: an encoder, as a specification of what is read;
--                       Total: decode_section on any bytes
--   Vcdiff/Secondary    crates/vcdiff/src/secondary.rs: SecondaryDecoder::prepare
--   Vcdiff/Decoder      crates/vcdiff/src/decoder.rs and options.rs: decode, decode_to, decode_window,
--                       run_instructions; Semantics: RFC 3284, sections 3 and 5, as a relation on the
--                       sections of a window
--   Esl/Error           crates/esl-writer/src/error.rs: WriteError
--   Esl/Game            crates/esl-writer/src/game.rs: Game
--   Esl/Win1252         crates/esl-writer/src/win1252.rs: encode_win1252; CodePage: the code page 1252
--   Esl/Write           crates/esl-writer/src/write.rs: fields, headers and strings
--   Esl/Content         crates/esl-writer/src/record.rs: Record, Group, write_group
--   Esl/Plugin          crates/esl-writer/src/plugin.rs: Plugin, to_bytes, carrier_plugin
--   Esl/Layout, Esl/Plugin/Layout
--                       the bytes of a plugin file, and what it can hold
--   Esl/Reader          a reader of plugin files, as a specification of what is written
--   Tests               the theorems at concrete inputs, and a small delta; Flushes: a target that shows
--                       what is written only once it is flushed
--
-- A method that changes its receiver returns the new receiver. Numbers are the native naturals, with
-- the checks of `checked_add` and the wrap-around of u32 and u64 written out. A result is a value, an
-- error, a panic, or `stuck`, which marks that fuel ran out. Loops that take at least a byte each time
-- have as many rounds as there are bytes, and the token loop of a DJW section has three for each value;
-- what is left to the caller as fuel is the number of attempts
-- of a loop that retries an interrupted call. Where the streams keep the promises of the traits one
-- attempt is enough for each read of the delta, and as many as the I/O buffer has bytes for draining
-- the output and for filling the scratch buffer.
--
-- The streams are parameters. What `Read`, `Write` and `Seek` promise when no call fails is stated in
-- Vcdiff/Stream, and Vcdiff/MemoryTarget/Laws fills it in for the target in memory. As
-- crates/vcdiff/README.md asks of a target, what is written need be visible to later reads and seeks
-- only once it is flushed. The decompressor of
-- LZMA sections is a parameter as well. No theorem is about the window headers, the delta's header or
-- the dispatch to a secondary decoder, which are modelled as definitions. Not modelled are the texts of
-- errors, allocations that fail, and the contents of the crates btdx and bsa. A Rust string is
-- the list of its code points, and an f32 is its bits.
pub mod Prelude
pub mod Vcdiff
pub mod Esl
mod Tests
