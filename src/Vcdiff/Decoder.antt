-- ===== src/Vcdiff/Decoder.antt =====
-- crates/vcdiff/src/decoder.rs: windows and whole deltas.
pub mod Header
pub mod Instructions
pub mod Window
pub mod Semantics
pub mod Performing
pub mod Copying
pub mod Executing
pub mod Running
pub mod Answering
pub mod Safety
pub mod Termination
use rust_crates.Prelude.{
  ℕ, zero, suc, ◌+◌, not, Option, none, some, List, bit_and, checked_add, checked_sub,
}
use rust_crates.Prelude.{◌==◌, if◌then◌else◌}
use rust_crates.Vcdiff.Error.{Result, ok, stuck, ◌>>=◌, ◌>>◌, refuse, ok_or}
use rust_crates.Vcdiff.Error.{
  data_section, instructions, addresses, target_size_mismatch, arithmetic_overflow,
}
use rust_crates.Vcdiff.Stream.{Stream}
use rust_crates.Vcdiff.Input
use rust_crates.Vcdiff.Input.{DeltaInput}
use rust_crates.Vcdiff.CodeTable.{Entry, default_table}
use rust_crates.Vcdiff.Target
use rust_crates.Vcdiff.Target.{TargetWriter}
use rust_crates.Vcdiff.MemoryTarget
use rust_crates.Vcdiff.MemoryTarget.{memory_stream}
use rust_crates.Vcdiff.Secondary
use rust_crates.Vcdiff.Secondary.{Codecs, SecondaryDecoder}
use Header.{measure_source, measure_delta, validate_target, parse_header}
use Instructions.{WindowContext, WindowSections, run_instructions}
use Window.{DecodeOptions, read_window_header, verify_checksum}

module _ (S T : Stream) {D : Stream} (codecs : Codecs D) where
  open codecs use {LzmaStates}

  unfoldable pub read_sections :
      ℕ
      → ℕ
      → ℕ
      → ℕ
      → ℕ
      → ℕ
      → ℕ
      → SecondaryDecoder LzmaStates
      → DeltaInput D
      → Result (WindowSections × SecondaryDecoder LzmaStates × DeltaInput D)
  read_sections fuel data_len instructions_len addresses_len indicator window limit codec input = do
    (data_bytes, memory1, codec1, input1) ←
        Secondary.prepare codecs fuel data_len (not (bit_and indicator 0x01 == 0)) data_section
          window 0 limit codec input
    (insts, memory2, codec2, input2) ←
        Secondary.prepare codecs fuel instructions_len (not (bit_and indicator 0x02 == 0))
          instructions window memory1 limit codec1 input1
    (addrs, memory3, codec3, input3) ←
        Secondary.prepare codecs fuel addresses_len (not (bit_and indicator 0x04 == 0)) addresses
          window memory2 limit codec2 input2
    ok (record { data_bytes = data_bytes; instructions = insts; addresses = addrs }, codec3, input3)

  -- What the loop of `decode_to` changes.
  pub record Decoding : Type 0 where
    pub input : DeltaInput D
    pub source : S.State
    pub output : TargetWriter T
    pub secondary : SecondaryDecoder LzmaStates

module _ (S T : Stream) {D : Stream} (codecs : Codecs D) where
  open codecs use {LzmaStates}

  unfoldable pub decode_window :
      ℕ
      → ℕ
      → List Entry
      → Header.Header
      → DecodeOptions
      → ℕ
      → Decoding S T codecs
      → Result (Decoding S T codecs)
  decode_window fuel source_len table header options window d = do
    let input0 = Input.set_section none d.input
    (fields, input1) ←
        read_window_header fuel source_len (Target.len d.output) header options window input0
    (sections, secondary, read) ←
        read_sections S T codecs fuel fields.data_len fields.instructions_len fields.addresses_len
          fields.delta_indicator window options.max_window_memory d.secondary input1
    let input2 = Input.set_section none read
    let window_start = Target.len d.output
    let context : WindowContext = record {
      index = window;
      window_start = window_start;
      segment = fields.segment;
      target_size = fields.target_size;
    }
    (source, output) ←
        run_instructions S fuel context table sections d.source
          (Target.begin_window window (Input.context input0) d.output)
    actual_size ←
        ok_or (checked_sub (Target.len output) window_start)
          (arithmetic_overflow (Input.context input2))
    refuse (not (actual_size == fields.target_size))
        (target_size_mismatch fields.target_size actual_size (Input.context input2))
    verify_checksum fields.checksum window (Target.checksum output)
    finished ← Target.finish_window fuel output
    ok (record { input = input2; source = source; output = finished; secondary = secondary })

  -- `while !input.is_empty()`. Each round takes a byte of the delta at least.
  unfoldable pub window_loop :
      ℕ
      → ℕ
      → ℕ
      → List Entry
      → Header.Header
      → DecodeOptions
      → ℕ
      → Decoding S T codecs
      → Result (Decoding S T codecs)
  window_loop zero fuel source_len table header options window d =
      if Input.is_empty d.input then ok d else stuck
  window_loop (suc rounds) fuel source_len table header options window d =
      let after : Result (Decoding S T codecs) = (do
        d' ←
            decode_window fuel source_len table header options window
              (record d { input = Input.set_window (some window) d.input })
        window' ← ok_or (checked_add window 1) (arithmetic_overflow (Input.context d'.input))
        window_loop rounds fuel source_len table header options window' d') in
      if Input.is_empty d.input then ok d else after

  -- The answer holds the three streams as the call leaves them.
  unfoldable pub decode_to :
      ℕ → S.State → D.State → T.State → DecodeOptions → Result (S.State × D.State × T.State)
  decode_to fuel source delta target options = do
    (source_len, source') ← measure_source S source
    (delta_len, delta') ← measure_delta D delta
    target' ← validate_target T target
    (header, input) ← parse_header fuel (Input.new delta' delta_len)
    d ← window_loop delta_len fuel source_len default_table header options 0 (record {
      input = input;
      source = source';
      output = Target.new target';
      secondary = Secondary.new codecs header.compressor_id options.max_secondary_dictionary_size;
    })
    output ← Target.finish fuel d.output
    ok (d.source, d.input.reader, output.target)

abbrev pub memory_target_limit : ℕ
memory_target_limit = 1073741824

-- `decode` wraps its two slices in `io::Cursor`, so the streams over them are parameters.
module _ (S : Stream) {D : Stream} (codecs : Codecs D) where
  unfoldable pub decode : ℕ → S.State → D.State → Result (List ℕ)
  decode fuel source delta = do
    let options : DecodeOptions = record {
      max_target_size = memory_target_limit;
      max_window_memory = memory_target_limit;
      max_secondary_dictionary_size = 67108864;
    }
    (source', delta', target) ←
        decode_to S memory_stream codecs fuel source delta MemoryTarget.new options
    ok (MemoryTarget.into_inner target)
