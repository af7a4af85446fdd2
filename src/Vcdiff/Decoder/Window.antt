-- ===== src/Vcdiff/Decoder/Window.antt =====
-- crates/vcdiff/src/decoder.rs: `decode_window` and the checks of a window's header.
use rust_crates.Prelude.{ℕ, not, ◌||◌, Option, none, some, bit_and, checked_add}
use rust_crates.Prelude.{ltb, ◌==◌, if◌then◌else◌}
use rust_crates.Vcdiff.Error.{SectionKind, DecodeContext, Result, ok, ◌>>=◌, ◌>>◌, refuse, ok_or}
use rust_crates.Vcdiff.Error.{
  data_section, instructions, addresses, invalid_window_indicator, invalid_delta_indicator,
  segment_out_of_bounds, target_size_limit, delta_length_mismatch, truncated_delta,
  compressed_section_without_compressor, checksum_mismatch, arithmetic_overflow,
}
use rust_crates.Vcdiff.Stream.{Stream}
use rust_crates.Vcdiff.Input
use rust_crates.Vcdiff.Input.{DeltaInput}
use rust_crates.Vcdiff.Decoder.Header.{Header}
use rust_crates.Vcdiff.Decoder.Instructions.{Segment, from_source, from_target}

-- `DecodeOptions` of options.rs
pub record DecodeOptions : Type 0 where
  pub max_target_size : ℕ
  pub max_window_memory : ℕ
  pub max_secondary_dictionary_size : ℕ

-- One round of the loop in `validate_compressed_sections`.
unfoldable pub validate_section : ℕ → ℕ → SectionKind → Option ℕ → DecodeContext → Result (Unit {0})
validate_section indicator bit section (some id) context = ok tt
validate_section indicator bit section none context =
    refuse (not (bit_and indicator bit == 0))
      (compressed_section_without_compressor section (record context { section = some section }))

unfoldable pub validate_compressed_sections : ℕ → Option ℕ → DecodeContext → Result (Unit {0})
unfolding validate_section
validate_compressed_sections indicator compressor_id context = do
  validate_section indicator 0x01 data_section compressor_id context
  validate_section indicator 0x02 instructions compressor_id context
  validate_section indicator 0x04 addresses compressor_id context

unfoldable pub truncated_section : ℕ → ℕ → ℕ → Option SectionKind
truncated_section delta_len instructions_start addresses_start =
    if ltb delta_len instructions_start
    then some data_section
    else if ltb delta_len addresses_start
    then some instructions
    else some addresses

module _ {D : Stream} where
  -- The segment of the window: `available` is the length of the source or of the target.
  unfoldable pub read_segment :
      ℕ → ℕ → ℕ → ℕ → DeltaInput D → Result (Option Segment × DeltaInput D)
  read_segment fuel indicator source_len output_len input =
      if bit_and indicator 0x03 == 0 then ok (none, input) else (do
        let context = Input.context input
        (len, input1) ← Input.read_varint fuel input
        (start, input2) ← Input.read_varint fuel input1
        end ← ok_or (checked_add start len) (arithmetic_overflow context)
        let use_source = not (bit_and indicator 0x01 == 0)
        let available = if use_source then source_len else output_len
        refuse (ltb available end)
            (segment_out_of_bounds (record { start = start; len = len }) available context)
        ok (
          some (record {
            kind = if use_source then from_source else from_target;
            start = start;
            len = len;
          }),
          input2,
        ))

  unfoldable pub read_checksum : ℕ → ℕ → DeltaInput D → Result (Option (ℕ × ℕ) × DeltaInput D)
  read_checksum fuel indicator input = if bit_and indicator 0x04 == 0 then ok (none, input) else (do
    (expected, after) ← Input.read_u32_be fuel input
    ok (some (expected, input.pos), after))

-- The checksum test at the end of a window.
unfoldable pub verify_checksum : Option (ℕ × ℕ) → ℕ → ℕ → Result (Unit {0})
verify_checksum none window actual = ok tt
verify_checksum (some (expected, delta_offset)) window actual =
    refuse (not (actual == expected)) (checksum_mismatch window expected actual delta_offset)

-- What `decode_window` reads before the sections.
pub record WindowHeader : Type 0 where
  pub segment : Option Segment
  pub target_size : ℕ
  pub delta_indicator : ℕ
  pub data_len : ℕ
  pub instructions_len : ℕ
  pub addresses_len : ℕ
  pub checksum : Option (ℕ × ℕ)

module _ {D : Stream} where
  -- The start of `decode_window`, up to the sections. `output_len` is `output.len()`.
  unfoldable pub read_window_header :
      ℕ → ℕ → ℕ → Header → DecodeOptions → ℕ → DeltaInput D → Result (WindowHeader × DeltaInput D)
  unfolding read_segment read_checksum
  read_window_header fuel source_len output_len header options window input = do
    (indicator, input1) ← Input.read_u8 fuel input
    refuse (not (bit_and indicator 0xf8 == 0) || (bit_and indicator 0x03 == 0x03))
        (invalid_window_indicator indicator (Input.context input))
    (segment, input2) ← read_segment fuel indicator source_len output_len input1
    let encoding_context = Input.context input2
    (encoding_len, input3) ← Input.read_varint fuel input2
    encoding_end ←
        ok_or (checked_add input3.pos encoding_len) (arithmetic_overflow encoding_context)
    let target_context = Input.context input3
    (target_size, input4) ← Input.read_varint fuel input3
    attempted ← ok_or (checked_add output_len target_size) (arithmetic_overflow target_context)
    refuse (ltb options.max_target_size attempted)
        (target_size_limit attempted options.max_target_size target_context)
    let delta_context = Input.context input4
    (delta_indicator, input5) ← Input.read_u8 fuel input4
    refuse (not (bit_and delta_indicator 0xf8 == 0))
        (invalid_delta_indicator delta_indicator delta_context)
    validate_compressed_sections delta_indicator header.compressor_id delta_context
    (data_len, input6) ← Input.read_varint fuel input5
    (instructions_len, input7) ← Input.read_varint fuel input6
    (addresses_len, input8) ← Input.read_varint fuel input7
    (checksum, input9) ← read_checksum fuel indicator input8
    let overflow = arithmetic_overflow (Input.context input9)
    instructions_start ← ok_or (checked_add input9.pos data_len) overflow
    addresses_start ← ok_or (checked_add instructions_start instructions_len) overflow
    sections_end ← ok_or (checked_add addresses_start addresses_len) overflow
    refuse (not (sections_end == encoding_end))
        (delta_length_mismatch encoding_end sections_end encoding_context)
    refuse (ltb input9.len sections_end) (
        truncated_delta (record {
          delta_offset = input9.len;
          window = some window;
          section = truncated_section input9.len instructions_start addresses_start;
        }))
    ok (
      record {
        segment = segment;
        target_size = target_size;
        delta_indicator = delta_indicator;
        data_len = data_len;
        instructions_len = instructions_len;
        addresses_len = addresses_len;
        checksum = checksum;
      },
      input9,
    )
