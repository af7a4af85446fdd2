-- ===== src/Vcdiff/Secondary.antt =====
-- crates/vcdiff/src/secondary.rs: the sections of a window, decompressed where they are compressed.
-- What turns the fragment of an LZMA section into its bytes, `LzmaStates::decode`, is a parameter of
-- this module; all that stands around it is modelled.
-- Memory that the allocator refuses is not modelled.
use rust_crates.Prelude.{
  ℕ, zero, suc, Bool, not, Option, none, some, List, bit_and, checked_add, checked_sub,
}
use rust_crates.Prelude.{ltb, leb, ◌==◌, if◌then◌else◌}
use rust_crates.Vcdiff.Error.{
  SectionKind, DecodeContext, Result, ok, err, ◌>>=◌, ◌>>◌, refuse, ok_or, try_usize,
}
use rust_crates.Vcdiff.Error.{
  truncated_delta, varint_overflow, arithmetic_overflow, window_memory_limit,
  invalid_secondary_size, malformed_secondary_section, secondary_input_mismatch,
  compressed_section_without_compressor,
}
use rust_crates.Vcdiff.Stream.{Stream}
use rust_crates.Vcdiff.Varint.{push_group}
use rust_crates.Vcdiff.Djw.Fault.{xdelta_djw_id}
use rust_crates.Vcdiff.Djw.Section.{decode_section}
use rust_crates.Vcdiff.Input
use rust_crates.Vcdiff.Input.{DeltaInput}

abbrev pub xdelta_lzma_id : ℕ
xdelta_lzma_id = 2

pub record PreparedSection : Type 0 where
  pub bytes : List ℕ
  pub delta_offset : ℕ

-- The LZMA decompressor. `lzma_decode states input section_end fragment_len decoded_size kind context`
-- answers with the bytes of the section and with the input behind the fragment.
pub record Codecs (D : Stream) : Type 1 where
  pub LzmaStates : Type 0
  pub lzma_new : ℕ → LzmaStates
  pub lzma_decode :
      LzmaStates
      → DeltaInput D
      → ℕ
      → ℕ
      → ℕ
      → SectionKind
      → DecodeContext
      → Result (List ℕ × LzmaStates × DeltaInput D)

-- `SecondaryDecoder`, whose one field is `codec: Option<SecondaryCodec>`
pub data SecondaryDecoder (States : Type 0) : Type 0 where
  no_codec djw : SecondaryDecoder States
  lzma : States → SecondaryDecoder States

-- `allocate_section`: the memory in use afterwards
unfoldable pub allocate_section : ℕ → DecodeContext → ℕ → ℕ → Result ℕ
allocate_section len context active_memory limit = do
  attempted ← ok_or (checked_add active_memory len) (arithmetic_overflow context)
  refuse (ltb limit attempted) (window_memory_limit attempted limit context)
  len_usize ← try_usize len context
  ok attempted

module _ {D : Stream} where
  unfoldable pub bounded_varint_loop :
      ℕ → ℕ → ℕ → ℕ → ℕ → DecodeContext → DeltaInput D → Result (ℕ × DeltaInput D)
  bounded_varint_loop zero fuel section_end id value context input = err (varint_overflow context)
  bounded_varint_loop (suc rounds) fuel section_end id value context input = do
    refuse (leb section_end input.pos) (malformed_secondary_section id context)
    (byte, after) ← Input.read_u8 fuel input
    value' ← ok_or (push_group value byte) (varint_overflow context)
    let rest = bounded_varint_loop rounds fuel section_end id value' context after
    if bit_and byte 0x80 == 0 then ok (value', after) else rest

  unfoldable pub read_bounded_varint :
      ℕ → ℕ → ℕ → DecodeContext → DeltaInput D → Result (ℕ × DeltaInput D)
  read_bounded_varint fuel section_end id context input =
      bounded_varint_loop 10 fuel section_end id 0 context input

module _ {D : Stream} (codecs : Codecs D) where
  open codecs use {LzmaStates, lzma_new, lzma_decode}

  -- `SecondaryDecoder::new`
  unfoldable pub new : Option ℕ → ℕ → SecondaryDecoder LzmaStates
  new none max_dictionary_size = no_codec
  new (some id) max_dictionary_size =
      if id == xdelta_djw_id
      then djw
      else if id == xdelta_lzma_id
      then lzma (lzma_new max_dictionary_size)
      else no_codec

  unfoldable pub compressor_id : SecondaryDecoder LzmaStates → Option ℕ
  compressor_id no_codec = none
  compressor_id djw = some xdelta_djw_id
  compressor_id (lzma states) = some xdelta_lzma_id

  -- The `match self.codec` of `prepare`.
  unfoldable pub decode_fragment :
      ℕ
      → SecondaryDecoder LzmaStates
      → DeltaInput D
      → ℕ
      → ℕ
      → ℕ
      → ℕ
      → ℕ
      → SectionKind
      → DecodeContext
      → Result (List ℕ × SecondaryDecoder LzmaStates × DeltaInput D)
  decode_fragment fuel no_codec input section_end fragment_len decoded_size memory limit kind
        context =
      err (compressed_section_without_compressor kind context)
  decode_fragment fuel djw input section_end fragment_len decoded_size memory limit kind context =
      do
        (bytes, after) ← decode_section fuel input section_end decoded_size memory limit
        actual ← ok_or (checked_sub after.pos input.pos) (arithmetic_overflow (Input.context after))
        refuse (not (actual == fragment_len)) (secondary_input_mismatch fragment_len actual context)
        ok (bytes, djw, after)
  decode_fragment fuel (lzma states) input section_end fragment_len decoded_size memory limit kind
        context =
      do
        (bytes, states', after) ←
            lzma_decode states input section_end fragment_len decoded_size kind context
        ok (bytes, lzma states', after)

  -- The part of `prepare` for a compressed section.
  unfoldable pub prepare_compressed :
      ℕ
      → ℕ
      → SectionKind
      → DecodeContext
      → ℕ
      → ℕ
      → SecondaryDecoder LzmaStates
      → DeltaInput D
      → Result (PreparedSection × ℕ × SecondaryDecoder LzmaStates × DeltaInput D)
  unfolding decode_fragment
  prepare_compressed fuel encoded_len kind context memory limit codec input = do
    id ← ok_or (compressor_id codec) (compressed_section_without_compressor kind context)
    section_end ← ok_or (checked_add input.pos encoded_len) (arithmetic_overflow context)
    refuse (ltb input.len section_end) (truncated_delta context)
    (decoded_size, sized) ← read_bounded_varint fuel section_end id context input
    refuse (decoded_size == 0) (invalid_secondary_size decoded_size context)
    fragment_len ← ok_or (checked_sub section_end sized.pos) (arithmetic_overflow context)
    memory' ← allocate_section decoded_size context memory limit
    (bytes, codec', after) ←
        decode_fragment fuel codec sized section_end fragment_len decoded_size memory' limit kind
          context
    ok (record { bytes = bytes; delta_offset = input.pos }, memory', codec', after)

  unfoldable pub prepare :
      ℕ
      → ℕ
      → Bool
      → SectionKind
      → ℕ
      → ℕ
      → ℕ
      → SecondaryDecoder LzmaStates
      → DeltaInput D
      → Result (PreparedSection × ℕ × SecondaryDecoder LzmaStates × DeltaInput D)
  unfolding prepare_compressed
  prepare fuel encoded_len compressed kind window memory limit codec input =
      let placed : DeltaInput D = Input.set_section (some kind) input in
      let context : DecodeContext = record {
        delta_offset = input.pos;
        window = some window;
        section = some kind;
      } in
      if compressed
      then prepare_compressed fuel encoded_len kind context memory limit codec placed
      else (do
        memory' ← allocate_section encoded_len context memory limit
        (bytes, after) ← Input.read_exact fuel encoded_len placed
        ok (record { bytes = bytes; delta_offset = input.pos }, memory', codec, after))
