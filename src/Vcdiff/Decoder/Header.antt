-- ===== src/Vcdiff/Decoder/Header.antt =====
-- crates/vcdiff/src/decoder.rs: the constants of the format, the checks of the three streams and
-- `parse_header`.
use rust_crates.Prelude.{
  ℕ, not, ◌&&◌, Bool, true, false, Option, none, some, List, [], ◌∷◌, bit_and,
}
use rust_crates.Prelude.{◌==◌, if◌then◌else◌}
use rust_crates.Vcdiff.Error.{
  IoError, DecodeError, bare_context, Result, ok, err, ◌>>=◌, ◌>>◌, refuse,
}
use rust_crates.Vcdiff.Error.{
  length, seek, invalid_data, source_io, delta_io, target_io, target_not_empty, bad_magic,
  unsupported_version, invalid_header_indicator, unsupported_secondary_compressor,
  unsupported_code_table,
}
use rust_crates.Vcdiff.Stream.{Stream, SeekFrom, done, failed, pos}
use rust_crates.Vcdiff.Djw.Fault.{xdelta_djw_id}
use rust_crates.Vcdiff.Secondary.{xdelta_lzma_id}
use rust_crates.Vcdiff.Input
use rust_crates.Vcdiff.Input.{DeltaInput}

abbrev pub magic : List ℕ
magic = 0xd6 ∷ 0xc3 ∷ 0xc4 ∷ []

abbrev pub vcd_decompress : ℕ
vcd_decompress = 0x01

abbrev pub vcd_codetable : ℕ
vcd_codetable = 0x02

abbrev pub vcd_appheader : ℕ
vcd_appheader = 0x04

-- A seek, with the error that a failure is reported as.
unfoldable pub checked_seek :
    (S : Stream) → SeekFrom → (IoError → DecodeError) → S.State → Result (ℕ × S.State)
checked_seek S from report stream =
    let (answer, stream') = S.seek from stream in
    elim answer [ done at ↦ ok (at, stream') | failed e ↦ err (report e) ]

-- `range` of the errors of the two seeks to the start: `ByteRange::new(0, 0)`
unfoldable pub measure_source : (S : Stream) → S.State → Result (ℕ × S.State)
unfolding checked_seek
measure_source S source = do
  let range = some (record { start = 0; len = 0 })
  (len, ended) ← checked_seek S (SeekFrom.end (pos 0)) (source_io length none none) source
  (actual, started) ← checked_seek S (SeekFrom.start 0) (source_io seek range none) ended
  refuse (not (actual == 0)) (source_io seek range none invalid_data)
  ok (len, started)

unfoldable pub measure_delta : (D : Stream) → D.State → Result (ℕ × D.State)
unfolding checked_seek
measure_delta D delta = do
  let context = bare_context 0
  (len, ended) ← checked_seek D (SeekFrom.end (pos 0)) (delta_io length context) delta
  (actual, started) ← checked_seek D (SeekFrom.start 0) (delta_io seek context) ended
  refuse (not (actual == 0)) (delta_io seek context invalid_data)
  ok (len, started)

unfoldable pub validate_target : (T : Stream) → T.State → Result T.State
unfolding checked_seek
validate_target T target = do
  let range = some (record { start = 0; len = 0 })
  (len, ended) ← checked_seek T (SeekFrom.end (pos 0)) (target_io length none none) target
  refuse (not (len == 0)) (target_not_empty len)
  (actual, started) ← checked_seek T (SeekFrom.start 0) (target_io seek range none) ended
  refuse (not (actual == 0)) (target_io seek range none invalid_data)
  ok started

pub record Header : Type 0 where
  pub compressor_id : Option ℕ

-- `a != b` on the magic bytes, which are three on both sides.
unfoldable pub same_bytes : List ℕ → List ℕ → Bool
same_bytes [] [] = true
same_bytes [] (y ∷ ys) = false
same_bytes (x ∷ xs) [] = false
same_bytes (x ∷ xs) (y ∷ ys) = x == y && same_bytes xs ys

module _ {D : Stream} where
  unfoldable pub read_compressor : ℕ → ℕ → DeltaInput D → Result (Option ℕ × DeltaInput D)
  read_compressor fuel indicator input =
      if not (bit_and indicator vcd_decompress == 0)
      then (do
        (id, after) ← Input.read_u8 fuel input
        refuse (not (id == xdelta_djw_id) && not (id == xdelta_lzma_id))
            (unsupported_secondary_compressor id (Input.context input))
        ok (some id, after))
      else ok (none, input)

  unfoldable pub skip_app_header : ℕ → ℕ → DeltaInput D → Result (DeltaInput D)
  skip_app_header fuel indicator input =
      if not (bit_and indicator vcd_appheader == 0)
      then (do (len, after) ← Input.read_varint fuel input; Input.skip len after)
      else ok input

  -- `!(VCD_DECOMPRESS | VCD_CODETABLE | VCD_APPHEADER)` is 0xf8 in `u8`.
  unfoldable pub parse_header : ℕ → DeltaInput D → Result (Header × DeltaInput D)
  unfolding read_compressor skip_app_header same_bytes
  parse_header fuel input = do
    (found, input1) ← Input.read_exact fuel 3 input
    refuse (not (same_bytes found magic)) (bad_magic (Input.context input))
    (version, input2) ← Input.read_u8 fuel input1
    refuse (not (version == 0)) (unsupported_version version (Input.context input1))
    (indicator, input3) ← Input.read_u8 fuel input2
    refuse (not (bit_and indicator 0xf8 == 0))
        (invalid_header_indicator indicator (Input.context input2))
    (compressor_id, input4) ← read_compressor fuel indicator input3
    refuse (not (bit_and indicator vcd_codetable == 0))
        (unsupported_code_table (Input.context input4))
    input5 ← skip_app_header fuel indicator input4
    ok (record { compressor_id = compressor_id }, input5)
