-- ===== src/Tests/Huffman.antt =====
-- A prefix code of three symbols, read from a byte.
use rust_crates.Prelude.{
  ◌≡◌, ◌<◌, ◌^◌, refl, none, List, [], ◌∷◌, ◌++◌, arith, ℕ, replicate, length,
}
use rust_crates.Vcdiff.Error.{ok}
use rust_crates.Vcdiff.Input
use rust_crates.Vcdiff.MemoryTarget
use rust_crates.Vcdiff.MemoryTarget.{FallibleMemoryTarget, memory_stream}
use rust_crates.Vcdiff.Djw.Fault.{good}
use rust_crates.Vcdiff.Djw.Bits.{BitStream, read_field}
use rust_crates.Vcdiff.Djw.Book.{PrefixBook, build, empty_book, count_widths, check_slots}
use rust_crates.Vcdiff.Djw.Symbol.{read_symbol}
use rust_crates.Vcdiff.Djw.Spec.{occurrences, codes_of, code_start, canonical_code}
use rust_crates.Vcdiff.Djw.Huffman.{read_symbol-canonical_code}
use rust_crates.Vcdiff.Stream.{ReadsBytes}
use rust_crates.Vcdiff.MemoryTarget.Laws.{memory_reads, memory_WritesBytes}
use rust_crates.Vcdiff.Djw.BitView.{byte_bits, section_bits, number, BitsLeft, read_field_lem}
use rust_crates.Vcdiff.Djw.RoundTrip.{
  code_bits, width_of, code_word, encode, HasCodes, read_symbols-encode,
}
use rust_crates.Vcdiff.Djw.Tokens.{TokenMachine}
use rust_crates.Vcdiff.Djw.Section.{expand_tokens, read_symbols, decode_section}
use rust_crates.Vcdiff.Djw.Settling.{Settles, IsInSection}
use rust_crates.Vcdiff.Djw.Expanding.{expand_tokens-Settles}
use rust_crates.Vcdiff.Input.Reading.{Reading}
use rust_crates.Vcdiff.Djw.Total.{decode_section-Settles}
use rust_crates.Vcdiff.Djw.Kraft.{canonical_code-lt}

-- The codes 0, 10 and 11.
abbrev widths : List ℕ
widths = 1 ∷ 2 ∷ 2 ∷ []

abbrev book : PrefixBook
book = record {
  counts = 0 ∷ 1 ∷ 2 ∷ replicate 18 0;
  first_codes =
      0
      ∷ 0
      ∷ 2
      ∷ 8
      ∷ 16
      ∷ 32
      ∷ 64
      ∷ 128
      ∷ 256
      ∷ 512
      ∷ 1024
      ∷ 2048
      ∷ 4096
      ∷ 8192
      ∷ 16384
      ∷ 32768
      ∷ replicate 5 0;
  starts = 0 ∷ 0 ∷ 1 ∷ (replicate 13 3 ++ replicate 5 0);
  ordered = 0 ∷ 1 ∷ 2 ∷ replicate 253 0;
  symbol_count = 3;
  min_width = 1;
  max_width = 2;
}

widths-book : build widths 15 ≡ good book
unfolding build empty_book count_widths check_slots
widths-book = refl

abbrev byte_one : FallibleMemoryTarget
byte_one = record { bytes = 1 ∷ []; at = 0 }

abbrev bits_at : FallibleMemoryTarget → ℕ → List ℕ → ℕ → ℕ → ℕ → ℕ → BitStream memory_stream
bits_at reader pos buffer buffer_pos current used total_bits = record {
  input = record {
    reader = reader;
    len = 1;
    pos = pos;
    buffer = buffer;
    buffer_pos = buffer_pos;
    window = none;
    section = none;
  };
  section_end = 1;
  current = current;
  used = used;
  total_bits = total_bits;
}

abbrev unread : BitStream memory_stream
unread = bits_at byte_one 0 [] 0 0 8 0

abbrev two_read : BitStream memory_stream
two_read = bits_at (record byte_one { at = 1 }) 1 (1 ∷ []) 1 1 2 2

two_bits : read_field 3 2 unread ≡ ok (canonical_code widths 1 2, two_read)
unfolding read_field canonical_code Input.read_u8 Input.refill Input.fill Input.fill_loop
    MemoryTarget.read code_start occurrences
two_bits = refl

read_symbol-canonical_code_example : read_symbol 3 book unread ≡ ok (1, two_read)
read_symbol-canonical_code_example =
    read_symbol-canonical_code widths 15 1 2 3 book unread two_read widths-book refl (omega arith)
      two_bits

canonical_code-lt_example : canonical_code widths 2 2 < 2 ^ 2
canonical_code-lt_example = canonical_code-lt widths 15 2 2 book widths-book refl (omega arith)

abbrev reads : ReadsBytes memory_stream
reads = memory_reads

unread-BitsLeft :
    BitsLeft reads (1 ∷ []) unread (encode widths (1 ∷ 0 ∷ []) ++ (0 ∷ 0 ∷ 0 ∷ 0 ∷ 0 ∷ []))
unfolding byte_bits section_bits encode code_word width_of canonical_code code_start occurrences
    codes_of code_bits memory_WritesBytes
unread-BitsLeft = record {
  reading = record {
    sized = omega arith;
    len_known = refl;
    pos_within = omega arith;
    buffer_within = omega arith;
    stream_bytes = refl;
    stream_ahead = refl;
    stream_within = omega arith;
    buffered = refl;
  };
  used_fits = omega arith;
  within = omega arith;
  view = refl;
}

text-HasCodes : HasCodes widths (1 ∷ 0 ∷ [])
unfolding HasCodes width_of
text-HasCodes = (omega arith, (omega arith, tt))

read_symbols-encode_example :
    (after : BitStream memory_stream) × (read_symbols 2 1 book unread ≡ ok (1 ∷ 0 ∷ [], after))
    × BitsLeft reads (1 ∷ []) after (0 ∷ 0 ∷ 0 ∷ 0 ∷ 0 ∷ [])
read_symbols-encode_example =
    read_symbols-encode reads (1 ∷ 0 ∷ []) widths (1 ∷ []) (0 ∷ 0 ∷ 0 ∷ 0 ∷ 0 ∷ []) 15 0 book unread
      widths-book text-HasCodes unread-BitsLeft

unread_bits : BitsLeft reads (1 ∷ []) unread ((1 ∷ 0 ∷ 0 ∷ []) ++ (0 ∷ 0 ∷ 0 ∷ 0 ∷ 0 ∷ []))
unfolding encode code_word width_of canonical_code code_start occurrences codes_of code_bits
unread_bits = unread-BitsLeft

read_field_lem_example :
    (after : BitStream memory_stream) × (read_field 1 3 unread
      ≡ ok (number 0 (1 ∷ 0 ∷ 0 ∷ []), after))
    × BitsLeft reads (1 ∷ []) after (0 ∷ 0 ∷ 0 ∷ 0 ∷ 0 ∷ [])
read_field_lem_example =
    read_field_lem reads (1 ∷ 0 ∷ 0 ∷ []) 0 (1 ∷ []) (0 ∷ 0 ∷ 0 ∷ 0 ∷ 0 ∷ []) unread unread_bits
      (omega arith) (omega arith)

abbrev machine : TokenMachine
machine = record {
  mtf = record { values = 0 ∷ 1 ∷ []; len = 2 };
  run_remaining = 0;
  run_exponent = 0;
  pending_move = none;
}

expand_tokens-Settles_example :
    Settles
      (λ (values', bits').
        (length values' ≡ length {A = ℕ} (0 ∷ 0 ∷ 0 ∷ [])) × IsInSection reads (1 ∷ []) bits')
      (expand_tokens 1 book 0 machine (0 ∷ 0 ∷ 0 ∷ []) unread)
expand_tokens-Settles_example =
    expand_tokens-Settles reads (1 ∷ []) 0 0 book machine (0 ∷ 0 ∷ 0 ∷ []) unread
      (record { reading = unread-BitsLeft.reading; used_fits = omega arith; within = omega arith })
      (record { len_within = omega arith; nonempty = omega arith })

decode_section-Settles_example :
    Settles
      (λ (output, after). (length output ≡ 3) × Reading reads (1 ∷ []) after)
      (decode_section 1 unread.input 1 3 0 100)
decode_section-Settles_example =
    decode_section-Settles reads (1 ∷ []) 0 1 3 0 100 unread.input unread-BitsLeft.reading
      (omega arith)
