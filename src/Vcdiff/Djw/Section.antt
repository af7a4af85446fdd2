-- ===== src/Vcdiff/Djw/Section.antt =====
-- crates/vcdiff/src/djw.rs, `decode_section`: the tables of a section and its bytes. The observer of
-- `decode_observed`, which only the tests use, is left out.
use rust_crates.Prelude.{
  ℕ, zero, suc, ◌+◌, ◌-◌, ◌*◌, ◌/◌, ◌%◌, Bool, false, List, [], ◌∷◌, ◌++◌, replicate, take, drop,
  min,
}
use rust_crates.Prelude.{ltb, leb, ◌==◌, ◌||◌, if◌then◌else◌, length, get_elem?, checked_add}
use rust_crates.Vcdiff.Error.{
  DecodeContext, Result, ok, err, stuck, ◌>>=◌, ◌>>◌, refuse, ok_or, or_panic, try_usize,
  arithmetic_overflow, window_memory_limit, invalid_field, invalid_selector,
}
use rust_crates.Vcdiff.Stream.{Stream}
use rust_crates.Vcdiff.Input
use rust_crates.Vcdiff.Input.{DeltaInput}
use rust_crates.Vcdiff.Djw.Fault.{format_error, or_format}
use rust_crates.Vcdiff.Djw.Bits
use rust_crates.Vcdiff.Djw.Bits.{BitStream, context, read_field}
use rust_crates.Vcdiff.Djw.Book.{PrefixBook, byte_symbols, max_code_width, empty_book, build}
use rust_crates.Vcdiff.Djw.Symbol.{read_symbol}
use rust_crates.Vcdiff.Djw.Tokens
use rust_crates.Vcdiff.Djw.Tokens.{
  MtfList, TokenMachine, from_slice, identity, queue, advance, finish,
}

abbrev pub max_groups : ℕ
max_groups = 8

abbrev pub token_symbols : ℕ
token_symbols = 22

abbrev pub max_token_width : ℕ
max_token_width = 15

abbrev pub max_selector_width : ℕ
max_selector_width = 7

abbrev pub sector_step : ℕ
sector_step = 5

abbrev pub initial_length_order : List ℕ
initial_length_order =
    0 ∷ 4 ∷ 5 ∷ 6 ∷ 7 ∷ 8 ∷ 9 ∷ 10 ∷ 3 ∷ 11 ∷ 2 ∷ 12 ∷ 13 ∷ 1 ∷ 14 ∷ 15 ∷ 16 ∷ 17 ∷ 18 ∷ 19 ∷ 20
    ∷ []

-- `allocate_selectors`: that many zeros, if the memory limit allows them.
unfoldable pub allocate_selectors : ℕ → ℕ → ℕ → DecodeContext → Result (List ℕ)
allocate_selectors count active_memory limit here = do
  (if ltb (limit - active_memory) count
      then (do
        attempted ← ok_or (checked_add active_memory count) (arithmetic_overflow here)
        err (window_memory_limit attempted limit here))
      else ok tt)
  count_usize ← try_usize count here
  ok (replicate count_usize 0)

-- `chunks`: the books of the groups, from the widths of all symbols of each group.
unfoldable pub build_books : ℕ → List ℕ → DecodeContext → Result (List PrefixBook)
build_books zero all_lengths here = ok []
build_books (suc groups) all_lengths here = do
  book ← or_format here (build (take byte_symbols all_lengths) max_code_width)
  books ← build_books groups (drop byte_symbols all_lengths) here
  ok (book ∷ books)

-- `selectors.iter().any(|&group| usize::from(group) >= group_count)`
unfoldable pub any_outside : List ℕ → ℕ → Bool
any_outside [] group_count = false
any_outside (group ∷ selectors) group_count =
    leb group_count group || any_outside selectors group_count

module _ {D : Stream} where
  -- One turn of the loop of `expand_tokens`: a value, or a token.
  unfoldable pub expand_step :
      ℕ
      → PrefixBook
      → ℕ
      → ℕ
      → TokenMachine
      → List ℕ
      → BitStream D
      → Result (ℕ × TokenMachine × List ℕ × BitStream D)
  expand_step fuel token_book skip_stride index m values bits = do
    (moved, values', m') ← or_format (context bits) (advance values index skip_stride m)
    (if moved then ok (index + 1, m', values', bits) else (do
      (token, bits') ← read_symbol fuel token_book bits
      m'' ← or_format (context bits') (queue token m')
      ok (index, m'', values', bits')))

  unfoldable pub expand_loop :
      ℕ
      → ℕ
      → PrefixBook
      → ℕ
      → ℕ
      → TokenMachine
      → List ℕ
      → BitStream D
      → Result (TokenMachine × List ℕ × BitStream D)
  unfolding expand_step
  expand_loop zero fuel token_book skip_stride index m values bits = stuck
  expand_loop (suc rounds) fuel token_book skip_stride index m values bits =
      if leb (length values) index then ok (m, values, bits) else (do
        (index', m', values', bits') ← expand_step fuel token_book skip_stride index m values bits
        expand_loop rounds fuel token_book skip_stride index' m' values' bits')

  -- No value takes more than two tokens, and each token a turn.
  unfoldable pub expand_tokens :
      ℕ → PrefixBook → ℕ → TokenMachine → List ℕ → BitStream D → Result (List ℕ × BitStream D)
  unfolding expand_loop
  expand_tokens fuel token_book skip_stride m values bits = do
    (m', values', bits') ←
        expand_loop (3 * length values + 3) fuel token_book skip_stride 0 m values bits
    or_format (context bits') (finish m')
    ok (values', bits')

  -- `for width in lengths.iter_mut().take(n) { *width = bits.read_field(field_width)? as u8 }`
  unfoldable pub read_widths : ℕ → ℕ → ℕ → BitStream D → Result (List ℕ × BitStream D)
  read_widths zero fuel field_width bits = ok ([], bits)
  read_widths (suc n) fuel field_width bits = do
    (width, bits') ← read_field fuel field_width bits
    (widths, bits'') ← read_widths n fuel field_width bits'
    ok (width % 256 ∷ widths, bits'')

  -- The bytes of one chunk.
  unfoldable pub read_symbols : ℕ → ℕ → PrefixBook → BitStream D → Result (List ℕ × BitStream D)
  read_symbols zero fuel book bits = ok ([], bits)
  read_symbols (suc n) fuel book bits = do
    (byte, bits') ← read_symbol fuel book bits
    (bytes, bits'') ← read_symbols n fuel book bits'
    ok (byte ∷ bytes, bits'')

  -- `decode_body` from a sector on, with as many sectors and bytes left.
  unfoldable pub body_loop :
      ℕ → ℕ → ℕ → ℕ → List PrefixBook → ℕ → List ℕ → ℕ → BitStream D → Result (List ℕ × BitStream D)
  unfolding read_symbols
  body_loop zero fuel sector left books group_count selectors sector_size bits = ok ([], bits)
  body_loop (suc sectors) fuel sector left books group_count selectors sector_size bits = do
    group ← if group_count == 1 then ok 0 else or_panic (get_elem? selectors sector)
    refuse (leb group_count group) (format_error (context bits) invalid_selector)
    book ← or_panic (get_elem? books group)
    (bytes, bits') ← read_symbols (min sector_size left) fuel book bits
    (rest, bits'') ←
        body_loop sectors fuel (sector + 1) (left - sector_size) books group_count selectors
          sector_size bits'
    ok (bytes ++ rest, bits'')

  -- The selectors of more than one group.
  unfoldable pub read_selectors : ℕ → ℕ → List ℕ → BitStream D → Result (List ℕ × BitStream D)
  unfolding expand_tokens any_outside read_widths
  read_selectors fuel group_count selectors bits = do
    (selector_lengths, measured) ← read_widths (group_count + 1) fuel 3 bits
    selector_book ← or_format (context measured) (build selector_lengths max_selector_width)
    selector_mtf ← or_format (context measured) (identity group_count)
    (selectors', expanded) ←
        expand_tokens fuel selector_book 0 (Tokens.new selector_mtf) selectors measured
    refuse (any_outside selectors' group_count) (format_error (context expanded) invalid_selector)
    ok (selectors', expanded)

  -- The widths of the codes of all groups.
  unfoldable pub read_lengths : ℕ → ℕ → BitStream D → Result (List ℕ × BitStream D)
  unfolding expand_tokens read_widths
  read_lengths fuel group_count bits = do
    (sent, counted) ← read_field fuel 4 bits
    let transmitted : ℕ = sent + 7
    refuse (ltb token_symbols transmitted) (format_error (context counted) invalid_field)
    (widths, measured) ← read_widths transmitted fuel 4 counted
    let token_lengths : List ℕ = widths ++ replicate (token_symbols - transmitted) 0
    token_book ← or_format (context measured) (build token_lengths max_token_width)
    length_mtf ← or_format (context measured) (from_slice initial_length_order)
    expand_tokens fuel token_book byte_symbols (Tokens.new length_mtf)
        (replicate (group_count * byte_symbols) 0) measured

  -- `decode_section`: the bytes of the output, and the input behind the bits that were read.
  unfoldable pub decode_section : ℕ → DeltaInput D → ℕ → ℕ → ℕ → ℕ → Result (List ℕ × DeltaInput D)
  unfolding read_lengths read_selectors body_loop
  decode_section fuel input section_end output_len active_memory limit = do
    refuse (output_len == 0) (format_error (Input.context input) invalid_field)
    (groups, b1) ← read_field fuel 3 (Bits.new input section_end)
    let group_count : ℕ = groups + 1
    (sector_size, b2) ←
        if group_count == 1
        then ok (output_len, b1)
        else (do (steps, b2) ← read_field fuel 5 b1; ok ((steps + 1) * sector_step, b2))
    let sector_count : ℕ = (output_len + (sector_size - 1)) / sector_size
    selectors ←
        if group_count == 1
        then ok []
        else allocate_selectors sector_count active_memory limit (context b2)
    (all_lengths, b3) ← read_lengths fuel group_count b2
    built ← build_books group_count all_lengths (context b3)
    let books : List PrefixBook = built ++ replicate (max_groups - group_count) empty_book
    (selectors', b4) ←
        if ltb 1 group_count
        then read_selectors fuel group_count selectors b3
        else ok (selectors, b3)
    (output, b5) ←
        body_loop sector_count fuel 0 output_len books group_count selectors' sector_size b4
    ok (output, b5.input)
