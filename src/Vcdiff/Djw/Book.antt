-- ===== src/Vcdiff/Djw/Book.antt =====
-- crates/vcdiff/src/djw.rs, `PrefixBook`: a canonical Huffman code, from the widths of its symbols.
use rust_crates.Prelude.{
  ℕ, zero, suc, ◌+◌, ◌-◌, ◌*◌, ◌%◌, Option, none, some, List, [], ◌∷◌, replicate,
}
use rust_crates.Prelude.{ltb, leb, ◌==◌, ◌||◌, if◌then◌else◌, length, get_elem?}
use rust_crates.Vcdiff.Error.{invalid_field, invalid_table}
use rust_crates.Vcdiff.Djw.Fault.{Checked, good, ◌>>=◌, ◌>>◌, reject, item, put, add_u16}

abbrev pub byte_symbols : ℕ
byte_symbols = 256

abbrev pub max_code_width : ℕ
max_code_width = 20

pub record PrefixBook : Type 0 where
  pub counts : List ℕ
  pub first_codes : List ℕ
  pub starts : List ℕ
  pub ordered : List ℕ
  pub symbol_count : ℕ
  pub min_width : ℕ
  pub max_width : ℕ

unfoldable pub empty_book : PrefixBook
empty_book = record {
  counts = replicate 21 0;
  first_codes = replicate 21 0;
  starts = replicate 21 0;
  ordered = replicate byte_symbols 0;
  symbol_count = 0;
  min_width = 0;
  max_width = 0;
}

-- `book.counts[width] = book.counts[width].checked_add(1)?`
unfoldable pub count_width : List ℕ → ℕ → Checked (List ℕ)
count_width counts width = do
  count ← item counts width
  count' ← add_u16 count 1
  put counts width count'

-- The first loop of `build`: how many symbols have each width.
unfoldable pub count_widths : ℕ → List ℕ → List ℕ → Checked (List ℕ)
unfolding count_width
count_widths width_limit [] counts = good counts
count_widths width_limit (width ∷ lengths) counts = do
  reject (ltb width_limit width) invalid_table
  counts' ← if width == 0 then good counts else count_width counts width
  count_widths width_limit lengths counts'

-- The second loop: the widths fit into a binary tree. `<<=` is on `u32`.
unfoldable pub check_slots : ℕ → ℕ → ℕ → List ℕ → Checked (Unit {0})
check_slots zero width open_slots counts = good tt
check_slots (suc widths) width open_slots counts = do
  used ← item counts width
  let open_slots' : ℕ = open_slots * 2 % 0x1_0000_0000
  reject (ltb open_slots' used) invalid_table
  check_slots widths (suc width) (open_slots' - used) counts

-- `if book.counts[width] != 0 { … }`
unfoldable pub widen : ℕ → ℕ → PrefixBook → PrefixBook
widen zero width book = book
widen (suc _) width book = record book {
  min_width = if book.min_width == 0 then width else book.min_width;
  max_width = width;
}

-- The third loop: the first code and the first place in `ordered` of each width. The sum of codes
-- is below 2^32.
unfoldable pub assign_codes : ℕ → ℕ → ℕ → ℕ → PrefixBook → Checked (ℕ × PrefixBook)
unfolding widen
assign_codes zero width next_code next_symbol book = good (next_symbol, book)
assign_codes (suc widths) width next_code next_symbol book = do
  previous ← item book.counts (width - 1)
  let code : ℕ = (next_code + previous) * 2 % 0x1_0000_0000
  first_codes' ← put book.first_codes width code
  starts' ← put book.starts width next_symbol
  count ← item book.counts width
  next_symbol' ← add_u16 next_symbol count
  assign_codes widths (suc width) code next_symbol'
      (widen count width (record book { first_codes = first_codes'; starts = starts' }))

-- One symbol in the last loop: the next slot of its width takes it.
unfoldable pub place_symbol : ℕ → ℕ → ℕ → List ℕ → List ℕ → Checked (List ℕ × List ℕ)
place_symbol symbol width symbol_count slots ordered = do
  slot ← item slots width
  reject (leb symbol_count slot) invalid_table
  reject (ltb 0xff symbol) invalid_field
  ordered' ← put ordered slot symbol
  slot' ← add_u16 slot 1
  slots' ← put slots width slot'
  good (slots', ordered')

unfoldable pub place_symbols : ℕ → List ℕ → ℕ → List ℕ → List ℕ → Checked (List ℕ)
unfolding place_symbol
place_symbols symbol [] symbol_count slots ordered = good ordered
place_symbols symbol (width ∷ lengths) symbol_count slots ordered = do
  (slots', ordered') ←
      if width == 0
      then good (slots, ordered)
      else place_symbol symbol width symbol_count slots ordered
  place_symbols (symbol + 1) lengths symbol_count slots' ordered'

-- The book whose counts are known.
unfoldable pub fill_book : List ℕ → ℕ → List ℕ → Checked PrefixBook
unfolding assign_codes place_symbols
fill_book lengths width_limit counts = do
  check_slots width_limit 1 1 counts
  (symbol_count, coded) ← assign_codes width_limit 1 0 0 (record empty_book { counts = counts })
  ordered ← place_symbols 0 lengths symbol_count coded.starts coded.ordered
  good (record coded { ordered = ordered; symbol_count = symbol_count })

unfoldable pub build : List ℕ → ℕ → Checked PrefixBook
unfolding fill_book
build lengths width_limit = do
  reject (ltb byte_symbols (length lengths) || (width_limit == 0 || ltb max_code_width width_limit))
      invalid_field
  counts ← count_widths width_limit lengths (empty_book.counts)
  fill_book lengths width_limit counts

-- What `lookup` does once the arrays are read.
unfoldable pub lookup_ordinal : ℕ → ℕ → ℕ → ℕ → PrefixBook → Option ℕ
lookup_ordinal code count first start book =
    if count == 0 || ltb code first
    then none
    else if leb count (code - first)
    then none
    else if leb book.symbol_count (start + (code - first))
    then none
    else get_elem? book.ordered (start + (code - first))

-- The three arrays have the same length, so that `starts[width]` is in range where `counts` is.
unfoldable pub lookup : ℕ → ℕ → PrefixBook → Option ℕ
unfolding lookup_ordinal
lookup width code book = elim (get_elem? book.counts width) [
  | none ↦ none
  | some count ↦ elim (get_elem? book.first_codes width) [
    | none ↦ none
    | some first ↦ elim (get_elem? book.starts width) [
      | none ↦ none
      | some start ↦ lookup_ordinal code count first start book
    ]
  ]
]
