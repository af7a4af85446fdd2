-- ===== src/Vcdiff/Djw/Huffman.antt =====
-- The codes of a `PrefixBook` are the canonical Huffman code, and `read_symbol` reads them.
use rust_crates.Prelude.{
  ℕ, suc, ◌+◌, ◌-◌, ◌<◌, ◌≡◌, refl, sym, ap, ◌∙◌, false, some, List, arith, inl, inr,
}
use rust_crates.Prelude.{ltb, leb, ◌==◌, ◌||◌, take, get_elem?, Option-cases}
use rust_crates.Vcdiff.Error.{ok}
use rust_crates.Vcdiff.Stream.{Stream}
use rust_crates.Vcdiff.Djw.Fault.{good}
use rust_crates.Vcdiff.Djw.Bits.{BitStream, read_field}
use rust_crates.Vcdiff.Djw.Book.{PrefixBook, build, lookup, lookup_ordinal}
use rust_crates.Vcdiff.Djw.Symbol.{read_symbol}
use rust_crates.Vcdiff.Djw.Canonical.{or_zero, count_at}
use rust_crates.Vcdiff.Djw.Assigning.{build-IsCanonical}
use rust_crates.Vcdiff.Djw.Starts.{place_start, place_start-le}
use rust_crates.Vcdiff.Djw.Spec.{occurrences, code_start, canonical_code}
use rust_crates.Vcdiff.Djw.Ordered.{place_symbols_lem}
use rust_crates.Vcdiff.Djw.Counting.{occurrences-take}
use rust_crates.Vcdiff.Djw.Built.{
  build-Built, started, counts_same, first_code-code_start, starts_same, start-place_start,
  occurrences-count_at, starts-IsDisjoint, width-limit,
}
use rust_crates.Vcdiff.Djw.Prefix.{lookup_lem, read_symbol-lookup}

lookup_ordinal-within :
    (count first start rank : ℕ) (book : PrefixBook)
    → rank < count
    → start + rank < book.symbol_count
    → lookup_ordinal (first + rank) count first start book ≡ get_elem? book.ordered (start + rank)
unfolding lookup_ordinal
lookup_ordinal-within count first start rank book h k =
    let offset : first + rank - first ≡ rank = omega arith in
    let low : (count == 0 || ltb (first + rank) first) ≡ false = ground (arith, h) in
    let high : leb count rank ≡ false = ground (arith, h) in
    let inside : leb book.symbol_count (start + rank) ≡ false = ground (arith, k) in
    rw (low, offset, high, inside) refl

counts-some :
    (counts : List ℕ) (width : ℕ)
    → 0 < count_at counts width
    → get_elem? counts width ≡ some (count_at counts width)
unfolding count_at
counts-some counts width h = elim (Option-cases (get_elem? counts width)) [
  | inl missing ↦ absurd (omega (arith, ap or_zero missing))
  | inr (count, found) ↦ found ∙ ap (λ (n : ℕ). some n) (sym (ap or_zero found))
]

-- Each symbol that has a width is found under its canonical code.
pub lookup-canonical_code :
    (lengths : List ℕ) (width_limit symbol width : ℕ) (book : PrefixBook)
    → build lengths width_limit ≡ good book
    → get_elem? lengths symbol ≡ some width
    → 0 < width
    → lookup width (canonical_code lengths symbol width) book ≡ some symbol
unfolding canonical_code place_start
lookup-canonical_code lengths width_limit symbol width book h at positive =
    let b = build-Built lengths width_limit book h in
    let canonical = build-IsCanonical lengths width_limit book h in
    let fits = width-limit lengths width_limit book b symbol width at in
    let rank : ℕ = occurrences width (take symbol lengths) in
    let counted = occurrences-count_at lengths width_limit book b width positive in
    let within : rank < count_at book.counts width =
      omega (arith, counted, occurrences-take lengths symbol width at) in
    let start : ℕ = place_start book.counts width in
    let reach : suc (0 + width_limit) ≡ suc width_limit = omega arith in
    let total : book.symbol_count ≡ place_start book.counts (suc width_limit) =
      (started lengths width_limit book b).whole
      ∙ ap (λ (l : List ℕ). place_start l (suc (0 + width_limit)))
          (sym (counts_same lengths width_limit book b))
      ∙ ap (place_start book.counts) reach in
    let room : start + rank < book.symbol_count = omega (
      arith,
      total,
      within,
      place_start-le (width_limit - width) (suc width) (suc width_limit) book.counts
          (omega (arith, fits)),
    ) in
    let first = first_code-code_start lengths width_limit book b width in
    let placed =
      place_symbols_lem lengths symbol 0 book.symbol_count width b.coded.starts b.coded.ordered
        book.ordered (starts-IsDisjoint lengths width_limit book b) b.placed at positive in
    lookup_lem width (code_start lengths width + rank) (count_at book.counts width)
      (code_start lengths width) start book (counts-some book.counts width (omega (arith, within)))
      (canonical.codes width positive fits ∙ ap (λ (n : ℕ). some n) first)
      (starts_same lengths width_limit book b width positive fits)
    ∙ lookup_ordinal-within (count_at book.counts width) (code_start lengths width) start rank book
        within room
    ∙ ap (λ (n : ℕ). get_elem? book.ordered (n + rank))
        (sym (start-place_start lengths width_limit book b width positive fits))
    ∙ placed
    ∙ ap (λ (n : ℕ). some n) (omega arith)

-- A book that `build` makes from the widths of its symbols reads the canonical Huffman code of these
-- widths: where the next bits, read as a field, are the code of a symbol, `read_symbol` gives that
-- symbol and moves as far.
pub read_symbol-canonical_code :
    {D : Stream} (lengths : List ℕ) (width_limit symbol width fuel : ℕ) (book : PrefixBook)
    (bits after : BitStream D)
    → build lengths width_limit ≡ good book
    → get_elem? lengths symbol ≡ some width
    → 0 < width
    → read_field fuel width bits ≡ ok (canonical_code lengths symbol width, after)
    → read_symbol fuel book bits ≡ ok (symbol, after)
read_symbol-canonical_code lengths width_limit symbol width fuel book bits after built at positive
      h =
    read_symbol-lookup lengths width_limit width fuel (canonical_code lengths symbol width) symbol
      book bits after built positive
      (width-limit lengths width_limit book (build-Built lengths width_limit book built) symbol
        width at)
      (lookup-canonical_code lengths width_limit symbol width book built at positive) h
