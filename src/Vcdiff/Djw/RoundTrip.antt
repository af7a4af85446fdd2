-- ===== src/Vcdiff/Djw/RoundTrip.antt =====
-- Reading back what a canonical Huffman code encodes.
use rust_crates.Prelude.{
  ℕ, zero, suc, ◌+◌, ◌*◌, ◌/◌, ◌%◌, ◌<◌, ◌≡◌, refl, sym, ap, ◌∙◌, subst, Option, none, some, List,
  [], ◌∷◌, ◌++◌, append_assoc, arith,
}
use rust_crates.Prelude.{length, length-append, get_elem?}
use rust_crates.Vcdiff.Error.{ok}
use rust_crates.Vcdiff.Stream.{Stream, ReadsBytes}
use rust_crates.Vcdiff.Djw.Fault.{good}
use rust_crates.Vcdiff.Djw.Bits.{BitStream, read_field}
use rust_crates.Vcdiff.Djw.Book.{PrefixBook, build}
use rust_crates.Vcdiff.Djw.Symbol.{read_symbol}
use rust_crates.Vcdiff.Djw.Section.{read_symbols}
use rust_crates.Vcdiff.Djw.Canonical.{pow2}
use rust_crates.Vcdiff.Djw.Spec.{canonical_code}
use rust_crates.Vcdiff.Djw.Built.{build-Built, width-limit}
use rust_crates.Vcdiff.Djw.Huffman.{read_symbol-canonical_code}
use rust_crates.Vcdiff.Djw.Kraft.{canonical_code-lt, pow2_pow}
use rust_crates.Vcdiff.Djw.BitView.{number, BitsLeft, read_field_lem}

-- The digits of a number, the highest first.
unfoldable pub code_bits : ℕ → ℕ → List ℕ
code_bits zero value = []
code_bits (suc n) value = code_bits n (value / 2) ++ (value % 2 ∷ [])

unfoldable pub width_of : Option ℕ → ℕ
width_of none = 0
width_of (some width) = width

-- The bits of the code of a symbol.
unfoldable pub code_word : List ℕ → ℕ → List ℕ
code_word lengths symbol =
    code_bits (width_of (get_elem? lengths symbol))
      (canonical_code lengths symbol (width_of (get_elem? lengths symbol)))

unfoldable pub encode : List ℕ → List ℕ → List ℕ
encode lengths [] = []
encode lengths (symbol ∷ text) = code_word lengths symbol ++ encode lengths text

-- Each symbol of the text has a code.
unfoldable pub HasCodes : List ℕ → List ℕ → Type 0
HasCodes lengths [] = Unit {0}
HasCodes lengths (symbol ∷ text) = (0 < width_of (get_elem? lengths symbol)) × HasCodes lengths text

number-append :
    (word : List ℕ) (value bit : ℕ)
    → number value (word ++ (bit ∷ [])) ≡ number value word * 2 + bit
unfolding number
number-append [] value bit = refl
number-append (b ∷ word) value bit = number-append word (value * 2 + b) bit

number-code_bits : (n value : ℕ) → value < pow2 n → number 0 (code_bits n value) ≡ value
unfolding number code_bits pow2
number-code_bits zero value h = omega arith
number-code_bits (suc n) value h = omega (
  arith,
  number-append (code_bits n (value / 2)) 0 (value % 2),
  number-code_bits n (value / 2) (omega arith),
)

length-code_bits : (n value : ℕ) → length (code_bits n value) ≡ n
unfolding code_bits
length-code_bits zero value = refl
length-code_bits (suc n) value = omega (
  arith,
  length-append (code_bits n (value / 2)) (value % 2 ∷ []),
  length-code_bits n (value / 2),
)

width-some : (o : Option ℕ) → 0 < width_of o → o ≡ some (width_of o)
unfolding width_of
width-some none h = absurd (omega arith)
width-some (some width) h = refl

module _ {D : Stream} (law : ReadsBytes D) where
  read_symbol-code_word :
      (lengths content rest : List ℕ) (width_limit symbol fuel : ℕ) (book : PrefixBook)
      (bits : BitStream D)
      → build lengths width_limit ≡ good book
      → 0 < width_of (get_elem? lengths symbol)
      → BitsLeft law content bits (code_word lengths symbol ++ rest)
      → (after : BitStream D) × (read_symbol (suc fuel) book bits ≡ ok (symbol, after))
        × BitsLeft law content after rest
  unfolding code_word
  read_symbol-code_word lengths content rest width_limit symbol fuel book bits built positive v =
      let width : ℕ = width_of (get_elem? lengths symbol) in
      let code : ℕ = canonical_code lengths symbol width in
      let at = width-some (get_elem? lengths symbol) positive in
      let b = build-Built lengths width_limit book built in
      let size = length-code_bits width code in
      let fits = canonical_code-lt lengths width_limit symbol width book built at positive in
      let limit = width-limit lengths width_limit book b symbol width at in
      let (after, e, v') =
        read_field_lem law (code_bits width code) fuel content rest bits v (omega (arith, size))
          (omega (arith, size, limit, b.limited)) in
      let value = number-code_bits width code (omega (arith, fits, pow2_pow width)) in
      (
        after,
        read_symbol-canonical_code lengths width_limit symbol width (suc fuel) book bits after built
            at positive
            (ap (λ (w : ℕ). read_field (suc fuel) w bits) (sym size)
              ∙ e
              ∙ ap (λ (c : ℕ). ok (c, after)) value),
        v',
      )

  -- Where the bits that are left of a section begin with the codes of a text, in the canonical Huffman code
  -- of the widths that a book is built from, `read_symbols` gives the text back and leaves the bits
  -- behind it, whatever pieces the stream gives out.
  pub read_symbols-encode :
      (text lengths content rest : List ℕ) (width_limit fuel : ℕ) (book : PrefixBook)
      (bits : BitStream D)
      → build lengths width_limit ≡ good book
      → HasCodes lengths text
      → BitsLeft law content bits (encode lengths text ++ rest)
      → (after : BitStream D) × (read_symbols (length text) (suc fuel) book bits ≡ ok (text, after))
        × BitsLeft law content after rest
  unfolding read_symbols encode HasCodes
  read_symbols-encode [] lengths content rest width_limit fuel book bits built codes v =
      (bits, refl, v)
  read_symbols-encode (symbol ∷ text) lengths content rest width_limit fuel book bits built
        (code, codes) v =
      let v1 =
        subst (λ (l : List ℕ). BitsLeft law content bits l)
          (append_assoc (code_word lengths symbol) (encode lengths text) rest) v in
      let (bits1, e, v2) =
        read_symbol-code_word lengths content (encode lengths text ++ rest) width_limit symbol fuel
          book bits built code v1 in
      let (after, e2, v3) =
        read_symbols-encode text lengths content rest width_limit fuel book bits1 built codes v2 in
      (after, rw (e, e2) refl, v3)
