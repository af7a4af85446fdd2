-- ===== src/Vcdiff/Djw/Prefix.antt =====
-- `read_symbol` finds a code that is in the book, since no code is the start of another.
use rust_crates.Prelude.{
  ℕ, zero, suc, ◌+◌, ◌-◌, ◌*◌, ◌%◌, ◌≤◌, ◌<◌, ◌≡◌, refl, sym, ap, ◌∙◌, true, false, none, some,
  List, arith, inl, inr,
}
use rust_crates.Prelude.{ltb, leb, ◌==◌, ◌||◌, if◌then◌else◌, get_elem?, Bool-cases, Option-cases}
use rust_crates.Vcdiff.Error.{ok, ok-injective, bind-ok, refuse}
use rust_crates.Vcdiff.Stream.{Stream}
use rust_crates.Vcdiff.Djw.Fault.{good}
use rust_crates.Vcdiff.Djw.Bits
use rust_crates.Vcdiff.Djw.Bits.{BitStream, read_bit, field_loop, read_field}
use rust_crates.Vcdiff.Djw.Book.{PrefixBook, lookup, lookup_ordinal, build}
use rust_crates.Vcdiff.Djw.Symbol.{found_or, symbol_loop, read_symbol}
use rust_crates.Vcdiff.Djw.Canonical.{or_zero, count_at, first_code}
use rust_crates.Vcdiff.Djw.Assigning.{IsCanonical, build-IsCanonical}

-- A code that is found lies among the codes of its width.
record Found (width code : ℕ) (book : PrefixBook) : Type 0 where
  pub counted : 0 < count_at book.counts width
  pub from : first_code book.counts width ≤ code
  pub below : code < first_code book.counts width + count_at book.counts width
  pub nonempty : 0 < book.symbol_count

lookup_ordinal-Found :
    (code count first start symbol : ℕ) (book : PrefixBook)
    → lookup_ordinal code count first start book ≡ some symbol
    → (0 < count) × (first ≤ code) × (code < first + count) × (0 < book.symbol_count)
unfolding lookup_ordinal
lookup_ordinal-Found code count first start symbol book h =
    elim (Bool-cases (count == 0 || ltb code first)) [
      | inl outside ↦ absurd (ground (arith, outside))
      | inr low ↦ elim (Bool-cases (leb count (code - first))) [
        | inl outside ↦ absurd (ground (arith, low, outside))
        | inr high ↦ elim (Bool-cases (leb book.symbol_count (start + (code - first)))) [
          | inl outside ↦ absurd (ground (arith, low, high, outside))
          | inr inside ↦ (
            ground (arith, low),
            ground (arith, low),
            ground (arith, low, high),
            ground (arith, inside),
          )
        ]
      ]
    ]

pub lookup_lem :
    (width code count first start : ℕ) (book : PrefixBook)
    → get_elem? book.counts width ≡ some count
    → get_elem? book.first_codes width ≡ some first
    → get_elem? book.starts width ≡ some start
    → lookup width code book ≡ lookup_ordinal code count first start book
unfolding lookup
lookup_lem width code count first start book e1 e2 e3 = rw (lookup, e1, e2, e3) refl

lookup-arrays :
    (width code symbol : ℕ) (book : PrefixBook)
    → lookup width code book ≡ some symbol
    → (count : ℕ) × (start : ℕ) × (get_elem? book.counts width ≡ some count)
      × (get_elem? book.starts width ≡ some start)
unfolding lookup
lookup-arrays width code symbol book h = elim (Option-cases (get_elem? book.counts width)) [
  | inl missing ↦ absurd (ground (arith, missing))
  | inr (count, e1) ↦ elim (Option-cases (get_elem? book.first_codes width)) [
    | inl missing ↦ absurd (ground (arith, missing, e1))
    | inr (first, e2) ↦ elim (Option-cases (get_elem? book.starts width)) [
      | inl missing ↦ absurd (ground (arith, missing, e1, e2))
      | inr (start, e3) ↦ (count, start, e1, e3)
    ]
  ]
]

lookup-Found :
    (width_limit width code symbol : ℕ) (book : PrefixBook)
    → IsCanonical width_limit book
    → 0 < width
    → width ≤ width_limit
    → lookup width code book ≡ some symbol
    → Found width code book
unfolding count_at
lookup-Found width_limit width code symbol book canonical h1 h2 h =
    let (count, start, e1, e2) = lookup-arrays width code symbol book h in
    let coded = canonical.codes width h1 h2 in
    let found =
      sym (lookup_lem width code count (first_code book.counts width) start book e1 coded e2) ∙ h in
    let (a, b, c, d) =
      lookup_ordinal-Found code count (first_code book.counts width) start symbol book found in
    let same : or_zero (get_elem? book.counts width) ≡ count = ap or_zero e1 in
    record { counted = omega (arith, same); from = b; below = omega (arith, same); nonempty = d }

module _ {D : Stream} where
  pub read_bit-lt :
      (fuel bit : ℕ) (bits after : BitStream D) → read_bit fuel bits ≡ ok (bit, after) → bit < 2
  unfolding read_bit
  read_bit-lt fuel bit bits after h =
      let (loaded, e, h1) =
        bind-ok (if bits.used == 8 then Bits.next_byte fuel bits else ok bits) _ h in
      omega (arith, ap (λ (p : ℕ × BitStream D). p.0) (ok-injective _ (bit, after) h1))

  -- Bits that are read after a number below the codes of a width leave it below those of wider ones.
  field_loop-below :
      (n j width fuel value final : ℕ) (counts : List ℕ) (bits after : BitStream D)
      → j + n ≡ width
      → value < first_code counts j
      → field_loop n fuel value bits ≡ ok (final, after)
      → final < first_code counts width
  unfolding field_loop first_code
  field_loop-below zero j width fuel value final counts bits after reach low h =
      let e : j ≡ width = omega (arith, reach) in
      omega (
        arith,
        ap (first_code counts) e,
        ap (λ (p : ℕ × BitStream D). p.0) (ok-injective (value, bits) (final, after) h),
      )
  field_loop-below (suc n) j width fuel value final counts bits after reach low h =
      let ((bit, bits1), e, h1) = bind-ok (read_bit fuel bits) _ h in
      field_loop-below n (suc j) width fuel (value * 2 % 0x1_0000_0000 + bit) final counts bits1
        after (omega (arith, reach)) (omega (arith, read_bit-lt fuel bit bits bits1 e)) h1

module _ {D : Stream} (width_limit : ℕ) (book : PrefixBook)
    (canonical : IsCanonical width_limit book) where
  -- A shorter code that is found is not the start of one that is found.
  lookup-start :
      (n k width fuel code final symbol : ℕ) (bits after : BitStream D)
      → suc k + suc n ≡ width
      → width ≤ width_limit
      → lookup width final book ≡ some symbol
      → field_loop (suc n) fuel code bits ≡ ok (final, after)
      → lookup (suc k) code book ≡ none
  unfolding field_loop first_code
  lookup-start n k width fuel code final symbol bits after reach fits found h =
      elim (Option-cases (lookup (suc k) code book)) [
        | inl missing ↦ missing
        | inr (early, e) ↦
            let f =
              lookup-Found width_limit (suc k) code early book canonical (omega arith)
                (omega (arith, reach)) e in
            let g =
              lookup-Found width_limit width final symbol book canonical (omega (arith, reach)) fits
                found in
            let ((bit, bits1), e1, h1) = bind-ok (read_bit fuel bits) _ h in
            let low : code * 2 % 0x1_0000_0000 + bit < first_code book.counts (suc (suc k)) =
              omega (arith, f.below, read_bit-lt fuel bit bits bits1 e1) in
            let under =
              field_loop-below n (suc (suc k)) width fuel (code * 2 % 0x1_0000_0000 + bit) final
                book.counts bits1 after (omega (arith, reach)) low h1 in
            absurd (omega (arith, under, g.from))
      ]

  symbol_loop-found :
      (widths k fuel code bit symbol : ℕ) (bits bits1 : BitStream D)
      → read_bit fuel bits ≡ ok (bit, bits1)
      → book.min_width ≤ suc k
      → lookup (suc k) (code * 2 % 0x1_0000_0000 + bit) book ≡ some symbol
      → symbol_loop (suc widths) fuel (suc k) code book bits ≡ ok (symbol, bits1)
  unfolding symbol_loop found_or
  symbol_loop-found widths k fuel code bit symbol bits bits1 e least found =
      let long : leb book.min_width (suc k) ≡ true = ground (arith, least) in
      rw (e, long, found) refl

  symbol_loop-none :
      (widths k fuel code bit : ℕ) (bits bits1 : BitStream D)
      → read_bit fuel bits ≡ ok (bit, bits1)
      → lookup (suc k) (code * 2 % 0x1_0000_0000 + bit) book ≡ none
      → symbol_loop (suc widths) fuel (suc k) code book bits
        ≡ symbol_loop widths fuel (suc (suc k)) (code * 2 % 0x1_0000_0000 + bit) book bits1
  unfolding symbol_loop found_or
  symbol_loop-none widths k fuel code bit bits bits1 e missing =
      elim (Bool-cases (leb book.min_width (suc k))) [
        | inl long ↦ rw (e, long, missing) refl
        | inr short ↦ rw (e, short) refl
      ]

  symbol_loop_lem :
      (n k extra width fuel code final symbol : ℕ) (bits after : BitStream D)
      → k + suc n ≡ width
      → width ≤ width_limit
      → lookup width final book ≡ some symbol
      → field_loop (suc n) fuel code bits ≡ ok (final, after)
      → symbol_loop (suc (n + extra)) fuel (suc k) code book bits ≡ ok (symbol, after)
  unfolding field_loop
  symbol_loop_lem zero k extra width fuel code final symbol bits after reach fits found h =
      let ((bit, bits1), e, h1) = bind-ok (read_bit fuel bits) _ h in
      let same = ok-injective (code * 2 % 0x1_0000_0000 + bit, bits1) (final, after) h1 in
      let reached : width ≡ suc k = omega (arith, reach) in
      let here : lookup (suc k) (code * 2 % 0x1_0000_0000 + bit) book ≡ some symbol =
        (λ i. lookup (sym reached i) ((same i).0) book) ∙ found in
      let f =
        lookup-Found width_limit (suc k) _ symbol book canonical (omega arith)
          (omega (arith, reach)) here in
      let least = canonical.least (suc k) (omega arith) (omega (arith, reach)) f.counted in
      symbol_loop-found (0 + extra) k fuel code bit symbol bits bits1 e least here
      ∙ (λ i. ok (symbol, (same i).1))
  symbol_loop_lem (suc n) k extra width fuel code final symbol bits after reach fits found h =
      let ((bit, bits1), e, h1) = bind-ok (read_bit fuel bits) _ h in
      let code' : ℕ = code * 2 % 0x1_0000_0000 + bit in
      let missing =
        lookup-start n k width fuel code' final symbol bits1 after (omega (arith, reach)) fits found
          h1 in
      let rounds : suc n + extra ≡ suc (n + extra) = omega arith in
      symbol_loop-none (suc n + extra) k fuel code bit bits bits1 e missing
      ∙ ap (λ (w : ℕ). symbol_loop w fuel (suc (suc k)) code' book bits1) rounds
      ∙ symbol_loop_lem n (suc k) extra width fuel code' final symbol bits1 after
          (omega (arith, reach)) fits found h1

-- A book that `build` gives is a prefix code: where the next bits, read as a field, are a code of the
-- book, `read_symbol` gives the symbol of that code and moves as far.
pub read_symbol-lookup :
    {D : Stream} (lengths : List ℕ) (width_limit width fuel code symbol : ℕ) (book : PrefixBook)
    (bits after : BitStream D)
    → build lengths width_limit ≡ good book
    → 0 < width
    → width ≤ width_limit
    → lookup width code book ≡ some symbol
    → read_field fuel width bits ≡ ok (code, after)
    → read_symbol fuel book bits ≡ ok (symbol, after)
unfolding read_field read_symbol
read_symbol-lookup lengths width_limit zero fuel code symbol book bits after built h1 h2 found h =
    absurd (omega arith)
read_symbol-lookup lengths width_limit (suc n) fuel code symbol book bits after built h1 h2 found
      h =
    let canonical = build-IsCanonical lengths width_limit book built in
    let f = lookup-Found width_limit (suc n) code symbol book canonical h1 h2 found in
    let most = canonical.most (suc n) h1 h2 f.counted in
    let some_symbols : (book.symbol_count == 0) ≡ false = ground (arith, f.nonempty) in
    let rounds : book.max_width ≡ suc (n + (book.max_width - suc n)) = omega (arith, most) in
    let (u, e, h3) = bind-ok (refuse (suc n == 0) _) _ h in
    rw some_symbols (
      ap (λ (w : ℕ). symbol_loop w fuel 1 0 book bits) rounds
      ∙ symbol_loop_lem width_limit book canonical n 0 (book.max_width - suc n) (suc n) fuel 0 code
          symbol bits after (omega arith) h2 found h3)
