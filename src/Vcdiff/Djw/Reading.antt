-- ===== src/Vcdiff/Djw/Reading.antt =====
-- The tables of a section are read to their end, or an error is reported.
use rust_crates.Prelude.{
  ℕ, zero, suc, ◌+◌, ◌-◌, ◌*◌, ◌%◌, ◌≤◌, ◌<◌, ◌≡◌, refl, ap, List, [], ◌∷◌, ◌++◌, arith, replicate,
}
use rust_crates.Prelude.{ltb, ◌==◌, length}
use rust_crates.Vcdiff.Error.{refuse, invalid_field, invalid_selector}
use rust_crates.Vcdiff.Stream.{Stream, ReadsBytes}
use rust_crates.Vcdiff.Djw.Fault.{format_error, or_format}
use rust_crates.Vcdiff.Djw.Bits.{BitStream, context, read_bit, field_loop, read_field}
use rust_crates.Vcdiff.Djw.Book.{PrefixBook, build, byte_symbols}
use rust_crates.Vcdiff.Djw.Symbol.{read_symbol}
use rust_crates.Vcdiff.Djw.Tokens
use rust_crates.Vcdiff.Djw.Tokens.{MtfList, TokenMachine, from_slice, identity, count_up}
use rust_crates.Vcdiff.Djw.Section.{
  any_outside, expand_tokens, read_widths, read_symbols, read_lengths, read_selectors,
  token_symbols, max_token_width, max_selector_width, initial_length_order,
}
use rust_crates.Vcdiff.Djw.Canonical.{pow2}
use rust_crates.Vcdiff.Djw.Prefix.{read_bit-lt}
use rust_crates.Vcdiff.Djw.Totals.{build-Checks}
use rust_crates.Vcdiff.Djw.Settling.{
  Settles, gives, Settles-bind, Settles-map, Settles-known, refuse-Settles, or_format-Settles,
  IsInSection, read_bit-Settles, read_symbol-Settles,
}
use rust_crates.Vcdiff.Djw.Expanding.{expand_tokens-Settles}
use rust_crates.Vcdiff.Djw.Tables.{identity-Checks, initial-Checks}

module _ {D : Stream} (law : ReadsBytes D) (content : List ℕ) where
  field_loop-Settles :
      (n j total fuel value : ℕ) (bits : BitStream D)
      → IsInSection law content bits
      → j + n ≡ total
      → total ≤ 20
      → value < pow2 j
      → Settles
          (λ (v, bits'). (v < pow2 total) × IsInSection law content bits')
          (field_loop n (suc fuel) value bits)
  unfolding field_loop pow2
  field_loop-Settles zero j total fuel value bits s e small h =
      let same : j ≡ total = omega (arith, e) in
      gives (value, bits) refl (omega (arith, ap pow2 same), s)
  field_loop-Settles (suc n) j total fuel value bits s e small h =
      Settles-bind (read_bit (suc fuel) bits) _
        (Settles-known (read_bit-Settles law content fuel bits s))
        (λ (bit, after) (s', read).
          field_loop-Settles n (suc j) total fuel (value * 2 % 0x1_0000_0000 + bit) after s'
            (omega (arith, e)) small (omega (arith, h, read_bit-lt (suc fuel) bit bits after read)))

  pub read_field-Settles :
      (fuel width : ℕ) (bits : BitStream D)
      → IsInSection law content bits
      → width ≤ 20
      → Settles
          (λ (v, bits'). (v < pow2 width) × IsInSection law content bits')
          (read_field (suc fuel) width bits)
  unfolding read_field pow2
  read_field-Settles fuel width bits s h =
      Settles-bind (refuse (width == 0) (format_error (context bits) invalid_field)) _
        (refuse-Settles (width == 0) (format_error (context bits) invalid_field))
        (λ _ _. field_loop-Settles width 0 width fuel 0 bits s (omega arith) h (omega arith))

  read_widths-Settles :
      (n fuel field_width : ℕ) (bits : BitStream D)
      → IsInSection law content bits
      → field_width ≤ 20
      → Settles
          (λ (ws, bits'). (length ws ≡ n) × IsInSection law content bits')
          (read_widths n (suc fuel) field_width bits)
  unfolding read_widths
  read_widths-Settles zero fuel field_width bits s h = gives ([], bits) refl (refl, s)
  read_widths-Settles (suc n) fuel field_width bits s h =
      Settles-bind (read_field (suc fuel) field_width bits) _
        (read_field-Settles fuel field_width bits s h)
        (λ (width, bits') (_, s').
          Settles-bind (read_widths n (suc fuel) field_width bits') _
            (read_widths-Settles n fuel field_width bits' s' h)
            (λ (ws, bits'') (same, s''). gives (width % 256 ∷ ws, bits'') refl (ap suc same, s'')))

  pub read_symbols-Settles :
      (n fuel : ℕ) (book : PrefixBook) (bits : BitStream D)
      → IsInSection law content bits
      → Settles
          (λ (bytes, bits'). (length bytes ≡ n) × IsInSection law content bits')
          (read_symbols n (suc fuel) book bits)
  unfolding read_symbols
  read_symbols-Settles zero fuel book bits s = gives ([], bits) refl (refl, s)
  read_symbols-Settles (suc n) fuel book bits s =
      Settles-bind (read_symbol (suc fuel) book bits) _
        (read_symbol-Settles law content fuel book bits s)
        (λ (byte, bits') s'.
          Settles-bind (read_symbols n (suc fuel) book bits') _
            (read_symbols-Settles n fuel book bits' s')
            (λ (bytes, bits'') (same, s''). gives (byte ∷ bytes, bits'') refl (ap suc same, s'')))

  pub read_lengths-Settles :
      (fuel group_count : ℕ) (bits : BitStream D)
      → IsInSection law content bits
      → Settles
          (λ (_, bits'). IsInSection law content bits')
          (read_lengths (suc fuel) group_count bits)
  unfolding read_lengths Tokens.new
  read_lengths-Settles fuel group_count bits s =
      Settles-bind (read_field (suc fuel) 4 bits) _ (read_field-Settles fuel 4 bits s (omega arith))
        (λ (sent, counted) (_, s1).
          Settles-bind
            (refuse (ltb token_symbols (sent + 7)) (format_error (context counted) invalid_field)) _
            (refuse-Settles (ltb token_symbols (sent + 7))
              (format_error (context counted) invalid_field))
            (λ _ _.
              Settles-bind (read_widths (sent + 7) (suc fuel) 4 counted) _
                (read_widths-Settles (sent + 7) fuel 4 counted s1 (omega arith))
                (λ (widths, measured) (_, s2).
                  let token_lengths : List ℕ = widths ++ replicate (token_symbols - (sent + 7)) 0 in
                  Settles-bind (or_format (context measured) (build token_lengths max_token_width))
                    _
                    (or_format-Settles (context measured) (build token_lengths max_token_width)
                      (build-Checks token_lengths max_token_width))
                    (λ token_book _.
                      Settles-bind (or_format (context measured) (from_slice initial_length_order))
                        _
                        (or_format-Settles (context measured) (from_slice initial_length_order)
                          initial-Checks)
                        (λ mtf i.
                          Settles-map (λ _ (_, s3). s3)
                            (expand_tokens-Settles law content fuel byte_symbols token_book
                              (Tokens.new mtf) (replicate (group_count * byte_symbols) 0) measured
                              s2 i))))))

  pub read_selectors-Settles :
      (fuel group_count : ℕ) (selectors : List ℕ) (bits : BitStream D)
      → IsInSection law content bits
      → Settles
          (λ (selectors', bits').
            (length selectors' ≡ length selectors) × IsInSection law content bits')
          (read_selectors (suc fuel) group_count selectors bits)
  unfolding read_selectors Tokens.new
  read_selectors-Settles fuel group_count selectors bits s =
      Settles-bind (read_widths (group_count + 1) (suc fuel) 3 bits) _
        (read_widths-Settles (group_count + 1) fuel 3 bits s (omega arith))
        (λ (widths, measured) (_, s1).
          Settles-bind (or_format (context measured) (build widths max_selector_width)) _
            (or_format-Settles (context measured) (build widths max_selector_width)
              (build-Checks widths max_selector_width))
            (λ selector_book _.
              Settles-bind (or_format (context measured) (identity group_count)) _
                (or_format-Settles (context measured) (identity group_count)
                  (identity-Checks group_count))
                (λ mtf i.
                  Settles-bind
                    (expand_tokens (suc fuel) selector_book 0 (Tokens.new mtf) selectors measured) _
                    (expand_tokens-Settles law content fuel 0 selector_book (Tokens.new mtf)
                      selectors measured s1 i)
                    (λ (selectors', expanded) (same, s2).
                      Settles-bind
                        (refuse (any_outside selectors' group_count)
                          (format_error (context expanded) invalid_selector))
                        _
                        (refuse-Settles (any_outside selectors' group_count)
                          (format_error (context expanded) invalid_selector))
                        (λ _ _. gives (selectors', expanded) refl (same, s2))))))
