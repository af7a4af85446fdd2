-- ===== src/Vcdiff/Djw/Building.antt =====
-- `PrefixBook::build` always ends: with a book, or with a fault.
use rust_crates.Prelude.{
  ℕ, zero, suc, ◌+◌, ◌-◌, ◌*◌, ◌%◌, ◌≤◌, ◌<◌, ◌≡◌, refl, sym, ◌∙◌, List, [], ◌∷◌, arith, inl, inr,
}
use rust_crates.Prelude.{All, ltb, leb, ◌==◌, if◌then◌else◌, length, Bool-cases}
use rust_crates.Vcdiff.Error.{invalid_field, invalid_table}
use rust_crates.Vcdiff.Djw.Fault.{good, reject, item, put, add_u16}
use rust_crates.Vcdiff.Djw.Book.{
  PrefixBook, count_width, count_widths, check_slots, widen, assign_codes, place_symbol,
  place_symbols,
}
use rust_crates.Vcdiff.Djw.Checking.{
  Checks, passes, faults, Checks-bind, Checks-map, reject-Checks, item-Checks, put-Checks,
}

add_u16-Checks : (a b : ℕ) → Checks (λ c. c ≡ a + b) (add_u16 a b)
add_u16-Checks a b = elim (Bool-cases (ltb 0xffff (a + b))) [
  | inl over ↦ faults invalid_table (rw over refl)
  | inr fits ↦ passes (a + b) (rw fits refl) refl
]

count_width-Checks :
    (counts : List ℕ) (width : ℕ)
    → width < length counts
    → Checks (λ after. length after ≡ length counts) (count_width counts width)
unfolding count_width
count_width-Checks counts width h =
    Checks-bind (item counts width) _ (item-Checks counts width h) (λ count _.
      Checks-bind (add_u16 count 1) _ (add_u16-Checks count 1)
        (λ count' _. put-Checks counts width count' h))

count_or_skip-Checks :
    (counts : List ℕ) (width : ℕ)
    → width < length counts
    → Checks
        (λ after. length after ≡ length counts)
        (if width == 0 then good counts else count_width counts width)
count_or_skip-Checks counts width h = elim (Bool-cases (width == 0)) [
  | inl skipped ↦ rw skipped (passes counts refl refl)
  | inr found ↦ rw found (count_width-Checks counts width h)
]

pub count_widths-Checks :
    (width_limit : ℕ) (lengths counts : List ℕ)
    → width_limit < length counts
    → Checks
        (λ after. (length after ≡ length counts) × All (λ w. w ≤ width_limit) lengths)
        (count_widths width_limit lengths counts)
unfolding count_widths
count_widths-Checks width_limit [] counts h = passes counts refl (refl, tt)
count_widths-Checks width_limit (width ∷ lengths) counts h =
    Checks-bind (reject (ltb width_limit width) invalid_table) _
      (reject-Checks (ltb width_limit width) invalid_table)
      (λ _ fits.
        let small : width ≤ width_limit = ground (arith, fits) in
        Checks-bind (if width == 0 then good counts else count_width counts width) _
          (count_or_skip-Checks counts width (omega (arith, small)))
          (λ counts' same.
            Checks-map (λ _ (e, all). (e ∙ same, (small, all)))
              (count_widths-Checks width_limit lengths counts' (omega (arith, same)))))

pub check_slots-Checks :
    (widths width open_slots : ℕ) (counts : List ℕ)
    → width + widths ≤ length counts
    → Checks (λ _. Unit {0}) (check_slots widths width open_slots counts)
unfolding check_slots
check_slots-Checks zero width open_slots counts h = passes tt refl tt
check_slots-Checks (suc widths) width open_slots counts h =
    Checks-bind (item counts width) _ (item-Checks counts width (omega arith)) (λ used _.
      Checks-bind (reject (ltb (open_slots * 2 % 0x1_0000_0000) used) invalid_table) _
        (reject-Checks (ltb (open_slots * 2 % 0x1_0000_0000) used) invalid_table)
        (λ _ _.
          check_slots-Checks widths (suc width) (open_slots * 2 % 0x1_0000_0000 - used) counts
            (omega arith)))

-- The arrays of a book have 21 places.
pub record IsSized (book : PrefixBook) : Type 0 where
  pub counts_size : length book.counts ≡ 21
  pub codes_size : length book.first_codes ≡ 21
  pub starts_size : length book.starts ≡ 21
  pub ordered_size : length book.ordered ≡ 256

widen-IsSized :
    (count width : ℕ) (book : PrefixBook) → IsSized book → IsSized (widen count width book)
unfolding widen
widen-IsSized zero width book s = s
widen-IsSized (suc count) width book s = record {
  counts_size = s.counts_size;
  codes_size = s.codes_size;
  starts_size = s.starts_size;
  ordered_size = s.ordered_size;
}

pub assign_codes-Checks :
    (widths width next_code next_symbol : ℕ) (book : PrefixBook)
    → width + widths ≤ 21
    → IsSized book
    → Checks
        (λ (total, final). IsSized final)
        (assign_codes widths width next_code next_symbol book)
unfolding assign_codes
assign_codes-Checks zero width next_code next_symbol book h s = passes _ refl s
assign_codes-Checks (suc widths) width next_code next_symbol book h s =
    Checks-bind (item book.counts (width - 1)) _
      (item-Checks book.counts (width - 1) (omega (arith, s.counts_size)))
      (λ previous _.
        let code : ℕ = (next_code + previous) * 2 % 0x1_0000_0000 in
        Checks-bind (put book.first_codes width code) _
          (put-Checks book.first_codes width code (omega (arith, s.codes_size)))
          (λ firsts e1.
            Checks-bind (put book.starts width next_symbol) _
              (put-Checks book.starts width next_symbol (omega (arith, s.starts_size)))
              (λ starts e2.
                Checks-bind (item book.counts width) _
                  (item-Checks book.counts width (omega (arith, s.counts_size)))
                  (λ count _.
                    Checks-bind (add_u16 next_symbol count) _ (add_u16-Checks next_symbol count)
                      (λ next_symbol' _.
                        assign_codes-Checks widths (suc width) code next_symbol'
                          (widen count width
                            (record book { first_codes = firsts; starts = starts }))
                          (omega arith)
                          (widen-IsSized count width
                            (record book { first_codes = firsts; starts = starts })
                            (record {
                              counts_size = s.counts_size;
                              codes_size = e1 ∙ s.codes_size;
                              starts_size = e2 ∙ s.starts_size;
                              ordered_size = s.ordered_size;
                            })))))))

place_symbol-Checks :
    (symbol width symbol_count : ℕ) (slots ordered : List ℕ)
    → width < length slots
    → symbol_count ≤ length ordered
    → Checks
        (λ (slots', ordered'). (length slots' ≡ length slots) × (length ordered' ≡ length ordered))
        (place_symbol symbol width symbol_count slots ordered)
unfolding place_symbol
place_symbol-Checks symbol width symbol_count slots ordered h k =
    Checks-bind (item slots width) _ (item-Checks slots width h) (λ slot _.
      Checks-bind (reject (leb symbol_count slot) invalid_table) _
        (reject-Checks (leb symbol_count slot) invalid_table)
        (λ _ inside.
          Checks-bind (reject (ltb 0xff symbol) invalid_field) _
            (reject-Checks (ltb 0xff symbol) invalid_field)
            (λ _ _.
              Checks-bind (put ordered slot symbol) _
                (put-Checks ordered slot symbol (ground (arith, inside, k)))
                (λ ordered' e1. Checks-bind (add_u16 slot 1) _ (add_u16-Checks slot 1) (λ slot' _.
                  Checks-bind (put slots width slot') _ (put-Checks slots width slot' h)
                    (λ slots' e2. passes _ refl (e2, e1)))))))

place_or_skip-Checks :
    (symbol width symbol_count : ℕ) (slots ordered : List ℕ)
    → width < length slots
    → symbol_count ≤ length ordered
    → Checks
        (λ (slots', ordered'). (length slots' ≡ length slots) × (length ordered' ≡ length ordered))
        (if width == 0
          then good (slots, ordered)
          else place_symbol symbol width symbol_count slots ordered)
place_or_skip-Checks symbol width symbol_count slots ordered h k = elim (Bool-cases (width == 0)) [
  | inl skipped ↦ rw skipped (passes (slots, ordered) refl (refl, refl))
  | inr found ↦ rw found (place_symbol-Checks symbol width symbol_count slots ordered h k)
]

pub All-lt : (ws : List ℕ) (m n : ℕ) → m ≡ n → All (λ w. w < m) ws → All (λ w. w < n) ws
All-lt [] m n e h = tt
All-lt (w ∷ ws) m n e (h, hs) = (omega (arith, e), All-lt ws m n e hs)

pub place_symbols-Checks :
    (lengths : List ℕ) (symbol symbol_count : ℕ) (slots ordered : List ℕ)
    → All (λ w. w < length slots) lengths
    → symbol_count ≤ length ordered
    → Checks
        (λ ordered'. length ordered' ≡ length ordered)
        (place_symbols symbol lengths symbol_count slots ordered)
unfolding place_symbols
place_symbols-Checks [] symbol symbol_count slots ordered h k = passes _ refl refl
place_symbols-Checks (width ∷ lengths) symbol symbol_count slots ordered (h, hs) k =
    Checks-bind
      (if width == 0
        then good (slots, ordered)
        else place_symbol symbol width symbol_count slots ordered)
      _ (place_or_skip-Checks symbol width symbol_count slots ordered h k)
      (λ (slots', ordered') (e1, e2).
        Checks-map (λ _ e. e ∙ e2)
          (place_symbols-Checks lengths (symbol + 1) symbol_count slots' ordered'
            (All-lt lengths (length slots) (length slots') (sym e1) hs) (omega (arith, e2))))
