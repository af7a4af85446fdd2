-- ===== src/Vcdiff/Djw/Totals.antt =====
-- `PrefixBook::build` never panics.
use rust_crates.Prelude.{
  ℕ, zero, suc, ◌+◌, ◌≤◌, ◌<◌, ◌≡◌, refl, ap, ◌∙◌, Bool, List, [], ◌∷◌, arith, inl, inr,
}
use rust_crates.Prelude.{All, ltb, ◌==◌, ◌||◌, ◌&&◌, if◌then◌else◌, length, Bool-cases}
use rust_crates.Vcdiff.Error.{invalid_field}
use rust_crates.Vcdiff.Djw.Fault.{reject}
use rust_crates.Vcdiff.Djw.Book.{
  PrefixBook, byte_symbols, max_code_width, empty_book, count_widths, check_slots, assign_codes,
  place_symbols, fill_book, build,
}
use rust_crates.Vcdiff.Djw.Canonical.{count_at}
use rust_crates.Vcdiff.Djw.Spec.{occurrences}
use rust_crates.Vcdiff.Djw.Assigning.{count_widths-zero}
use rust_crates.Vcdiff.Djw.Starts.{place_start, starts_lem}
use rust_crates.Vcdiff.Djw.Counting.{count_widths_lem}
use rust_crates.Vcdiff.Djw.Built.{zero_counts}
use rust_crates.Vcdiff.Djw.Checking.{Checks, passes, Checks-bind, Checks-known, reject-Checks}
use rust_crates.Vcdiff.Djw.Building.{
  count_widths-Checks, check_slots-Checks, assign_codes-Checks, place_symbols-Checks,
}

-- How many symbols have a width below a number, and a code.
narrower : ℕ → List ℕ → ℕ
narrower k [] = 0
narrower k (w ∷ lengths) = (if ltb 0 w && ltb w k then 1 else 0) + narrower k lengths

narrower-le : (k : ℕ) (lengths : List ℕ) → narrower k lengths ≤ length lengths
unfolding narrower
narrower-le k [] = omega arith
narrower-le k (w ∷ lengths) = elim (Bool-cases (ltb 0 w && ltb w k)) [
  | inl counted ↦ rw counted (omega (arith, narrower-le k lengths))
  | inr other ↦ rw other (omega (arith, narrower-le k lengths))
]

narrower-suc :
    (k : ℕ) (lengths : List ℕ)
    → 0 < k
    → narrower (suc k) lengths ≡ narrower k lengths + occurrences k lengths
unfolding narrower occurrences
narrower-suc k [] h = refl
narrower-suc k (w ∷ lengths) h = ground (arith, narrower-suc k lengths h)

narrower-one : (lengths : List ℕ) → narrower 1 lengths ≡ 0
unfolding narrower
narrower-one [] = refl
narrower-one (w ∷ lengths) = ground (arith, narrower-one lengths)

place_start-narrower :
    (k : ℕ) (counts lengths : List ℕ)
    → count_at counts 0 ≡ 0
    → ((w : ℕ) → 0 < w → count_at counts w ≡ occurrences w lengths)
    → place_start counts (suc k) ≡ narrower (suc k) lengths
unfolding place_start
place_start-narrower zero counts lengths unused same = omega (arith, unused, narrower-one lengths)
place_start-narrower (suc k) counts lengths unused same = omega (
  arith,
  place_start-narrower k counts lengths unused same,
  same (suc k) (omega arith),
  narrower-suc (suc k) lengths (omega arith),
)

All-below : (ws : List ℕ) (m n : ℕ) → m < n → All (λ w. w ≤ m) ws → All (λ w. w < n) ws
All-below [] m n e h = tt
All-below (w ∷ ws) m n e (h, hs) = (omega (arith, e), All-below ws m n e hs)

fill_book-Checks :
    (lengths counts : List ℕ) (width_limit : ℕ)
    → width_limit ≤ 20
    → length counts ≡ 21
    → All (λ w. w ≤ width_limit) lengths
    → count_at counts 0 ≡ 0
    → place_start counts (suc width_limit) ≤ 256
    → Checks (λ _. Unit {0}) (fill_book lengths width_limit counts)
unfolding fill_book empty_book place_start
fill_book-Checks lengths counts width_limit small size all unused total =
    let start : PrefixBook = record empty_book { counts = counts } in
    Checks-bind (check_slots width_limit 1 1 counts) _
      (check_slots-Checks width_limit 1 1 counts (omega (arith, size)))
      (λ _ _.
        Checks-bind (assign_codes width_limit 1 0 0 start) _
          (Checks-known (
            assign_codes-Checks width_limit 1 0 0 start (omega arith) (record {
              counts_size = size;
              codes_size = refl;
              starts_size = refl;
              ordered_size = refl;
            })))
          (λ (symbol_count, coded) (s, e).
            let whole =
              (starts_lem width_limit 0 0 0 symbol_count start coded (omega (arith, unused))
                e).whole in
            let reach : suc (0 + width_limit) ≡ suc width_limit = omega arith in
            Checks-bind (place_symbols 0 lengths symbol_count coded.starts coded.ordered) _
              (place_symbols-Checks lengths 0 symbol_count coded.starts coded.ordered
                (All-below lengths width_limit (length coded.starts) (omega (arith, s.starts_size))
                  all)
                (omega (arith, whole, ap (place_start counts) reach, s.ordered_size)))
              (λ _ _. passes _ refl tt)))

pub build-Checks :
    (lengths : List ℕ) (width_limit : ℕ) → Checks (λ _. Unit {0}) (build lengths width_limit)
unfolding build empty_book
build-Checks lengths width_limit =
    let wrong : Bool =
      ltb byte_symbols (length lengths) || (width_limit == 0 || ltb max_code_width width_limit) in
    Checks-bind (reject wrong invalid_field) _ (reject-Checks wrong invalid_field) (λ _ fits.
      let small : width_limit ≤ 20 = ground (arith, fits) in
      let few : length lengths ≤ 256 = ground (arith, fits) in
      Checks-bind (count_widths width_limit lengths (empty_book.counts)) _
        (Checks-known (count_widths-Checks width_limit lengths (empty_book.counts) (omega arith)))
        (λ counts ((size, all), e).
          let unused : count_at counts 0 ≡ 0 =
            count_widths-zero width_limit lengths (empty_book.counts) counts e ∙ zero_counts 21 0 in
          let counted : (w : ℕ) → 0 < w → count_at counts w ≡ occurrences w lengths = λ w h. omega (
            arith,
            count_widths_lem width_limit w lengths (empty_book.counts) counts h e,
            zero_counts 21 w,
          ) in
          fill_book-Checks lengths counts width_limit small size all unused (
            omega (
              arith,
              place_start-narrower width_limit counts lengths unused counted,
              narrower-le (suc width_limit) lengths,
            ))))
