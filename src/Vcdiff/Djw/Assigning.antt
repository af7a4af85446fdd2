-- ===== src/Vcdiff/Djw/Assigning.antt =====
-- `PrefixBook::build` gives each width its first code.
use rust_crates.Prelude.{
  ℕ, zero, suc, ◌+◌, ◌-◌, ◌*◌, ◌%◌, ◌≤◌, ◌<◌, ◌≡◌, refl, sym, ap, ◌∙◌, subst, Bool, false, some,
  List, [], ◌∷◌, arith, inl, inr,
}
use rust_crates.Prelude.{
  ltb, ◌==◌, ◌||◌, if◌then◌else◌, length, get_elem?, get_elem?-set_ne, Bool-cases,
}
use rust_crates.Vcdiff.Djw.Fault.{
  good, good-injective, bind-good, reject, reject-good, item, put, put-good, add_u16,
}
use rust_crates.Vcdiff.Djw.Book.{
  PrefixBook, byte_symbols, max_code_width, empty_book, check_slots, widen, assign_codes,
  count_width, count_widths, place_symbols, fill_book, build,
}
use rust_crates.Vcdiff.Djw.Canonical.{
  or_zero, count_at, first_code, Assigned, pow2, pow2-small, count_at-some, assign_codes_step,
  widen-counts,
}

-- The codes so far and the open slots make up all words of a width.
kraft_step :
    (k open_slots used previous count next_code : ℕ)
    → k < 20
    → next_code + previous + open_slots ≡ pow2 k
    → ltb (open_slots * 2 % 0x1_0000_0000) used ≡ false
    → count ≡ used
    → ((next_code + previous) * 2 % 0x1_0000_0000 ≡ (next_code + previous) * 2)
      × ((next_code + previous) * 2 % 0x1_0000_0000
            + count
            + (open_slots * 2 % 0x1_0000_0000 - used)
          ≡ 2 * pow2 k)
kraft_step k open_slots used previous count next_code small kraft fits same =
    let bound = pow2-small (20 - k) k (omega arith) in
    let enough : used ≤ open_slots * 2 % 0x1_0000_0000 = ground (arith, fits) in
    (omega arith, omega arith)

assign_codes_lem :
    (widths k next_code next_symbol total open_slots : ℕ) (u : Unit {0}) (counts : List ℕ)
    (book final : PrefixBook)
    → book.counts ≡ counts
    → k + widths ≤ 20
    → check_slots widths (suc k) open_slots counts ≡ good u
    → next_code ≡ first_code book.counts k
    → next_code + count_at book.counts k + open_slots ≡ pow2 k
    → assign_codes widths (suc k) next_code next_symbol book ≡ good (total, final)
    → Assigned k widths book final
unfolding check_slots assign_codes first_code pow2
assign_codes_lem zero k next_code next_symbol total open_slots u counts book final same small slots
      coded kraft h =
    let end : book ≡ final = ap (λ (p : ℕ × PrefixBook). p.1) (good-injective _ (total, final) h) in
    subst (λ (b : PrefixBook). Assigned k 0 book b) end
      (record {
        same_counts = refl;
        kept = λ v h. refl;
        codes = λ v h1 h2. absurd (omega arith);
        kept_min = λ h. refl;
        least = λ h v h1 h2 h3. absurd (omega arith);
        kept_max = λ h. omega arith;
        most = λ h v h1 h2 h3. absurd (omega arith);
      })
assign_codes_lem (suc widths) k next_code next_symbol total open_slots u counts book final same
      small slots coded kraft h =
    let (used, s1, slots1) = bind-good (item counts (suc k)) _ slots in
    let (u2, s2, slots2) =
      bind-good (reject (ltb (open_slots * 2 % 0x1_0000_0000) used) _) _ slots1 in
    let (previous, e1, h1) = bind-good (item book.counts (suc k - 1)) _ h in
    let code : ℕ = (next_code + previous) * 2 % 0x1_0000_0000 in
    let (firsts, e2, h2) = bind-good (put book.first_codes (suc k) code) _ h1 in
    let (starts, e3, h3) = bind-good (put book.starts (suc k) next_symbol) _ h2 in
    let (count, e4, h4) = bind-good (item book.counts (suc k)) _ h3 in
    let (next_symbol', e5, h5) = bind-good (add_u16 next_symbol count) _ h4 in
    let before : count_at book.counts k ≡ previous =
      count_at-some book.counts k previous
        (subst (λ (j : ℕ). item book.counts j ≡ good previous) (omega arith) e1) in
    let counted = count_at-some book.counts (suc k) count e4 in
    let used_count = count_at-some counts (suc k) used s1 in
    let fits = reject-good (ltb (open_slots * 2 % 0x1_0000_0000) used) _ u2 s2 in
    let (exact, kraft') =
      kraft_step k open_slots used previous count next_code (omega arith) (omega (arith, before))
        fits (sym counted ∙ ap (λ (l : List ℕ). count_at l (suc k)) same ∙ used_count) in
    let coded' : code ≡ first_code book.counts (suc k) = exact ∙ omega (arith, before) in
    let book1 : PrefixBook = record book { first_codes = firsts; starts = starts } in
    let wide = widen-counts count (suc k) book1 in
    assign_codes_step k widths count code firsts starts book final coded' counted
      (put-good book.first_codes firsts (suc k) code e2)
      (assign_codes_lem widths (suc k) code next_symbol' total
        (open_slots * 2 % 0x1_0000_0000 - used) u2 counts (widen count (suc k) book1) final
        (wide ∙ same) (omega arith) slots2
        (coded' ∙ ap (λ (l : List ℕ). first_code l (suc k)) (sym wide))
        (omega (arith, kraft', counted, ap (λ (l : List ℕ). count_at l (suc k)) wide)) h5)

count_width-zero :
    (counts after : List ℕ) (width : ℕ)
    → (width == 0) ≡ false
    → count_width counts width ≡ good after
    → count_at after 0 ≡ count_at counts 0
unfolding count_width count_at
count_width-zero counts after width nonzero h =
    let (count, e1, h1) = bind-good (item counts width) _ h in
    let (count', e2, h2) = bind-good (add_u16 count 1) _ h1 in
    let (inside, e3) = put-good counts after width count' h2 in
    ap or_zero (
      sym (ap (λ (l : List ℕ). get_elem? l 0) e3)
      ∙ get_elem?-set_ne counts width 0 count' (λ e. absurd (ground (arith, nonzero, e))))

count_width_or_skip :
    (counts after : List ℕ) (width : ℕ)
    → (if width == 0 then good counts else count_width counts width) ≡ good after
    → count_at after 0 ≡ count_at counts 0
count_width_or_skip counts after width h = elim (Bool-cases (width == 0)) [
  | inl nothing ↦
      ap (λ (l : List ℕ). count_at l 0) (sym (good-injective counts after (rw nothing at h)))
  | inr found ↦ count_width-zero counts after width found (rw found at h)
]

-- No symbol has the width 0.
pub count_widths-zero :
    (width_limit : ℕ) (lengths counts after : List ℕ)
    → count_widths width_limit lengths counts ≡ good after
    → count_at after 0 ≡ count_at counts 0
unfolding count_widths
count_widths-zero width_limit [] counts after h =
    ap (λ (l : List ℕ). count_at l 0) (sym (good-injective counts after h))
count_widths-zero width_limit (width ∷ lengths) counts after h =
    let (u, e, h1) = bind-good (reject (ltb width_limit width) _) _ h in
    let (counts', e1, h2) =
      bind-good (if width == 0 then good counts else count_width counts width) _ h1 in
    count_widths-zero width_limit lengths counts' after h2
    ∙ count_width_or_skip counts counts' width e1

-- The codes of a book up to a width follow from its counts.
pub record IsCanonical (width_limit : ℕ) (book : PrefixBook) : Type 0 where
  pub limited : width_limit ≤ 20
  pub codes :
      (v : ℕ)
      → 0 < v
      → v ≤ width_limit
      → get_elem? book.first_codes v ≡ some (first_code book.counts v)
  pub least : (v : ℕ) → 0 < v → v ≤ width_limit → 0 < count_at book.counts v → book.min_width ≤ v
  pub most : (v : ℕ) → 0 < v → v ≤ width_limit → 0 < count_at book.counts v → v ≤ book.max_width

fill_book-IsCanonical :
    (lengths counts : List ℕ) (width_limit : ℕ) (book : PrefixBook)
    → width_limit ≤ 20
    → count_at counts 0 ≡ 0
    → fill_book lengths width_limit counts ≡ good book
    → IsCanonical width_limit book
unfolding fill_book first_code pow2 empty_book
fill_book-IsCanonical lengths counts width_limit book small unused h =
    let (u, e1, h1) = bind-good (check_slots width_limit 1 1 counts) _ h in
    let ((symbol_count, coded), e2, h2) =
      bind-good (assign_codes width_limit 1 0 0 (record empty_book { counts = counts })) _ h1 in
    let (ordered, e3, h3) =
      bind-good (place_symbols 0 lengths symbol_count coded.starts coded.ordered) _ h2 in
    let end =
      good-injective (record coded { ordered = ordered; symbol_count = symbol_count }) book h3 in
    let a =
      assign_codes_lem width_limit 0 0 0 symbol_count 1 u counts
        (record empty_book { counts = counts }) coded refl (omega arith) e1 refl
        (omega (arith, unused)) e2 in
    subst (λ (b : PrefixBook). IsCanonical width_limit b) end
      (record {
        limited = small;
        codes = λ v h1 h2.
            a.codes v h1 (omega arith)
            ∙ ap (λ (l : List ℕ). some (first_code l v)) (sym a.same_counts);
        least = λ v h1 h2 h3.
            a.least (omega arith) v h1 (omega arith)
              (omega (arith, ap (λ (l : List ℕ). count_at l v) a.same_counts));
        most = λ v h1 h2 h3.
            a.most (omega arith) v h1 (omega arith)
              (omega (arith, ap (λ (l : List ℕ). count_at l v) a.same_counts));
      })

pub build-IsCanonical :
    (lengths : List ℕ) (width_limit : ℕ) (book : PrefixBook)
    → build lengths width_limit ≡ good book
    → IsCanonical width_limit book
unfolding build empty_book count_at
build-IsCanonical lengths width_limit book h =
    let wrong : Bool =
      ltb byte_symbols (length lengths) || (width_limit == 0 || ltb max_code_width width_limit) in
    let (u, e1, h1) = bind-good (reject wrong _) _ h in
    let (counts, e2, h2) = bind-good (count_widths width_limit lengths (empty_book.counts)) _ h1 in
    let fits = reject-good wrong _ u e1 in
    fill_book-IsCanonical lengths counts width_limit book (ground (arith, fits))
      (count_widths-zero width_limit lengths (empty_book.counts) counts e2) h2
