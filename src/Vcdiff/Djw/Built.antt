-- ===== src/Vcdiff/Djw/Built.antt =====
-- How `build` makes a `PrefixBook`, and what its arrays hold.
use rust_crates.Prelude.{
  ℕ, zero, suc, ◌-◌, ◌≤◌, ◌<◌, ◌≡◌, refl, sym, ap, ◌∙◌, subst, Bool, some, List, arith, inl, inr,
  replicate,
}
use rust_crates.Prelude.{ltb, ◌==◌, ◌||◌, length, get_elem?, Bool-cases}
use rust_crates.Vcdiff.Djw.Fault.{good, good-injective, bind-good, reject, reject-good}
use rust_crates.Vcdiff.Djw.Book.{
  PrefixBook, byte_symbols, max_code_width, empty_book, check_slots, count_widths, assign_codes,
  place_symbols, fill_book, build,
}
use rust_crates.Vcdiff.Djw.Canonical.{or_zero, count_at, first_code}
use rust_crates.Vcdiff.Djw.Assigning.{count_widths-zero}
use rust_crates.Vcdiff.Djw.Starts.{place_start, Started, starts_lem, place_start-le}
use rust_crates.Vcdiff.Djw.Spec.{occurrences, codes_of, code_start}
use rust_crates.Vcdiff.Djw.Ordered.{IsFree, IsDisjoint}
use rust_crates.Vcdiff.Djw.Counting.{count_widths_lem, count_widths-limit, occurrences-take}

pub zero_counts : (n w : ℕ) → count_at (replicate n 0) w ≡ 0
unfolding count_at or_zero
zero_counts zero w = refl
zero_counts (suc n) zero = refl
zero_counts (suc n) (suc w) = zero_counts n w

-- How `build` makes a book.
pub record Built (lengths : List ℕ) (width_limit : ℕ) (book : PrefixBook) : Type 0 where
  pub start_counts : List ℕ
  pub coded : PrefixBook
  pub limited : width_limit ≤ 20
  pub counted : count_widths width_limit lengths (empty_book.counts) ≡ good start_counts
  pub slots : check_slots width_limit 1 1 start_counts ≡ good tt
  pub assigned :
      assign_codes width_limit 1 0 0 (record empty_book { counts = start_counts })
      ≡ good (book.symbol_count, coded)
  pub placed :
      place_symbols 0 lengths book.symbol_count coded.starts coded.ordered ≡ good book.ordered
  pub same_counts : book.counts ≡ coded.counts
  pub same_starts : book.starts ≡ coded.starts

pub build-Built :
    (lengths : List ℕ) (width_limit : ℕ) (book : PrefixBook)
    → build lengths width_limit ≡ good book
    → Built lengths width_limit book
unfolding build fill_book
build-Built lengths width_limit book h =
    let wrong : Bool =
      ltb byte_symbols (length lengths) || (width_limit == 0 || ltb max_code_width width_limit) in
    let (u, e1, h1) = bind-good (reject wrong _) _ h in
    let (counts, e2, h2) = bind-good (count_widths width_limit lengths (empty_book.counts)) _ h1 in
    let (u2, e3, h3) = bind-good (check_slots width_limit 1 1 counts) _ h2 in
    let ((symbol_count, coded), e4, h4) =
      bind-good (assign_codes width_limit 1 0 0 (record empty_book { counts = counts })) _ h3 in
    let (ordered, e5, h5) =
      bind-good (place_symbols 0 lengths symbol_count coded.starts coded.ordered) _ h4 in
    let end =
      good-injective (record coded { ordered = ordered; symbol_count = symbol_count }) book h5 in
    let fits = reject-good wrong _ u e1 in
    subst (λ (b : PrefixBook). Built lengths width_limit b) end
      (record {
        start_counts = counts;
        coded = coded;
        limited = ground (arith, fits);
        counted = e2;
        slots = e3;
        assigned = e4;
        placed = e5;
        same_counts = refl;
        same_starts = refl;
      })

module _ (lengths : List ℕ) (width_limit : ℕ) (book : PrefixBook)
    (b : Built lengths width_limit book) where
  pub start_counts-zero : count_at b.start_counts 0 ≡ 0
  unfolding empty_book
  start_counts-zero =
      count_widths-zero width_limit lengths (empty_book.counts) b.start_counts b.counted
      ∙ zero_counts 21 0

  pub started :
      Started 0 width_limit book.symbol_count
        (record empty_book { counts = b.start_counts })
        b.coded
  unfolding place_start
  started =
      starts_lem width_limit 0 0 0 book.symbol_count (record empty_book { counts = b.start_counts })
        b.coded (omega (arith, start_counts-zero)) b.assigned

  pub counts_same : book.counts ≡ b.start_counts
  counts_same = b.same_counts ∙ started.same_counts

  pub count_at-codes_of : (w : ℕ) → count_at book.counts w ≡ codes_of w lengths
  unfolding codes_of empty_book
  count_at-codes_of zero = ap (λ (l : List ℕ). count_at l 0) counts_same ∙ start_counts-zero
  count_at-codes_of (suc w) =
      ap (λ (l : List ℕ). count_at l (suc w)) counts_same
      ∙ count_widths_lem width_limit (suc w) lengths (empty_book.counts) b.start_counts
          (omega arith) b.counted
      ∙ omega (arith, zero_counts 21 (suc w))

  pub first_code-code_start : (w : ℕ) → first_code book.counts w ≡ code_start lengths w
  unfolding first_code code_start
  first_code-code_start zero = refl
  first_code-code_start (suc w) = omega (arith, first_code-code_start w, count_at-codes_of w)

  pub starts_same :
      (v : ℕ) → 0 < v → v ≤ width_limit → get_elem? book.starts v ≡ some (place_start book.counts v)
  starts_same v h1 h2 =
      ap (λ (l : List ℕ). get_elem? l v) b.same_starts
      ∙ started.starts v h1 (omega arith)
      ∙ ap (λ (l : List ℕ). some (place_start l v)) (sym counts_same)

  pub start-place_start :
      (v : ℕ) → 0 < v → v ≤ width_limit → count_at b.coded.starts v ≡ place_start book.counts v
  unfolding count_at
  start-place_start v h1 h2 =
      ap (λ (l : List ℕ). or_zero (get_elem? l v)) (sym b.same_starts)
      ∙ ap or_zero (starts_same v h1 h2)

  pub occurrences-count_at : (v : ℕ) → 0 < v → count_at book.counts v ≡ occurrences v lengths
  unfolding codes_of
  occurrences-count_at zero h = absurd (omega arith)
  occurrences-count_at (suc v) h = count_at-codes_of (suc v)

  -- A place that is free at first lies among those of its width, which is within the limit.
  IsFree-place_start :
      (v at : ℕ)
      → IsFree b.coded.starts lengths v at
      → (v ≤ width_limit)
        × (place_start book.counts v ≤ at)
        × (at < place_start book.counts (suc v))
  unfolding place_start
  IsFree-place_start v at f = elim (Bool-cases (ltb width_limit v)) [
    | inl over ↦
        let none_left =
          count_widths-limit width_limit v lengths (empty_book.counts) b.start_counts
            (ground (arith, over)) b.counted in
        let from = f.from in let below = f.below in absurd (omega (arith, none_left, from, below))
    | inr within ↦
        let fits : v ≤ width_limit = ground (arith, within) in
        let start = start-place_start v f.positive fits in
        let counted = occurrences-count_at v f.positive in
        (fits, omega (arith, start, f.from), omega (arith, start, counted, f.below))
  ]

  pub starts-IsDisjoint : IsDisjoint b.coded.starts lengths
  unfolding IsDisjoint
  starts-IsDisjoint v w at f g =
      let (h1, h2, h3) = IsFree-place_start v at f in
      let (k1, k2, k3) = IsFree-place_start w at g in
      elim (Bool-cases (ltb v w)) [
        | inl narrower ↦
            let less : v < w = ground (arith, narrower) in
            absurd (omega (arith, place_start-le (w - suc v) (suc v) w book.counts (omega arith)))
        | inr other ↦ elim (Bool-cases (ltb w v)) [
          | inl wider ↦
              let less : w < v = ground (arith, wider) in
              absurd (omega (arith, place_start-le (v - suc w) (suc w) v book.counts (omega arith)))
          | inr same ↦ ground (arith, other, same)
        ]
      ]

  pub width-limit : (symbol width : ℕ) → get_elem? lengths symbol ≡ some width → width ≤ width_limit
  width-limit symbol width h = elim (Bool-cases (ltb width_limit width)) [
    | inl over ↦ absurd (
        omega (
          arith,
          occurrences-take lengths symbol width h,
          count_widths-limit width_limit width lengths (empty_book.counts) b.start_counts
              (ground (arith, over)) b.counted,
        ))
    | inr within ↦ ground (arith, within)
  ]
