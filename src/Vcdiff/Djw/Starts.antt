-- ===== src/Vcdiff/Djw/Starts.antt =====
-- `PrefixBook::build` gives each width its places among the ordered symbols.
use rust_crates.Prelude.{
  ℕ, zero, suc, ◌+◌, ◌-◌, ◌*◌, ◌%◌, ◌≤◌, ◌<◌, ◌≡◌, refl, sym, ap, ◌∙◌, subst, some, List, arith,
  inl, inr,
}
use rust_crates.Prelude.{length, get_elem?, set, get_elem?-set_self, get_elem?-set_ne}
use rust_crates.Vcdiff.Djw.Fault.{
  good, good-injective, bind-good, item, put, put-good, add_u16, add_u16-good,
}
use rust_crates.Vcdiff.Djw.Book.{PrefixBook, widen, assign_codes}
use rust_crates.Vcdiff.Djw.Canonical.{count_at, count_at-some, widen-counts, at_or_after}

-- How many symbols have narrower codes.
unfoldable pub place_start : List ℕ → ℕ → ℕ
place_start counts zero = 0
place_start counts (suc width) = place_start counts width + count_at counts width

widen-starts : (count width : ℕ) (book : PrefixBook) → (widen count width book).starts ≡ book.starts
unfolding widen
widen-starts zero width book = refl
widen-starts (suc count) width book = refl

-- What the third loop of `build` does to the starts, from the width `suc k` on.
pub record Started (k widths total : ℕ) (book final : PrefixBook) : Type 0 where
  pub same_counts : final.counts ≡ book.counts
  pub kept : (v : ℕ) → v ≤ k → get_elem? final.starts v ≡ get_elem? book.starts v
  pub starts :
      (v : ℕ) → k < v → v ≤ k + widths → get_elem? final.starts v ≡ some (place_start book.counts v)
  pub whole : total ≡ place_start book.counts (suc (k + widths))

Started-step :
    (k widths count total next_symbol : ℕ) (firsts starts : List ℕ) (book final : PrefixBook)
    → next_symbol ≡ place_start book.counts (suc k)
    → (suc k < length book.starts) × (set book.starts (suc k) next_symbol ≡ starts)
    → Started
        (suc k)
        widths
        total
        (widen count (suc k) (record book { first_codes = firsts; starts = starts }))
        final
    → Started k (suc widths) total book final
Started-step k widths count total next_symbol firsts starts book final e (room, put) a =
    let book1 : PrefixBook = record book { first_codes = firsts; starts = starts } in
    let same = widen-counts count (suc k) book1 in
    let before : (v : ℕ)
        → v ≤ suc k
        → get_elem? final.starts v ≡ get_elem? (set book.starts (suc k) next_symbol) v =
      λ v h.
        a.kept v h
        ∙ ap (λ (l : List ℕ). get_elem? l v) (widen-starts count (suc k) book1 ∙ sym put) in
    record {
      same_counts = a.same_counts ∙ same;
      kept = λ v h.
          before v (omega arith)
          ∙ get_elem?-set_ne book.starts (suc k) v next_symbol (λ e. absurd (omega arith));
      starts = λ v h1 h2. elim (at_or_after k v h1) [
        | inl here ↦
            subst (λ (j : ℕ). get_elem? final.starts j ≡ some (place_start book.counts j))
              (sym here)
              (before (suc k) (omega arith)
                ∙ get_elem?-set_self book.starts (suc k) next_symbol room
                ∙ ap (λ (c : ℕ). some c) e)
        | inr later ↦
            a.starts v later (omega arith) ∙ ap (λ (l : List ℕ). some (place_start l v)) same
      ];
      whole =
          let reach : suc (suc k + widths) ≡ suc (k + suc widths) = omega arith in
          a.whole
          ∙ ap (λ (l : List ℕ). place_start l (suc (suc k + widths))) same
          ∙ ap (place_start book.counts) reach;
    }

pub starts_lem :
    (widths k code next_symbol total : ℕ) (book final : PrefixBook)
    → next_symbol ≡ place_start book.counts (suc k)
    → assign_codes widths (suc k) code next_symbol book ≡ good (total, final)
    → Started k widths total book final
unfolding assign_codes place_start
starts_lem zero k code next_symbol total book final e h =
    let end = good-injective (next_symbol, book) (total, final) h in
    subst (λ (p : ℕ × PrefixBook). Started k 0 (p.0) book (p.1)) end
      (record {
        same_counts = refl;
        kept = λ v h. refl;
        starts = λ v h1 h2. absurd (omega arith);
        whole =
            let same : suc k ≡ suc (k + 0) = omega arith in e ∙ ap (place_start book.counts) same;
      })
starts_lem (suc widths) k next_code next_symbol total book final e h =
    let (previous, e1, h1) = bind-good (item book.counts (suc k - 1)) _ h in
    let code : ℕ = (next_code + previous) * 2 % 0x1_0000_0000 in
    let (firsts, e2, h2) = bind-good (put book.first_codes (suc k) code) _ h1 in
    let (starts, e3, h3) = bind-good (put book.starts (suc k) next_symbol) _ h2 in
    let (count, e4, h4) = bind-good (item book.counts (suc k)) _ h3 in
    let (next_symbol', e5, h5) = bind-good (add_u16 next_symbol count) _ h4 in
    let counted = count_at-some book.counts (suc k) count e4 in
    let book1 : PrefixBook = record book { first_codes = firsts; starts = starts } in
    let same = widen-counts count (suc k) book1 in
    let next : next_symbol' ≡ place_start book.counts (suc (suc k)) =
      omega (arith, e, counted, add_u16-good next_symbol count next_symbol' e5) in
    Started-step k widths count total next_symbol firsts starts book final e
      (put-good book.starts starts (suc k) next_symbol e3)
      (starts_lem widths (suc k) code next_symbol' total (widen count (suc k) book1) final
        (next ∙ ap (λ (l : List ℕ). place_start l (suc (suc k))) (sym same)) h5)

-- The places of a width lie before those of wider ones.
pub place_start-le :
    (n v w : ℕ) (counts : List ℕ) → v + n ≡ w → place_start counts v ≤ place_start counts w
unfolding place_start
place_start-le zero v w counts h =
    let same : v ≡ w = omega (arith, h) in omega (arith, ap (place_start counts) same)
place_start-le (suc n) v w counts h =
    omega (arith, place_start-le n (suc v) w counts (omega (arith, h)))
