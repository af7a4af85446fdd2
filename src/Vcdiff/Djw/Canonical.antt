-- ===== src/Vcdiff/Djw/Canonical.antt =====
-- The codes of a `PrefixBook` in closed form: the first code of each width follows from the counts of
-- the widths below it.
use rust_crates.Prelude.{
  ℕ, zero, suc, ◌+◌, ◌*◌, ◌≤◌, ◌<◌, ◌≡◌, refl, sym, ap, ◌∙◌, subst, Option, none, some, List, arith,
  ◌⊎◌, inl, inr,
}
use rust_crates.Prelude.{
  ◌==◌, length, get_elem?, set, get_elem?-set_self, get_elem?-set_ne, Bool-cases,
}
use rust_crates.Vcdiff.Djw.Fault.{good, item, item-good, put}
use rust_crates.Vcdiff.Djw.Book.{PrefixBook, widen}

unfoldable pub or_zero : Option ℕ → ℕ
or_zero none = 0
or_zero (some n) = n

unfoldable pub count_at : List ℕ → ℕ → ℕ
unfolding or_zero
count_at counts width = or_zero (get_elem? counts width)

-- A code one bit longer than the last code of the width before, and one further.
unfoldable pub first_code : List ℕ → ℕ → ℕ
first_code counts zero = 0
first_code counts (suc width) = (first_code counts width + count_at counts width) * 2

-- What the third loop of `build` does from the width `suc k` on, with as many widths left.
pub record Assigned (k widths : ℕ) (book final : PrefixBook) : Type 0 where
  pub same_counts : final.counts ≡ book.counts
  pub kept : (v : ℕ) → v ≤ k → get_elem? final.first_codes v ≡ get_elem? book.first_codes v
  pub codes :
      (v : ℕ)
      → k < v
      → v ≤ k + widths
      → get_elem? final.first_codes v ≡ some (first_code book.counts v)
  pub kept_min : 0 < book.min_width → final.min_width ≡ book.min_width
  pub least :
      book.min_width ≤ k
      → (v : ℕ) → k < v
      → v ≤ k + widths
      → 0 < count_at book.counts v
      → final.min_width ≤ v
  pub kept_max : book.max_width ≤ k → book.max_width ≤ final.max_width
  pub most :
      book.max_width ≤ k
      → (v : ℕ) → k < v
      → v ≤ k + widths
      → 0 < count_at book.counts v
      → v ≤ final.max_width

unfoldable pub pow2 : ℕ → ℕ
pow2 zero = 1
pow2 (suc k) = 2 * pow2 k

pub pow2-small : (n k : ℕ) → k + n ≡ 20 → pow2 k ≤ 0x10_0000
unfolding pow2
pow2-small zero k h =
    let e : k ≡ 20 = omega arith in subst (λ (j : ℕ). pow2 j ≤ 0x10_0000) (sym e) (omega arith)
pow2-small (suc n) k h = omega (arith, pow2-small n (suc k) (omega arith))

record Widened (count k : ℕ) (book wider : PrefixBook) : Type 0 where
  pub same_counts : wider.counts ≡ book.counts
  pub same_codes : wider.first_codes ≡ book.first_codes
  pub kept_min : 0 < book.min_width → wider.min_width ≡ book.min_width
  pub min_low : book.min_width ≤ k → wider.min_width ≤ suc k
  pub min_found : 0 < count → 0 < wider.min_width
  pub max_low : book.max_width ≤ k → wider.max_width ≤ suc k
  pub max_grows : book.max_width ≤ k → book.max_width ≤ wider.max_width
  pub max_found : 0 < count → wider.max_width ≡ suc k

widen-Widened : (count k : ℕ) (book : PrefixBook) → Widened count k book (widen count (suc k) book)
unfolding widen
widen-Widened zero k book = record {
  same_counts = refl;
  same_codes = refl;
  kept_min = λ h. refl;
  min_low = λ h. omega arith;
  min_found = λ h. absurd (omega arith);
  max_low = λ h. omega arith;
  max_grows = λ h. omega arith;
  max_found = λ h. absurd (omega arith);
}
widen-Widened (suc count) k book = record {
  same_counts = refl;
  same_codes = refl;
  kept_min = λ h. ground arith;
  min_low = λ h. ground arith;
  min_found = λ h. ground arith;
  max_low = λ h. omega arith;
  max_grows = λ h. omega arith;
  max_found = λ h. refl;
}

pub count_at-some :
    (counts : List ℕ) (width count : ℕ)
    → item counts width ≡ good count
    → count_at counts width ≡ count
unfolding count_at
count_at-some counts width count h = ap or_zero (item-good counts width count h)

pub widen-counts :
    (count width : ℕ) (book : PrefixBook) → (widen count width book).counts ≡ book.counts
unfolding widen
widen-counts zero width book = refl
widen-counts (suc count) width book = refl

pub at_or_after : (k v : ℕ) → k < v → (v ≡ suc k) ⊎ (suc k < v)
at_or_after k v h = elim (Bool-cases (v == suc k)) [
  | inl here ↦ inl (ground (arith, here))
  | inr later ↦ inr (ground (arith, later))
]

module _ (k widths count code : ℕ) (book book1 wider final : PrefixBook)
    (same : book1.counts ≡ book.counts)
    (put : set book.first_codes (suc k) code ≡ book1.first_codes) (w : Widened count k book1 wider)
    (a : Assigned (suc k) widths wider final) where
  kept_step :
      (v : ℕ)
      → v ≤ suc k
      → get_elem? final.first_codes v ≡ get_elem? (set book.first_codes (suc k) code) v
  kept_step v h = a.kept v h ∙ ap (λ (l : List ℕ). get_elem? l v) (w.same_codes ∙ sym put)

  codes_step :
      code ≡ first_code book.counts (suc k)
      → suc k < length book.first_codes
      → (v : ℕ) → k < v
      → v ≤ k + suc widths
      → get_elem? final.first_codes v ≡ some (first_code book.counts v)
  codes_step coded room v h1 h2 = elim (at_or_after k v h1) [
    | inl here ↦
        subst (λ (j : ℕ). get_elem? final.first_codes j ≡ some (first_code book.counts j))
          (sym here)
          (kept_step (suc k) (omega arith)
            ∙ get_elem?-set_self book.first_codes (suc k) code room
            ∙ ap (λ (c : ℕ). some c) coded)
    | inr later ↦
        a.codes v later (omega arith)
        ∙ ap (λ (l : List ℕ). some (first_code l v)) (w.same_counts ∙ same)
  ]

  least_step :
      count_at book.counts (suc k) ≡ count
      → book1.min_width ≤ k
      → (v : ℕ) → k < v
      → v ≤ k + suc widths
      → 0 < count_at book.counts v
      → final.min_width ≤ v
  least_step counted h v h1 h2 h3 = elim (at_or_after k v h1) [
    | inl here ↦
        let found : 0 < count = omega (arith, counted, ap (count_at book.counts) here) in
        omega (arith, a.kept_min (w.min_found found), w.min_low h)
    | inr later ↦
        a.least (w.min_low h) v later (omega arith)
          (omega (arith, ap (λ (l : List ℕ). count_at l v) (w.same_counts ∙ same)))
  ]

  most_step :
      count_at book.counts (suc k) ≡ count
      → book1.max_width ≤ k
      → (v : ℕ) → k < v
      → v ≤ k + suc widths
      → 0 < count_at book.counts v
      → v ≤ final.max_width
  most_step counted h v h1 h2 h3 = elim (at_or_after k v h1) [
    | inl here ↦
        let found : 0 < count = omega (arith, counted, ap (count_at book.counts) here) in
        omega (arith, a.kept_max (w.max_low h), w.max_found found)
    | inr later ↦
        a.most (w.max_low h) v later (omega arith)
          (omega (arith, ap (λ (l : List ℕ). count_at l v) (w.same_counts ∙ same)))
  ]

pub assign_codes_step :
    (k widths count code : ℕ) (firsts starts : List ℕ) (book final : PrefixBook)
    → code ≡ first_code book.counts (suc k)
    → count_at book.counts (suc k) ≡ count
    → (suc k < length book.first_codes) × (set book.first_codes (suc k) code ≡ firsts)
    → Assigned
        (suc k)
        widths
        (widen count (suc k) (record book { first_codes = firsts; starts = starts }))
        final
    → Assigned k (suc widths) book final
assign_codes_step k widths count code firsts starts book final coded counted (room, put) a =
    let book1 : PrefixBook = record book { first_codes = firsts; starts = starts } in
    let wider : PrefixBook = widen count (suc k) book1 in
    let w = widen-Widened count k book1 in
    record {
      same_counts = a.same_counts ∙ w.same_counts;
      kept = λ v h.
          kept_step k widths count code book book1 wider final refl put w a v (omega arith)
          ∙ get_elem?-set_ne book.first_codes (suc k) v code (λ e. absurd (omega arith));
      codes = codes_step k widths count code book book1 wider final refl put w a coded room;
      kept_min = λ h. a.kept_min (omega (arith, w.kept_min h)) ∙ w.kept_min h;
      least = least_step k widths count code book book1 wider final refl put w a counted;
      kept_max = λ h. omega (arith, w.max_grows h, a.kept_max (w.max_low h));
      most = most_step k widths count code book book1 wider final refl put w a counted;
    }
