-- ===== src/Vcdiff/Djw/Kraft.antt =====
-- The codes of a `PrefixBook` fit into their widths.
use rust_crates.Prelude.{
  ℕ, zero, suc, ◌+◌, ◌-◌, ◌*◌, ◌%◌, ◌^◌, ◌≤◌, ◌<◌, ◌≡◌, refl, sym, ap, subst, some, List, arith,
  inl, inr,
}
use rust_crates.Prelude.{ltb, get_elem?}
use native.Mathlib.Numerals.{unary_clauses}
use rust_crates.Vcdiff.Djw.Fault.{good, bind-good, reject, reject-good, item}
use rust_crates.Vcdiff.Djw.Book.{PrefixBook, check_slots, build}
use rust_crates.Vcdiff.Djw.Canonical.{
  count_at, first_code, pow2, pow2-small, count_at-some, at_or_after,
}
use rust_crates.Vcdiff.Djw.Spec.{canonical_code}
use rust_crates.Vcdiff.Djw.Counting.{occurrences-take}
use rust_crates.Vcdiff.Djw.Built.{
  build-Built, counts_same, start_counts-zero, first_code-code_start, occurrences-count_at,
  width-limit,
}

pub pow2_pow : (k : ℕ) → pow2 k ≡ 2 ^ k
unfolding pow2
pow2_pow zero = refl
pow2_pow (suc k) = simp unary_clauses (omega (arith, pow2_pow k))

-- Where the second loop of `build` succeeds, the codes of each width lie below its power of two.
check_slots-fits :
    (widths k open_slots v : ℕ) (u : Unit {0}) (counts : List ℕ)
    → k + widths ≤ 20
    → check_slots widths (suc k) open_slots counts ≡ good u
    → first_code counts k + count_at counts k + open_slots ≡ pow2 k
    → k < v
    → v ≤ k + widths
    → first_code counts v + count_at counts v ≤ pow2 v
unfolding check_slots first_code pow2
check_slots-fits zero k open_slots v u counts small h kraft h1 h2 = absurd (omega arith)
check_slots-fits (suc widths) k open_slots v u counts small h kraft h1 h2 =
    let (used, e1, g1) = bind-good (item counts (suc k)) _ h in
    let (u2, e2, g2) = bind-good (reject (ltb (open_slots * 2 % 0x1_0000_0000) used) _) _ g1 in
    let counted = count_at-some counts (suc k) used e1 in
    let fits = reject-good (ltb (open_slots * 2 % 0x1_0000_0000) used) _ u2 e2 in
    let bound = pow2-small (20 - k) k (omega arith) in
    let enough : used ≤ open_slots * 2 % 0x1_0000_0000 = ground (arith, fits) in
    let kraft' : first_code counts (suc k)
          + count_at counts (suc k)
          + (open_slots * 2 % 0x1_0000_0000 - used)
        ≡ pow2 (suc k) =
      omega (arith, counted) in
    elim (at_or_after k v h1) [
      | inl here ↦
          subst (λ (j : ℕ). first_code counts j + count_at counts j ≤ pow2 j) (sym here)
            (omega (arith, kraft'))
      | inr later ↦
          check_slots-fits widths (suc k) (open_slots * 2 % 0x1_0000_0000 - used) v u2 counts
            (omega arith) g2 kraft' later (omega arith)
    ]

-- The code of a symbol in a book that `build` makes is a number of as many bits as its width.
pub canonical_code-lt :
    (lengths : List ℕ) (width_limit symbol width : ℕ) (book : PrefixBook)
    → build lengths width_limit ≡ good book
    → get_elem? lengths symbol ≡ some width
    → 0 < width
    → canonical_code lengths symbol width < 2 ^ width
unfolding canonical_code first_code pow2
canonical_code-lt lengths width_limit symbol width book built at positive =
    let b = build-Built lengths width_limit book built in
    let start = first_code-code_start lengths width_limit book b width in
    let counted = occurrences-count_at lengths width_limit book b width positive in
    let fits =
      check_slots-fits width_limit 0 1 width tt b.start_counts (omega (arith, b.limited)) b.slots
        (omega (arith, start_counts-zero lengths width_limit book b)) positive
        (omega (arith, width-limit lengths width_limit book b symbol width at)) in
    let same = counts_same lengths width_limit book b in
    omega (
      arith,
      fits,
      start,
      counted,
      occurrences-take lengths symbol width at,
      pow2_pow width,
      ap (λ (l : List ℕ). first_code l width) same,
      ap (λ (l : List ℕ). count_at l width) same,
    )
