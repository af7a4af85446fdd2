-- ===== src/Vcdiff/Djw/Counting.antt =====
-- `PrefixBook::build` counts the symbols of each width.
use rust_crates.Prelude.{
  ℕ, zero, suc, ◌+◌, ◌<◌, ◌≡◌, refl, sym, ap, ◌∙◌, true, false, some, List, [], ◌∷◌, arith, inl,
  inr,
}
use rust_crates.Prelude.{
  ltb, ◌==◌, if◌then◌else◌, take, get_elem?, set, get_elem?-set_self, get_elem?-set_ne, Bool-cases,
}
use mathlib.Core.Option.{some-injective}
use rust_crates.Vcdiff.Djw.Fault.{
  good, good-injective, bind-good, reject, reject-good, item, put-good, add_u16, add_u16-good,
}
use rust_crates.Vcdiff.Djw.Book.{count_width, count_widths}
use rust_crates.Vcdiff.Djw.Canonical.{or_zero, count_at, count_at-some}
use rust_crates.Vcdiff.Djw.Spec.{occurrences}

count_width_lem :
    (counts after : List ℕ) (width w : ℕ)
    → count_width counts width ≡ good after
    → count_at after w ≡ count_at counts w + (if width == w then 1 else 0)
unfolding count_width count_at
count_width_lem counts after width w h =
    let (count, e1, h1) = bind-good (item counts width) _ h in
    let (count', e2, h2) = bind-good (add_u16 count 1) _ h1 in
    let (inside, e3) = put-good counts after width count' h2 in
    let same : get_elem? (set counts width count') w ≡ get_elem? after w =
      ap (λ (l : List ℕ). get_elem? l w) e3 in
    elim (Bool-cases (width == w)) [
      | inl here ↦
          let e : width ≡ w = ground (arith, here) in
          let new : get_elem? after w ≡ some count' =
            sym same
            ∙ ap (get_elem? (set counts width count')) (sym e)
            ∙ get_elem?-set_self counts width count' inside in
          let old : or_zero (get_elem? counts w) ≡ count =
            ap (λ (j : ℕ). or_zero (get_elem? counts j)) (sym e)
            ∙ count_at-some counts width count e1 in
          rw here (omega (arith, ap or_zero new, old, add_u16-good count 1 count' e2))
      | inr other ↦
          let kept =
            get_elem?-set_ne counts width w count' (λ e. absurd (ground (arith, other, e))) in
          rw other (omega (arith, ap or_zero (sym same ∙ kept)))
    ]

count_or_skip :
    (counts after : List ℕ) (width w : ℕ)
    → 0 < w
    → (if width == 0 then good counts else count_width counts width) ≡ good after
    → count_at after w ≡ count_at counts w + (if width == w then 1 else 0)
count_or_skip counts after width w positive h = elim (Bool-cases (width == 0)) [
  | inl skipped ↦
      let off : (width == w) ≡ false = ground (arith, skipped, positive) in
      rw off (
        omega (
          arith,
          ap (λ (l : List ℕ). count_at l w) (good-injective counts after (rw skipped at h)),
        ))
  | inr found ↦ count_width_lem counts after width w (rw found at h)
]

pub count_widths_lem :
    (width_limit w : ℕ) (lengths counts after : List ℕ)
    → 0 < w
    → count_widths width_limit lengths counts ≡ good after
    → count_at after w ≡ count_at counts w + occurrences w lengths
unfolding count_widths occurrences
count_widths_lem width_limit w [] counts after positive h =
    omega (arith, ap (λ (l : List ℕ). count_at l w) (good-injective counts after h))
count_widths_lem width_limit w (width ∷ lengths) counts after positive h =
    let (u, e, h1) = bind-good (reject (ltb width_limit width) _) _ h in
    let (counts', e1, h2) =
      bind-good (if width == 0 then good counts else count_width counts width) _ h1 in
    omega (
      arith,
      count_widths_lem width_limit w lengths counts' after positive h2,
      count_or_skip counts counts' width w positive e1,
    )

-- No symbol has a width over the limit.
pub count_widths-limit :
    (width_limit w : ℕ) (lengths counts after : List ℕ)
    → width_limit < w
    → count_widths width_limit lengths counts ≡ good after
    → occurrences w lengths ≡ 0
unfolding count_widths occurrences
count_widths-limit width_limit w [] counts after over h = refl
count_widths-limit width_limit w (width ∷ lengths) counts after over h =
    let (u, e, h1) = bind-good (reject (ltb width_limit width) _) _ h in
    let (counts', e1, h2) =
      bind-good (if width == 0 then good counts else count_width counts width) _ h1 in
    let fits = reject-good (ltb width_limit width) _ u e in
    let off : (width == w) ≡ false = ground (arith, fits, over) in
    rw off (omega (arith, count_widths-limit width_limit w lengths counts' after over h2))

pub occurrences-take :
    (lengths : List ℕ) (i width : ℕ)
    → get_elem? lengths i ≡ some width
    → occurrences width (take i lengths) < occurrences width lengths
unfolding occurrences
occurrences-take [] i width h = cc
occurrences-take (v ∷ lengths) zero width h =
    let self : (v == width) ≡ true = ground (arith, some-injective v width h) in
    rw self (omega arith)
occurrences-take (v ∷ lengths) (suc i) width h = omega (arith, occurrences-take lengths i width h)
