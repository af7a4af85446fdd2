-- ===== src/Vcdiff/Djw/Ordered.antt =====
-- The last loop of `PrefixBook::build` puts each symbol at its place among the symbols of its width.
use rust_crates.Prelude.{
  ℕ, zero, suc, ◌+◌, ◌≤◌, ◌<◌, ◌≡◌, ◌≢◌, sym, ap, ◌∙◌, subst, true, false, some, List, [], ◌∷◌,
  arith, inl, inr,
}
use rust_crates.Prelude.{
  ltb, leb, ◌==◌, if◌then◌else◌, take, get_elem?, set, get_elem?-set_self, get_elem?-set_ne,
  Bool-cases,
}
use rust_crates.Vcdiff.Djw.Fault.{
  good, good-injective, bind-good, reject, item, item-good, put, put-good, add_u16, add_u16-good,
}
use mathlib.Core.Option.{some-injective}
use rust_crates.Vcdiff.Djw.Book.{place_symbol, place_symbols}
use rust_crates.Vcdiff.Djw.Canonical.{or_zero, count_at}
use rust_crates.Vcdiff.Djw.Spec.{occurrences}

-- The place is one of those that are left for the symbols of the width.
pub record IsFree (slots lengths : List ℕ) (width at : ℕ) : Type 0 where
  pub positive : 0 < width
  pub from : count_at slots width ≤ at
  pub below : at < count_at slots width + occurrences width lengths

-- No place is left for two widths.
unfoldable pub IsDisjoint : List ℕ → List ℕ → Type 0
IsDisjoint slots lengths =
    (v w at : ℕ) → IsFree slots lengths v at → IsFree slots lengths w at → v ≡ w

-- One symbol takes the first free place of its width.
record Placed (symbol width : ℕ) (slots ordered slots' ordered' : List ℕ) : Type 0 where
  pub here : get_elem? ordered' (count_at slots width) ≡ some symbol
  pub others : (at : ℕ) → at ≢ count_at slots width → get_elem? ordered' at ≡ get_elem? ordered at
  pub taken : count_at slots' width ≡ count_at slots width + 1
  pub rest : (w : ℕ) → w ≢ width → count_at slots' w ≡ count_at slots w

place_symbol-Placed :
    (symbol width symbol_count : ℕ) (slots ordered slots' ordered' : List ℕ)
    → place_symbol symbol width symbol_count slots ordered ≡ good (slots', ordered')
    → Placed symbol width slots ordered slots' ordered'
unfolding place_symbol count_at
place_symbol-Placed symbol width symbol_count slots ordered slots' ordered' h =
    let (slot, e1, h1) = bind-good (item slots width) _ h in
    let (u1, e2, h2) = bind-good (reject (leb symbol_count slot) _) _ h1 in
    let (u2, e3, h3) = bind-good (reject (ltb 0xff symbol) _) _ h2 in
    let (ordered1, e4, h4) = bind-good (put ordered slot symbol) _ h3 in
    let (next, e5, h5) = bind-good (add_u16 slot 1) _ h4 in
    let (slots1, e6, h6) = bind-good (put slots width next) _ h5 in
    let end = good-injective (slots1, ordered1) (slots', ordered') h6 in
    let at : or_zero (get_elem? slots width) ≡ slot = ap or_zero (item-good slots width slot e1) in
    let (inside, p4) = put-good ordered ordered1 slot symbol e4 in
    let (wide, p6) = put-good slots slots1 width next e6 in
    let made : set ordered slot symbol ≡ ordered' = p4 ∙ ap (λ (p : List ℕ × List ℕ). p.1) end in
    let moved : set slots width next ≡ slots' = p6 ∙ ap (λ (p : List ℕ × List ℕ). p.0) end in
    record {
      here =
          subst (λ (j : ℕ). get_elem? ordered' j ≡ some symbol) (sym at)
            (ap (λ (l : List ℕ). get_elem? l slot) (sym made)
              ∙ get_elem?-set_self ordered slot symbol inside);
      others = λ j ne.
          ap (λ (l : List ℕ). get_elem? l j) (sym made)
          ∙ get_elem?-set_ne ordered slot j symbol (λ e. ne (sym e ∙ sym at));
      taken = omega (
        arith,
        at,
        add_u16-good slot 1 next e5,
        ap or_zero (
            ap (λ (l : List ℕ). get_elem? l width) (sym moved)
            ∙ get_elem?-set_self slots width next wide),
      );
      rest = λ w ne. ap or_zero (
          ap (λ (l : List ℕ). get_elem? l w) (sym moved)
          ∙ get_elem?-set_ne slots width w next (λ e. ne (sym e)));
    }

-- One turn of the loop: a symbol is placed, or has no code.
record Turn (symbol width : ℕ) (lengths slots ordered slots' ordered' : List ℕ) : Type 0 where
  pub moves : (w : ℕ) → 0 < w → count_at slots' w ≡ count_at slots w + (if width == w then 1 else 0)
  pub here : 0 < width → get_elem? ordered' (count_at slots width) ≡ some symbol
  pub others :
      (at : ℕ)
      → (0 < width → at ≢ count_at slots width)
      → get_elem? ordered' at ≡ get_elem? ordered at

Placed-Turn :
    (symbol width : ℕ) (lengths slots ordered slots' ordered' : List ℕ)
    → 0 < width
    → Placed symbol width slots ordered slots' ordered'
    → Turn symbol width lengths slots ordered slots' ordered'
Placed-Turn symbol width lengths slots ordered slots' ordered' h p = record {
  moves = λ w positive. elim (Bool-cases (width == w)) [
    | inl same ↦
        let e : width ≡ w = ground (arith, same) in
        rw same (subst (λ (v : ℕ). count_at slots' v ≡ count_at slots v + 1) e p.taken)
    | inr other ↦ rw other (omega (arith, p.rest w (λ e. absurd (ground (arith, other, e)))))
  ];
  here = λ h. p.here;
  others = λ at ne. p.others at (ne h);
}

turn :
    (symbol width symbol_count : ℕ) (lengths slots ordered slots' ordered' : List ℕ)
    → (if width == 0
        then good (slots, ordered)
        else place_symbol symbol width symbol_count slots ordered)
      ≡ good (slots', ordered')
    → Turn symbol width lengths slots ordered slots' ordered'
turn symbol width symbol_count lengths slots ordered slots' ordered' h =
    elim (Bool-cases (width == 0)) [
      | inl skipped ↦
          let same = good-injective (slots, ordered) (slots', ordered') (rw skipped at h) in
          record {
            moves = λ w positive.
                let off : (width == w) ≡ false = ground (arith, skipped, positive) in
                rw off (omega (arith, ap (λ (p : List ℕ × List ℕ). count_at (p.0) w) same));
            here = λ positive. absurd (ground (arith, skipped, positive));
            others = λ at ne. sym (ap (λ (p : List ℕ × List ℕ). get_elem? (p.1) at) same);
          }
      | inr found ↦
          Placed-Turn symbol width lengths slots ordered slots' ordered' (ground (arith, found)) (
            place_symbol-Placed symbol width symbol_count slots ordered slots' ordered'
              (rw found at h))
    ]

-- What stays free was free before.
IsFree-before :
    (symbol width : ℕ) (lengths slots ordered slots' ordered' : List ℕ) (w at : ℕ)
    → Turn symbol width lengths slots ordered slots' ordered'
    → IsFree slots' lengths w at
    → IsFree slots (width ∷ lengths) w at
unfolding occurrences
IsFree-before symbol width lengths slots ordered slots' ordered' w at t f = record {
  positive = f.positive;
  from = omega (arith, f.from, t.moves w f.positive);
  below = omega (arith, f.below, t.moves w f.positive);
}

IsFree-first :
    (width : ℕ) (lengths slots : List ℕ)
    → 0 < width
    → IsFree slots (width ∷ lengths) width (count_at slots width)
unfolding occurrences
IsFree-first width lengths slots h =
    let self : (width == width) ≡ true = ground arith in
    record { positive = h; from = omega arith; below = rw self (omega arith) }

IsFree-not_first :
    (symbol width : ℕ) (lengths slots ordered slots' ordered' : List ℕ) (w : ℕ)
    → IsDisjoint slots (width ∷ lengths)
    → Turn symbol width lengths slots ordered slots' ordered'
    → 0 < width
    → ¬ IsFree slots' lengths w (count_at slots width)
unfolding IsDisjoint
IsFree-not_first symbol width lengths slots ordered slots' ordered' w d t h f =
    let same : w ≡ width =
      d w width (count_at slots width)
        (IsFree-before symbol width lengths slots ordered slots' ordered' w _ t f)
        (IsFree-first width lengths slots h) in
    let self : (width == width) ≡ true = ground arith in
    let moved : count_at slots' width ≡ count_at slots width + 1 = rw self at (t.moves width h) in
    let from = f.from in absurd (omega (arith, moved, from, ap (count_at slots') same))

IsDisjoint-Turn :
    (symbol width : ℕ) (lengths slots ordered slots' ordered' : List ℕ)
    → IsDisjoint slots (width ∷ lengths)
    → Turn symbol width lengths slots ordered slots' ordered'
    → IsDisjoint slots' lengths
unfolding IsDisjoint
IsDisjoint-Turn symbol width lengths slots ordered slots' ordered' d t v w at f g =
    d v w at (IsFree-before symbol width lengths slots ordered slots' ordered' v at t f)
      (IsFree-before symbol width lengths slots ordered slots' ordered' w at t g)

-- Places that are not free stay as they are.
place_symbols-kept :
    (lengths : List ℕ) (symbol symbol_count at : ℕ) (slots ordered final : List ℕ)
    → IsDisjoint slots lengths
    → place_symbols symbol lengths symbol_count slots ordered ≡ good final
    → ((w : ℕ) → ¬ IsFree slots lengths w at)
    → get_elem? final at ≡ get_elem? ordered at
unfolding place_symbols
place_symbols-kept [] symbol symbol_count at slots ordered final d h busy =
    ap (λ (l : List ℕ). get_elem? l at) (sym (good-injective ordered final h))
place_symbols-kept (width ∷ lengths) symbol symbol_count at slots ordered final d h busy =
    let ((slots', ordered'), e, h1) =
      bind-good
        (if width == 0
          then good (slots, ordered)
          else place_symbol symbol width symbol_count slots ordered)
        _ h in
    let t = turn symbol width symbol_count lengths slots ordered slots' ordered' e in
    place_symbols-kept lengths (symbol + 1) symbol_count at slots' ordered' final
      (IsDisjoint-Turn symbol width lengths slots ordered slots' ordered' d t) h1
      (λ w f. busy w (IsFree-before symbol width lengths slots ordered slots' ordered' w at t f))
    ∙ t.others at (λ positive same. busy width (
        subst (λ (j : ℕ). IsFree slots (width ∷ lengths) width j) (sym same)
          (IsFree-first width lengths slots positive)))

-- Each symbol that has a code stands behind the symbols of its width before it.
pub place_symbols_lem :
    (lengths : List ℕ) (i symbol symbol_count width : ℕ) (slots ordered final : List ℕ)
    → IsDisjoint slots lengths
    → place_symbols symbol lengths symbol_count slots ordered ≡ good final
    → get_elem? lengths i ≡ some width
    → 0 < width
    → get_elem? final (count_at slots width + occurrences width (take i lengths))
      ≡ some (symbol + i)
unfolding place_symbols occurrences
place_symbols_lem [] i symbol symbol_count width slots ordered final d h at positive = cc
place_symbols_lem (v ∷ lengths) zero symbol symbol_count width slots ordered final d h at positive =
    let ((slots', ordered'), e, h1) =
      bind-good
        (if v == 0 then good (slots, ordered) else place_symbol symbol v symbol_count slots ordered)
        _ h in
    let t = turn symbol v symbol_count lengths slots ordered slots' ordered' e in
    let same : v ≡ width = some-injective v width at in
    let positive' : 0 < v = omega (arith, same) in
    let place : count_at slots width + 0 ≡ count_at slots v =
      omega (arith, ap (count_at slots) same) in
    ap (get_elem? final) place
    ∙ place_symbols-kept lengths (symbol + 1) symbol_count (count_at slots v) slots' ordered' final
        (IsDisjoint-Turn symbol v lengths slots ordered slots' ordered' d t) h1
        (λ w f. IsFree-not_first symbol v lengths slots ordered slots' ordered' w d t positive' f)
    ∙ t.here positive'
    ∙ ap (λ (k : ℕ). some k) (omega arith)
place_symbols_lem (v ∷ lengths) (suc i) symbol symbol_count width slots ordered final d h at
      positive =
    let ((slots', ordered'), e, h1) =
      bind-good
        (if v == 0 then good (slots, ordered) else place_symbol symbol v symbol_count slots ordered)
        _ h in
    let t = turn symbol v symbol_count lengths slots ordered slots' ordered' e in
    ap (get_elem? final) (omega (arith, t.moves width positive))
    ∙ place_symbols_lem lengths i (symbol + 1) symbol_count width slots' ordered' final
        (IsDisjoint-Turn symbol v lengths slots ordered slots' ordered' d t) h1 at positive
    ∙ ap (λ (k : ℕ). some k) (omega arith)
