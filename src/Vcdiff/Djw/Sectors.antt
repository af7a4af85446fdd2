-- ===== src/Vcdiff/Djw/Sectors.antt =====
-- The sectors of a section are read one after another, and cover the output.
use rust_crates.Prelude.{
  ℕ, zero, suc, ◌+◌, ◌-◌, ◌*◌, ◌/◌, ◌≤◌, ◌<◌, ◌≡◌, refl, ◌∙◌, List, [], ◌++◌, arith, ◌⊎◌, inl, inr,
  min,
}
use rust_crates.Prelude.{
  leb, ◌==◌, if◌then◌else◌, length, length-append, get_elem?, get_elem?-some, Bool-cases,
}
use native.Mathlib.Nat.{suc-mul, div-add-mod', mod-lt}
use rust_crates.Vcdiff.Error.{DecodeContext, ok, refuse, or_panic, invalid_selector}
use rust_crates.Vcdiff.Stream.{Stream, ReadsBytes}
use rust_crates.Vcdiff.Djw.Fault.{format_error}
use rust_crates.Vcdiff.Djw.Bits.{BitStream, context}
use rust_crates.Vcdiff.Djw.Book.{PrefixBook}
use rust_crates.Vcdiff.Djw.Section.{allocate_selectors, read_symbols, body_loop}
use rust_crates.Vcdiff.Djw.Settling.{
  Settles, gives, Settles-bind, Settles-map, refuse-Settles, IsInSection,
}
use rust_crates.Vcdiff.Djw.Tables.{allocate_selectors-Settles}
use rust_crates.Vcdiff.Djw.Reading.{read_symbols-Settles}

or_panic-Settles :
    {A : Type 0} (xs : List A) (i : ℕ)
    → i < length xs
    → Settles (λ _. Unit {0}) (or_panic (get_elem? xs i))
or_panic-Settles xs i h = let (a, e) = get_elem?-some xs i h in gives a (rw (or_panic, e) refl) tt

group-Settles :
    (group_count sector : ℕ) (selectors : List ℕ)
    → (group_count ≡ 1) ⊎ (sector < length selectors)
    → Settles
        (λ _. Unit {0})
        (if group_count == 1 then ok 0 else or_panic (get_elem? selectors sector))
group-Settles group_count sector selectors h = elim (Bool-cases (group_count == 1)) [
  | inl one ↦ rw one (gives 0 refl tt)
  | inr many ↦ rw many (elim h [
    | inl e ↦ absurd (ground (arith, many, e))
    | inr inside ↦ or_panic-Settles selectors sector inside
  ])
]

-- The bytes that chunks take, of so many that are left.
unfoldable pub chunked : ℕ → ℕ → ℕ → ℕ
chunked zero left sector_size = 0
chunked (suc sectors) left sector_size =
    min sector_size left + chunked sectors (left - sector_size) sector_size

pub chunked-all :
    (sectors left sector_size : ℕ)
    → left ≤ sectors * sector_size
    → chunked sectors left sector_size ≡ left
unfolding chunked
chunked-all zero left sector_size h = omega arith
chunked-all (suc sectors) left sector_size h =
    let split : suc sectors * sector_size ≡ sector_size + sectors * sector_size =
      suc-mul sectors sector_size ∙ omega arith in
    omega (
      arith,
      h,
      split,
      chunked-all sectors (left - sector_size) sector_size (omega (arith, h, split)),
    )

-- The sectors cover the output.
pub sectors-cover :
    (len sector_size : ℕ)
    → 0 < sector_size
    → len ≤ (len + (sector_size - 1)) / sector_size * sector_size
sectors-cover len sector_size h = omega (
  arith,
  h,
  div-add-mod' (len + (sector_size - 1)) sector_size,
  mod-lt (len + (sector_size - 1)) h,
)

selected :
    (sectors sector group_count : ℕ) (selectors : List ℕ)
    → (group_count ≡ 1) ⊎ (sector + suc sectors ≤ length selectors)
    → (group_count ≡ 1) ⊎ (sector < length selectors)
selected sectors sector group_count selectors (inl one) = inl one
selected sectors sector group_count selectors (inr more) = inr (omega arith)

pub from_start :
    (group_count count : ℕ) (selectors : List ℕ)
    → (group_count ≡ 1) ⊎ (length selectors ≡ count)
    → (group_count ≡ 1) ⊎ (0 + count ≤ length selectors)
from_start group_count count selectors (inl one) = inl one
from_start group_count count selectors (inr same) = inr (omega (arith, same))

pub kept :
    (group_count count : ℕ) (selectors selectors' : List ℕ)
    → length selectors' ≡ length selectors
    → (group_count ≡ 1) ⊎ (length selectors ≡ count)
    → (group_count ≡ 1) ⊎ (length selectors' ≡ count)
kept group_count count selectors selectors' same (inl one) = inl one
kept group_count count selectors selectors' same (inr e) = inr (same ∙ e)

pub selectors-Settles :
    (group_count count active_memory limit : ℕ) (here : DecodeContext)
    → Settles
        (λ selectors. (group_count ≡ 1) ⊎ (length selectors ≡ count))
        (if group_count == 1 then ok [] else allocate_selectors count active_memory limit here)
selectors-Settles group_count count active_memory limit here =
    elim (Bool-cases (group_count == 1)) [
      | inl one ↦ rw one (gives [] refl (inl (ground (arith, one))))
      | inr many ↦ rw many (
          Settles-map (λ _ same. inr same)
            (allocate_selectors-Settles count active_memory limit here))
    ]

selected_rest :
    (sectors sector group_count : ℕ) (selectors : List ℕ)
    → (group_count ≡ 1) ⊎ (sector + suc sectors ≤ length selectors)
    → (group_count ≡ 1) ⊎ (sector + 1 + sectors ≤ length selectors)
selected_rest sectors sector group_count selectors (inl one) = inl one
selected_rest sectors sector group_count selectors (inr more) = inr (omega arith)

module _ {D : Stream} (law : ReadsBytes D) (content : List ℕ) where
  pub body_loop-Settles :
      (sectors fuel sector left group_count sector_size : ℕ) (books : List PrefixBook)
      (selectors : List ℕ) (bits : BitStream D)
      → IsInSection law content bits
      → group_count ≤ length books
      → (group_count ≡ 1) ⊎ (sector + sectors ≤ length selectors)
      → Settles
          (λ (bytes, bits').
            (length bytes ≡ chunked sectors left sector_size) × IsInSection law content bits')
          (body_loop sectors (suc fuel) sector left books group_count selectors sector_size bits)
  unfolding body_loop chunked
  body_loop-Settles zero fuel sector left group_count sector_size books selectors bits s h k =
      gives ([], bits) refl (refl, s)
  body_loop-Settles (suc sectors) fuel sector left group_count sector_size books selectors bits s h
        k =
      Settles-bind (if group_count == 1 then ok 0 else or_panic (get_elem? selectors sector)) _
        (group-Settles group_count sector selectors
          (selected sectors sector group_count selectors k))
        (λ group _.
          Settles-bind
            (refuse (leb group_count group) (format_error (context bits) invalid_selector)) _
            (refuse-Settles (leb group_count group) (format_error (context bits) invalid_selector))
            (λ _ inside.
              Settles-bind (or_panic (get_elem? books group)) _
                (or_panic-Settles books group (ground (arith, inside, h)))
                (λ book _.
                  Settles-bind (read_symbols (min sector_size left) (suc fuel) book bits) _
                    (read_symbols-Settles law content (min sector_size left) fuel book bits s)
                    (λ (bytes, bits') (same, s').
                      Settles-bind
                        (body_loop sectors (suc fuel) (sector + 1) (left - sector_size) books
                          group_count selectors sector_size bits')
                        _
                        (body_loop-Settles sectors fuel (sector + 1) (left - sector_size)
                          group_count sector_size books selectors bits' s' h
                          (selected_rest sectors sector group_count selectors k))
                        (λ (rest, bits'') (same', s'').
                          gives (bytes ++ rest, bits'') refl
                            (omega (arith, same, same', length-append bytes rest), s''))))))
