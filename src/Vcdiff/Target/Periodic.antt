-- ===== src/Vcdiff/Target/Periodic.antt =====
-- A COPY that overlaps its own output repeats the bytes between its start and the end of the output.
use rust_crates.Prelude.{
  ℕ, zero, suc, ◌+◌, ◌%◌, ◌<◌, ◌≡◌, refl, sym, ap, ◌∙◌, subst, some, List, [], ◌∷◌, ◌++◌, arith,
  append-nil, append_assoc,
}
use rust_crates.Prelude.{IsByte, All, length, take, drop, get_elem?, length-append}
use native.Mathlib.Decide.{dec_lt}
use native.Mathlib.Nat.{suc-mod, mod-lt, mod-eq_of_lt, add-mod_right}
use rust_crates.Vcdiff.Error.{ok}
use rust_crates.Vcdiff.Adler.Sums.{All-append}
use rust_crates.Vcdiff.Target.{gather}
use rust_crates.Vcdiff.Target.Overlap.{byte_at, overlap, get_elem?-byte_at}

-- From `start` on, `out` repeats the first `d` bytes of `seed`.
unfoldable pub IsPeriodic : (seed out : List ℕ) (start d : ℕ) → Type 0
IsPeriodic seed out start d =
    (i : ℕ) → start + i < length out → byte_at out (start + i) ≡ byte_at seed (i % d)

byte_at-drop : (n i : ℕ) (out : List ℕ) → byte_at (drop n out) i ≡ byte_at out (n + i)
unfolding byte_at
byte_at-drop zero i out = let e : i ≡ 0 + i = omega arith in ap (byte_at out) e
byte_at-drop (suc n) i [] = refl
byte_at-drop (suc n) i (b ∷ bs) =
    let e : suc (n + i) ≡ suc n + i = omega arith in byte_at-drop n i bs ∙ ap (byte_at (b ∷ bs)) e

byte_at-take : (n i : ℕ) (out : List ℕ) → i < n → byte_at (take n out) i ≡ byte_at out i
unfolding byte_at
byte_at-take zero i out h = absurd (omega arith)
byte_at-take (suc n) i [] h = refl
byte_at-take (suc n) zero (b ∷ bs) h = refl
byte_at-take (suc n) (suc i) (b ∷ bs) h = byte_at-take n i bs (omega arith)

byte_at-front :
    (out more : List ℕ) (i : ℕ) → i < length out → byte_at (out ++ more) i ≡ byte_at out i
unfolding byte_at
byte_at-front [] more i h = absurd (omega arith)
byte_at-front (b ∷ bs) more zero h = refl
byte_at-front (b ∷ bs) more (suc i) h = byte_at-front bs more i (omega arith)

byte_at-last : (out : List ℕ) (b : ℕ) → byte_at (out ++ (b ∷ [])) (length out) ≡ b
unfolding byte_at
byte_at-last [] b = refl
byte_at-last (x ∷ xs) b = byte_at-last xs b

-- Up to the end of the output there is one period.
pub IsPeriodic-seed :
    (out : List ℕ) (start d : ℕ)
    → start + d ≡ length out
    → IsPeriodic (take d (drop start out)) out start d
unfolding IsPeriodic
IsPeriodic-seed out start d e i h =
    let small : i < d = omega arith in
    sym (
      ap (byte_at (take d (drop start out))) (mod-eq_of_lt small)
      ∙ byte_at-take d i (drop start out) small
      ∙ byte_at-drop start i out)

-- The byte that a copy takes keeps the period.
IsPeriodic-push :
    (seed out : List ℕ) (start d e : ℕ)
    → length out ≡ start + e + d
    → 0 < d
    → IsPeriodic seed out start d
    → IsPeriodic seed (out ++ (byte_at out (start + e) ∷ [])) start d
unfolding IsPeriodic
IsPeriodic-push seed out start d e size positive p i h =
    let b : ℕ = byte_at out (start + e) in
    elim (dec_lt (start + i) (length out)) [
      | yes old ↦ byte_at-front out (b ∷ []) (start + i) old ∙ p i old
      | no new ↦
          let last : start + i ≡ length out = omega (arith, length-append out (b ∷ [])) in
          let turn : e + d ≡ i = omega arith in
          ap (byte_at (out ++ (b ∷ []))) last
          ∙ byte_at-last out b
          ∙ p e (omega arith)
          ∙ ap (byte_at seed) (sym (add-mod_right e d) ∙ ap (λ (k : ℕ). k % d) turn)
    ]

pub IsPeriodic-overlap :
    (n : ℕ) (seed out : List ℕ) (start d e : ℕ)
    → length out ≡ start + e + d
    → 0 < d
    → IsPeriodic seed out start d
    → IsPeriodic seed (out ++ overlap out (start + e) n) start d
unfolding overlap
IsPeriodic-overlap zero seed out start d e size positive p =
    subst (λ o. IsPeriodic seed o start d) (sym (append-nil out)) p
IsPeriodic-overlap (suc n) seed out start d e size positive p =
    let b : ℕ = byte_at out (start + e) in
    let next : start + (e + 1) ≡ start + e + 1 = omega arith in
    subst (λ o. IsPeriodic seed o start d)
      (append_assoc out (b ∷ []) (overlap (out ++ (b ∷ [])) (start + (e + 1)) n)
        ∙ ap (λ (k : ℕ). out ++ (b ∷ overlap (out ++ (b ∷ [])) k n)) next)
      (IsPeriodic-overlap n seed (out ++ (b ∷ [])) start d (e + 1)
        (omega (arith, length-append out (b ∷ []))) positive
        (IsPeriodic-push seed out start d e size positive p))

suc_mod-eq : (a b d : ℕ) → a % d ≡ b % d → suc a % d ≡ suc b % d
suc_mod-eq a b d h = suc-mod a d ∙ ap (λ (k : ℕ). suc k % d) h ∙ sym (suc-mod b d)

-- The bytes that `gather` takes from the seed are those of the copy.
pub gather-overlap :
    (count idx e phase : ℕ) (seed out : List ℕ) (start d : ℕ)
    → length seed ≡ d
    → length out ≡ start + e + d
    → 0 < d
    → (phase + idx) % d ≡ e % d
    → IsPeriodic seed out start d
    → gather seed d phase idx count ≡ ok (overlap out (start + e) count)
unfolding gather overlap IsPeriodic
gather-overlap zero idx e phase seed out start d ls lo positive turn p = refl
gather-overlap (suc count) idx e phase seed out start d ls lo positive turn p =
    let b : ℕ = byte_at out (start + e) in
    let small : (phase + idx) % d < d = mod-lt (phase + idx) positive in
    let taken : get_elem? seed ((phase + idx) % d) ≡ some b =
      get_elem?-byte_at seed ((phase + idx) % d) (omega arith)
      ∙ ap (λ (k : ℕ). some (byte_at seed k)) turn
      ∙ ap (λ (k : ℕ). some k) (sym (p e (omega arith))) in
    let step1 : suc (phase + idx) ≡ phase + (idx + 1) = omega arith in
    let step2 : suc e ≡ e + 1 = omega arith in
    let next : start + (e + 1) ≡ start + e + 1 = omega arith in
    let rest : gather seed d phase (idx + 1) count
        ≡ ok (overlap (out ++ (b ∷ [])) (start + (e + 1)) count) =
      gather-overlap count (idx + 1) (e + 1) phase seed (out ++ (b ∷ [])) start d ls
        (omega (arith, length-append out (b ∷ []))) positive
        (sym (ap (λ (k : ℕ). k % d) step1)
          ∙ suc_mod-eq (phase + idx) e d turn
          ∙ ap (λ (k : ℕ). k % d) step2)
        (IsPeriodic-push seed out start d e lo positive p) in
    rw (taken, rest) (λ j. ok (b ∷ overlap (out ++ (b ∷ [])) (next j) count))

IsByte-byte_at : (out : List ℕ) (i : ℕ) → All IsByte out → IsByte (byte_at out i)
unfolding byte_at
IsByte-byte_at [] i h = omega arith
IsByte-byte_at (b ∷ bs) zero (h, hs) = h
IsByte-byte_at (b ∷ bs) (suc i) (h, hs) = IsByte-byte_at bs i hs

pub IsByte-overlap :
    (n : ℕ) (out : List ℕ) (start : ℕ) → All IsByte out → All IsByte (overlap out start n)
unfolding overlap
IsByte-overlap zero out start h = tt
IsByte-overlap (suc n) out start h =
    let b = IsByte-byte_at out start h in
    (
      b,
      IsByte-overlap n (out ++ (byte_at out start ∷ [])) (start + 1)
          (All-append out (byte_at out start ∷ []) h (b, tt)),
    )
