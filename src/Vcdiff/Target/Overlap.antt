-- ===== src/Vcdiff/Target/Overlap.antt =====
-- RFC 3284, section 3: a COPY takes its bytes one after another from a growing output, so that it may
-- read what it has written itself.
use rust_crates.Prelude.{
  ℕ, zero, suc, ◌+◌, ◌≤◌, ◌<◌, ◌≡◌, refl, sym, ap, ap₂, ◌∙◌, some, List, [], ◌∷◌, ◌++◌, arith,
  append-nil, append_assoc,
}
use rust_crates.Prelude.{length, take, drop, get_elem?, length-append}

-- The byte at an index; 0 behind the end.
unfoldable pub byte_at : List ℕ → ℕ → ℕ
byte_at [] i = 0
byte_at (b ∷ bs) zero = b
byte_at (b ∷ bs) (suc i) = byte_at bs i

-- The bytes that a COPY of so many bytes from `start` on adds to the output.
unfoldable pub overlap : List ℕ → ℕ → ℕ → List ℕ
overlap out start zero = []
overlap out start (suc n) =
    byte_at out start ∷ overlap (out ++ (byte_at out start ∷ [])) (start + 1) n

pub get_elem?-byte_at :
    (out : List ℕ) (i : ℕ) → i < length out → get_elem? out i ≡ some (byte_at out i)
unfolding byte_at
get_elem?-byte_at [] i h = absurd (omega arith)
get_elem?-byte_at (b ∷ bs) zero h = refl
get_elem?-byte_at (b ∷ bs) (suc i) h = get_elem?-byte_at bs i (omega arith)

drop-byte_at :
    (out : List ℕ) (i : ℕ) → i < length out → drop i out ≡ byte_at out i ∷ drop (suc i) out
unfolding byte_at
drop-byte_at [] i h = absurd (omega arith)
drop-byte_at (b ∷ bs) zero h = refl
drop-byte_at (b ∷ bs) (suc i) h = drop-byte_at bs i (omega arith)

pub length-overlap : (out : List ℕ) (start n : ℕ) → length (overlap out start n) ≡ n
unfolding overlap
length-overlap out start zero = refl
length-overlap out start (suc n) =
    omega (arith, length-overlap (out ++ (byte_at out start ∷ [])) (start + 1) n)

pub take-drop-append :
    (n i : ℕ) (xs ys : List ℕ) → i + n ≤ length xs → take n (drop i (xs ++ ys)) ≡ take n (drop i xs)
take-drop-append zero i xs ys h = refl
take-drop-append (suc n) zero [] ys h = absurd (omega arith)
take-drop-append (suc n) zero (x ∷ xs) ys h =
    ap (λ l. x ∷ l) (take-drop-append n 0 xs ys (omega arith))
take-drop-append (suc n) (suc i) [] ys h = absurd (omega arith)
take-drop-append (suc n) (suc i) (x ∷ xs) ys h = take-drop-append (suc n) i xs ys (omega arith)

-- Without an overlap the bytes are those of the output.
pub overlap-inside :
    (n : ℕ) (out : List ℕ) (start : ℕ)
    → start + n ≤ length out
    → overlap out start n ≡ take n (drop start out)
unfolding overlap
overlap-inside zero out start h = refl
overlap-inside (suc n) out start h =
    let b : ℕ = byte_at out start in
    let next : start + 1 ≡ suc start = omega arith in
    ap (λ (l : List ℕ). b ∷ l)
      (overlap-inside n (out ++ (b ∷ [])) (start + 1) (omega (arith, length-append out (b ∷ [])))
        ∙ take-drop-append n (start + 1) out (b ∷ []) (omega arith)
        ∙ ap (λ (k : ℕ). take n (drop k out)) next)
    ∙ sym (ap (take (suc n)) (drop-byte_at out start (omega arith)))

-- A COPY may be cut in two.
pub overlap-split :
    (m n : ℕ) (out : List ℕ) (start : ℕ)
    → overlap out start (m + n)
      ≡ overlap out start m ++ overlap (out ++ overlap out start m) (start + m) n
unfolding overlap
overlap-split zero n out start =
    let e : start ≡ start + 0 = omega arith in
    let z : 0 + n ≡ n = omega arith in
    ap (overlap out start) z ∙ ap₂ (λ (o : List ℕ) (s : ℕ). overlap o s n) (sym (append-nil out)) e
overlap-split (suc m) n out start =
    let b : ℕ = byte_at out start in
    let z : suc m + n ≡ suc (m + n) = omega arith in
    let e : start + 1 + m ≡ start + suc m = omega arith in
    let middle : List ℕ = overlap (out ++ (b ∷ [])) (start + 1) m in
    ap (overlap out start) z
    ∙ ap (λ (l : List ℕ). b ∷ l)
        (overlap-split m n (out ++ (b ∷ [])) (start + 1)
          ∙ ap₂ (λ (o : List ℕ) (s : ℕ). middle ++ overlap o s n) (append_assoc out (b ∷ []) middle)
              e)

byte_at-behind :
    (front out : List ℕ) (i : ℕ) → byte_at (front ++ out) (length front + i) ≡ byte_at out i
unfolding byte_at
byte_at-behind [] out i = let e : 0 + i ≡ i = omega arith in ap (byte_at out) e
byte_at-behind (x ∷ xs) out i =
    let e : suc (length xs) + i ≡ suc (length xs + i) = omega arith in
    ap (byte_at (x ∷ (xs ++ out))) e ∙ byte_at-behind xs out i

-- A copy from behind the front of an output does not depend on the front.
pub overlap-prefix :
    (n : ℕ) (front out : List ℕ) (i : ℕ)
    → overlap (front ++ out) (length front + i) n ≡ overlap out i n
unfolding overlap
overlap-prefix zero front out i = refl
overlap-prefix (suc n) front out i =
    let b : ℕ = byte_at out i in
    let same : byte_at (front ++ out) (length front + i) ≡ b = byte_at-behind front out i in
    let next : length front + i + 1 ≡ length front + (i + 1) = omega arith in
    (λ j. same j ∷ overlap ((front ++ out) ++ (same j ∷ [])) (next j) n)
    ∙ ap (λ (l : List ℕ). b ∷ l)
        (ap (λ (o : List ℕ). overlap o (length front + (i + 1)) n) (append_assoc front out (b ∷ []))
          ∙ overlap-prefix n front (out ++ (b ∷ [])) (i + 1))

-- A copy from inside the front of an output takes bytes of the front.
pub overlap-front :
    (n : ℕ) (front out : List ℕ) (i : ℕ)
    → i + n ≤ length front
    → overlap (front ++ out) i n ≡ take n (drop i front)
overlap-front n front out i h =
    overlap-inside n (front ++ out) i (omega (arith, length-append front out))
    ∙ take-drop-append n i front out h
