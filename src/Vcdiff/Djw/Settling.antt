-- ===== src/Vcdiff/Djw/Settling.antt =====
-- Reading bits and symbols of a section always ends in a value or in an error.
use rust_crates.Prelude.{
  ℕ, zero, suc, ◌+◌, ◌*◌, ◌%◌, ◌≤◌, ◌<◌, ◌≡◌, refl, ap, ◌∙◌, Bool, true, false, Option, none, some,
  List, [], ◌∷◌, arith, inl, inr,
}
use rust_crates.Prelude.{leb, ◌==◌, if◌then◌else◌, length, drop, Bool-cases, length-drop}
use rust_crates.Vcdiff.Error.{DecodeContext, DecodeError, Result, ok, err, refuse, ◌>>=◌}
use rust_crates.Vcdiff.Stream.{Stream, ReadsBytes}
use rust_crates.Vcdiff.Input.Reading.{Reading}
use rust_crates.Vcdiff.Input.Exact.{read_u8_lem}
use rust_crates.Vcdiff.Djw.Fault.{Checked, or_format, format_error}
use rust_crates.Vcdiff.Djw.Checking.{Checks, passes, faults}
use rust_crates.Vcdiff.Djw.Bits.{BitStream, next_byte, read_bit}
use rust_crates.Vcdiff.Djw.Book.{PrefixBook, lookup}
use rust_crates.Vcdiff.Djw.Symbol.{found_or, symbol_loop, read_symbol}

-- A value with a property, or an error: neither a panic nor fuel that ran out.
pub data Settles {A : Type 0} (P : A → Type 0) (r : Result A) : Type 0 where
  gives : (a : A) → r ≡ ok a → P a → Settles P r
  fails : (e : DecodeError) → r ≡ err e → Settles P r

module _ {A B : Type 0} {P : A → Type 0} {Q : B → Type 0} where
  pub Settles-bind :
      (first : Result A) (next : A → Result B)
      → Settles P first
      → ((a : A) → P a → Settles Q (next a))
      → Settles Q (first >>= next)
  Settles-bind first next (fails e h) k = fails e (ap (λ (r : Result A). r >>= next) h)
  Settles-bind first next (gives a h p) k = elim (k a p) [
    | gives b e q ↦ gives b (ap (λ (r : Result A). r >>= next) h ∙ e) q
    | fails f e ↦ fails f (ap (λ (r : Result A). r >>= next) h ∙ e)
  ]

pub Settles-map :
    {A : Type 0} {P Q : A → Type 0} {r : Result A}
    → ((a : A) → P a → Q a)
    → Settles P r
    → Settles Q r
Settles-map k (gives a h p) = gives a h (k a p)
Settles-map k (fails e h) = fails e h

pub Settles-known :
    {A : Type 0} {P : A → Type 0} {r : Result A} → Settles P r → Settles (λ a. P a × (r ≡ ok a)) r
Settles-known (gives a h p) = gives a h (p, h)
Settles-known (fails e h) = fails e h

pub refuse-Settles :
    (wrong : Bool) (e : DecodeError) → Settles (λ _. wrong ≡ false) (refuse wrong e)
refuse-Settles false e = gives tt refl refl
refuse-Settles true e = fails e refl

pub or_format-Settles :
    {A : Type 0} {P : A → Type 0} (here : DecodeContext) (c : Checked A)
    → Checks P c
    → Settles P (or_format here c)
or_format-Settles here c (passes a h p) = gives a (ap (or_format here) h) p
or_format-Settles here c (faults f h) = fails (format_error here f) (ap (or_format here) h)

cons_at : (xs : List ℕ) → 0 < length xs → (x : ℕ) × (rest : List ℕ) × (xs ≡ x ∷ rest)
cons_at [] h = absurd (omega arith)
cons_at (x ∷ rest) h = (x, rest, refl)

module _ {D : Stream} (law : ReadsBytes D) (content : List ℕ) where
  -- The bits stand in a section of the delta.
  pub record IsInSection (bits : BitStream D) : Type 0 where
    pub reading : Reading law content bits.input
    pub used_fits : bits.used ≤ 8
    pub within : bits.section_end ≤ length content

  abbrev pub IsRead : {A : Type 0} → A × BitStream D → Type 0
  IsRead (a, bits) = IsInSection bits

  pub read_bit-Settles :
      (fuel : ℕ) (bits : BitStream D)
      → IsInSection bits
      → Settles (IsRead {A = ℕ}) (read_bit (suc fuel) bits)
  unfolding read_bit next_byte
  read_bit-Settles fuel bits s = elim (Bool-cases (bits.used == 8)) [
    | inr some_left ↦
        let fits : bits.used < 8 = ground (arith, some_left, s.used_fits) in
        rw some_left (
          gives _ refl (record { reading = s.reading; used_fits = omega arith; within = s.within }))
    | inl spent ↦ elim (Bool-cases (leb bits.section_end bits.input.pos)) [
      | inl over ↦ rw (spent, over) (fails _ refl)
      | inr more ↦
          let ahead : bits.input.pos < bits.section_end = ground (arith, more) in
          let (byte, tail, e) =
            cons_at (drop bits.input.pos content)
              (omega (arith, s.within, length-drop bits.input.pos content)) in
          let (after, e2, moved) = read_u8_lem law fuel content byte tail bits.input s.reading e in
          rw (spent, more, e2)
            (gives _ refl
              (record { reading = moved.reading; used_fits = omega arith; within = s.within }))
    ]
  ]

  found_or-Settles :
      (o : Option ℕ) (bits : BitStream D) (rest : Result (ℕ × BitStream D))
      → IsInSection bits
      → Settles (IsRead {A = ℕ}) rest
      → Settles (IsRead {A = ℕ}) (found_or o bits rest)
  unfolding found_or
  found_or-Settles none bits rest s k = k
  found_or-Settles (some symbol) bits rest s k = gives (symbol, bits) refl s

  symbol_loop-Settles :
      (widths fuel width code : ℕ) (book : PrefixBook) (bits : BitStream D)
      → IsInSection bits
      → Settles (IsRead {A = ℕ}) (symbol_loop widths (suc fuel) width code book bits)
  unfolding symbol_loop
  symbol_loop-Settles zero fuel width code book bits s = fails _ refl
  symbol_loop-Settles (suc widths) fuel width code book bits s =
      Settles-bind (read_bit (suc fuel) bits) _ (read_bit-Settles fuel bits s)
        (λ (bit, after) placed.
          let code' : ℕ = code * 2 % 0x1_0000_0000 + bit in
          found_or-Settles (if leb book.min_width width then lookup width code' book else none)
            after (symbol_loop widths (suc fuel) (suc width) code' book after) placed
            (symbol_loop-Settles widths fuel (suc width) code' book after placed))

  pub read_symbol-Settles :
      (fuel : ℕ) (book : PrefixBook) (bits : BitStream D)
      → IsInSection bits
      → Settles (IsRead {A = ℕ}) (read_symbol (suc fuel) book bits)
  unfolding read_symbol
  read_symbol-Settles fuel book bits s = elim (Bool-cases (book.symbol_count == 0)) [
    | inl nothing ↦ rw nothing (fails _ refl)
    | inr some_symbols ↦ rw some_symbols (symbol_loop-Settles book.max_width fuel 1 0 book bits s)
  ]
