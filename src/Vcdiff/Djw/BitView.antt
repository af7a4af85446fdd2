-- ===== src/Vcdiff/Djw/BitView.antt =====
-- A `BitStream` gives the bits of the bytes of its section, whatever pieces the stream returns.
use rust_crates.Prelude.{
  ℕ, zero, suc, ◌+◌, ◌-◌, ◌*◌, ◌/◌, ◌%◌, ◌^◌, ◌≤◌, ◌<◌, ◌≡◌, refl, sym, ap, ap₂, ◌∙◌, false, List,
  [], ◌∷◌, ◌++◌, arith, inl, inr,
}
use rust_crates.Prelude.{
  min, leb, ◌==◌, length, take, drop, get_elem?, Bool-cases, length-drop, drop-drop,
}
use rust_crates.Vcdiff.Error.{ok}
use rust_crates.Vcdiff.Stream.{Stream, ReadsBytes}
use rust_crates.Vcdiff.Input.{DeltaInput}
use rust_crates.Vcdiff.Input.Reading.{Reading, Moved}
use rust_crates.Vcdiff.Input.Exact.{read_u8_lem}
use rust_crates.Vcdiff.Djw.Bits.{BitStream, next_byte, read_bit, field_loop, read_field}
use rust_crates.Vcdiff.Djw.Canonical.{or_zero, pow2, pow2-small}

-- The lowest bits of a byte, the lowest first.
unfoldable pub byte_bits : ℕ → ℕ → List ℕ
byte_bits zero byte = []
byte_bits (suc n) byte = byte % 2 ∷ byte_bits n (byte / 2)

unfoldable pub section_bits : List ℕ → List ℕ
unfolding byte_bits
section_bits [] = []
section_bits (byte ∷ bytes) = byte_bits 8 byte ++ section_bits bytes

-- The number that bits are the digits of, the highest first.
unfoldable pub number : ℕ → List ℕ → ℕ
number value [] = value
number value (bit ∷ word) = number (value * 2 + bit) word

module _ {D : Stream} (law : ReadsBytes D) where
  -- The bits that are left in the section of a delta.
  pub record BitsLeft (content : List ℕ) (bits : BitStream D) (left : List ℕ) : Type 0 where
    pub reading : Reading law content bits.input
    pub used_fits : bits.used ≤ 8
    pub within : bits.section_end ≤ length content
    pub view :
        byte_bits (8 - bits.used) (bits.current / 2 ^ bits.used)
          ++ section_bits (take (bits.section_end - bits.input.pos) (drop bits.input.pos content))
        ≡ left

halved : (u x : ℕ) → u < 8 → x / 2 ^ u / 2 ≡ x / 2 ^ (u + 1)
halved zero x h = omega arith
halved (suc zero) x h = omega arith
halved (suc (suc zero)) x h = omega arith
halved (suc (suc (suc zero))) x h = omega arith
halved (suc (suc (suc (suc zero)))) x h = omega arith
halved (suc (suc (suc (suc (suc zero))))) x h = omega arith
halved (suc (suc (suc (suc (suc (suc zero)))))) x h = omega arith
halved (suc (suc (suc (suc (suc (suc (suc zero))))))) x h = omega arith
halved (suc (suc (suc (suc (suc (suc (suc (suc u)))))))) x h = absurd (omega arith)

take-cons :
    (n : ℕ) (xs : List ℕ)
    → 0 < n
    → 0 < length xs
    → (x : ℕ) × (rest : List ℕ) × (xs ≡ x ∷ rest) × (take n xs ≡ x ∷ take (n - 1) rest)
take-cons zero xs h k = absurd (omega arith)
take-cons (suc n) [] h k = absurd (omega arith)
take-cons (suc n) (x ∷ rest) h k =
    let same : n ≡ suc n - 1 = omega arith in (x, rest, refl, ap (λ (m : ℕ). x ∷ take m rest) same)

module _ {D : Stream} (law : ReadsBytes D) where
  loaded-BitsLeft :
      (content rest tail : List ℕ) (byte bit : ℕ) (bits : BitStream D) (after : DeltaInput D)
      → bits.section_end ≤ length content
      → drop bits.input.pos content ≡ byte ∷ tail
      → Moved law content 1 bits.input after
      → byte_bits 8 byte ++ section_bits (take (bits.section_end - bits.input.pos - 1) tail)
        ≡ bit ∷ rest
      → BitsLeft law content (record bits { input = after; current = byte; used = 0 }) (bit ∷ rest)
  loaded-BitsLeft content rest tail byte bit bits after within e1 moved left =
      let behind : drop after.pos content ≡ tail =
        ap (λ (k : ℕ). drop k content) moved.pos_moved
        ∙ sym (drop-drop bits.input.pos 1 content)
        ∙ ap (drop 1) e1 in
      let fewer : bits.section_end - after.pos ≡ bits.section_end - bits.input.pos - 1 =
        omega (arith, moved.pos_moved) in
      let same : byte / 2 ^ 0 ≡ byte = omega arith in
      record {
        reading = moved.reading;
        used_fits = omega arith;
        within = within;
        view =
            ap
              (λ (k : ℕ).
                byte_bits 8 k
                ++ section_bits (take (bits.section_end - after.pos) (drop after.pos content)))
              same
            ∙ ap₂ (λ (k : ℕ) (l : List ℕ). byte_bits 8 byte ++ section_bits (take k l)) fewer behind
            ∙ left;
      }

  -- The next byte of the section is loaded, and no bit is lost.
  next_byte-BitsLeft :
      (fuel bit : ℕ) (content rest : List ℕ) (bits : BitStream D)
      → BitsLeft law content bits (bit ∷ rest)
      → bits.used ≡ 8
      → (loaded : BitStream D) × (next_byte (suc fuel) bits ≡ ok loaded)
        × (loaded.used ≡ 0)
        × BitsLeft law content loaded (bit ∷ rest)
  unfolding next_byte byte_bits section_bits
  next_byte-BitsLeft fuel bit content rest bits v all_used =
      let pos : ℕ = bits.input.pos in
      let n : ℕ = bits.section_end - pos in
      let spent : 8 - bits.used ≡ 0 = omega (arith, all_used) in
      let left : section_bits (take n (drop pos content)) ≡ bit ∷ rest =
        ap
          (λ (k : ℕ).
            byte_bits k (bits.current / 2 ^ bits.used) ++ section_bits (take n (drop pos content)))
          (sym spent)
        ∙ v.view in
      elim (Bool-cases (leb bits.section_end pos)) [
        | inl over ↦
            let nothing : n ≡ 0 = ground (arith, over) in
            absurd (
              omega (
                arith,
                ap (λ (l : List ℕ). length l)
                    (ap (λ (k : ℕ). section_bits (take k (drop pos content))) (sym nothing) ∙ left),
              ))
        | inr more ↦
            let ahead : pos < bits.section_end = ground (arith, more) in
            let (byte, tail, e1, e2) =
              take-cons n (drop pos content) (omega arith)
                (omega (arith, v.within, length-drop pos content)) in
            let (after, e3, moved) =
              read_u8_lem law fuel content byte tail bits.input v.reading e1 in
            let closed : leb bits.section_end pos ≡ false = more in
            let whole = ap section_bits (sym e2) ∙ left in
            (
              record bits { input = after; current = byte; used = 0 },
              rw (closed, e3) refl,
              refl,
              loaded-BitsLeft content rest tail byte bit bits after v.within e1 moved whole,
            )
      ]

  -- A bit of the loaded byte.
  loaded_bit :
      (bit : ℕ) (content rest : List ℕ) (bits : BitStream D) (total : ℕ)
      → BitsLeft law content bits (bit ∷ rest)
      → bits.used < 8
      → (bits.current / 2 ^ bits.used % 2 ≡ bit)
        × BitsLeft law content (record bits { used = bits.used + 1; total_bits = total }) rest
  unfolding byte_bits or_zero
  loaded_bit bit content rest bits total v h =
      let x : ℕ = bits.current / 2 ^ bits.used in
      let n : ℕ = 8 - (bits.used + 1) in
      let bytes : List ℕ =
        section_bits (take (bits.section_end - bits.input.pos) (drop bits.input.pos content)) in
      let more : 8 - bits.used ≡ suc n = omega arith in
      let left : x % 2 ∷ (byte_bits n (x / 2) ++ bytes) ≡ bit ∷ rest =
        ap (λ (k : ℕ). byte_bits k x ++ bytes) (sym more) ∙ v.view in
      (
        ap (λ (l : List ℕ). or_zero (get_elem? l 0)) left,
        record {
          reading = v.reading;
          used_fits = omega arith;
          within = v.within;
          view =
              ap (λ (k : ℕ). byte_bits n k ++ bytes) (sym (halved bits.used bits.current h))
              ∙ ap (drop 1) left;
        },
      )

  pub read_bit_lem :
      (fuel bit : ℕ) (content rest : List ℕ) (bits : BitStream D)
      → BitsLeft law content bits (bit ∷ rest)
      → (after : BitStream D) × (read_bit (suc fuel) bits ≡ ok (bit, after))
        × (bit < 2)
        × BitsLeft law content after rest
  unfolding read_bit
  read_bit_lem fuel bit content rest bits v = elim (Bool-cases (bits.used == 8)) [
    | inl spent ↦
        let (loaded, e, fresh, v') =
          next_byte-BitsLeft fuel bit content rest bits v (ground (arith, spent)) in
        let total : ℕ = min (loaded.total_bits + 1) 0xffff_ffff_ffff_ffff in
        let (same, v'') = loaded_bit bit content rest loaded total v' (omega (arith, fresh)) in
        (
          record loaded { used = loaded.used + 1; total_bits = total },
          rw (spent, e)
              (λ j. ok (same j, record loaded { used = loaded.used + 1; total_bits = total })),
          omega (arith, same),
          v'',
        )
    | inr some_left ↦
        let total : ℕ = min (bits.total_bits + 1) 0xffff_ffff_ffff_ffff in
        let fits : bits.used < 8 = ground (arith, some_left, v.used_fits) in
        let (same, v') = loaded_bit bit content rest bits total v fits in
        (
          record bits { used = bits.used + 1; total_bits = total },
          rw some_left (λ j. ok (same j, record bits { used = bits.used + 1; total_bits = total })),
          omega (arith, same),
          v',
        )
  ]

  field_loop_lem :
      (word : List ℕ) (fuel j value : ℕ) (content rest : List ℕ) (bits : BitStream D)
      → BitsLeft law content bits (word ++ rest)
      → j + length word ≤ 20
      → value < pow2 j
      → (after : BitStream D) × (field_loop (length word) (suc fuel) value bits
          ≡ ok (number value word, after))
        × BitsLeft law content after rest
  unfolding field_loop number pow2
  field_loop_lem [] fuel j value content rest bits v h k = (bits, refl, v)
  field_loop_lem (bit ∷ word) fuel j value content rest bits v h k =
      let (bits1, e, small, v') = read_bit_lem fuel bit content (word ++ rest) bits v in
      let bound = pow2-small (20 - j) j (omega arith) in
      let exact : value * 2 % 0x1_0000_0000 + bit ≡ value * 2 + bit = omega (arith, bound) in
      let (after, e2, v'') =
        field_loop_lem word fuel (suc j) (value * 2 + bit) content rest bits1 v' (omega arith)
          (omega arith) in
      (after, rw (e, exact, e2) refl, v'')

  -- `read_field` gives the number whose digits, the highest first, are the next bits of the section, and
  -- leaves the bits after them, for up to 20 bits.
  pub read_field_lem :
      (word : List ℕ) (fuel : ℕ) (content rest : List ℕ) (bits : BitStream D)
      → BitsLeft law content bits (word ++ rest)
      → 0 < length word
      → length word ≤ 20
      → (after : BitStream D) × (read_field (suc fuel) (length word) bits
          ≡ ok (number 0 word, after))
        × BitsLeft law content after rest
  unfolding read_field pow2
  read_field_lem word fuel content rest bits v h k =
      let (after, e, v') =
        field_loop_lem word fuel 0 0 content rest bits v (omega arith) (omega arith) in
      let some_bits : (length word == 0) ≡ false = ground (arith, h) in (after, rw some_bits e, v')
