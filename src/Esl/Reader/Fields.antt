-- ===== src/Esl/Reader/Fields.antt =====
-- Reading fields back.
use rust_crates.Prelude.{
  ℕ, zero, suc, ◌+◌, ◌^◌, ◌≤◌, ◌<◌, ◌≡◌, refl, ap, ◌∙◌, true, Option, some, List, [], ◌∷◌, ◌++◌,
  map, append_assoc, arith, Bool-cases, inl, inr,
}
use rust_crates.Prelude.{
  All, ltb, length, length-append, le_bytes, length-le_bytes, read_le-le_bytes, read_bytes-append,
}
use rust_crates.Esl.Error.{Signature}
use rust_crates.Esl.Write.{sig_bytes, same_sig, xxxx}
use rust_crates.Esl.Layout.{short_field, field_layout, fields_layout, IsField}
use rust_crates.Esl.Reader.{read_sig, read_field, read_many, read_fields}

pub same_sig_refl : (s : Signature) → same_sig s s ≡ true
unfolding same_sig
same_sig_refl s = ground arith

pub read_field_lem :
    (sig : Signature) (payload rest : List ℕ)
    → IsField (sig, payload)
    → read_field (field_layout sig payload ++ rest) ≡ some ((sig, payload), rest)
unfolding read_field field_layout short_field read_sig
read_field_lem sig payload rest h = elim (Bool-cases (ltb 0xffff (length payload))) [
  | inl long ↦
      let size : List ℕ = le_bytes 4 (length payload) in
      let four : List ℕ = le_bytes 2 (length size) in
      let back : List ℕ = payload ++ rest in
      let tail : ((four ++ size) ++ (sig_bytes sig ++ (le_bytes 2 0 ++ payload))) ++ rest
          ≡ four ++ (size ++ (sig_bytes sig ++ (le_bytes 2 0 ++ back))) =
        simp append_assoc in
      let small : length size < 256 ^ 2 = omega (arith, length-le_bytes 4 (length payload)) in
      let wide : length payload < 256 ^ 4 = omega (arith, h.sized) in
      let reserved : same_sig xxxx xxxx ≡ true = same_sig_refl xxxx in
      rw (
        long,
        tail,
        read_le-le_bytes 2 (length size) (size ++ (sig_bytes sig ++ (le_bytes 2 0 ++ back))) small,
        reserved,
        read_le-le_bytes 4 (length payload) (sig_bytes sig ++ (le_bytes 2 0 ++ back)) wide,
        read_le-le_bytes 2 0 back (let z : 0 < 256 ^ 2 = omega arith in z),
        read_bytes-append payload rest,
      )
  | inr short ↦
      let plain = h.unreserved in
      let small : length payload < 256 ^ 2 = ground arith in
      rw (
        short,
        append_assoc (le_bytes 2 (length payload)) payload rest,
        read_le-le_bytes 2 (length payload) (payload ++ rest) small,
        plain,
        read_bytes-append payload rest,
      )
]

field_layout-size : (sig : Signature) (payload : List ℕ) → 0 < length (field_layout sig payload)
unfolding field_layout short_field
field_layout-size sig payload = elim (Bool-cases (ltb 0xffff (length payload))) [
  | inl long ↦ rw long (omega arith)
  | inr short ↦ rw short (omega arith)
]

-- If one item is read back from the front of its bytes, then all are from the bytes of all.
module _ {ℓ κ} {A : Type ℓ} {B : Type κ} (P : A → Type 0) (read : List ℕ → Option (B × List ℕ))
    (write : A → List ℕ) (view : A → B) (write_all : List A → List ℕ)
    (none_written : write_all [] ≡ [])
    (next_written : (a : A) (items : List A) → write_all (a ∷ items) ≡ write a ++ write_all items)
    (one_read : (a : A) (rest : List ℕ) → P a → read (write a ++ rest) ≡ some (view a, rest))
    (some_written : (a : A) → 0 < length (write a)) where
  read_many-cons :
      (rounds : ℕ) (bytes rest : List ℕ) (b : B) (others : List B)
      → 0 < length bytes
      → read bytes ≡ some (b, rest)
      → read_many read rounds rest ≡ some others
      → read_many read (suc rounds) bytes ≡ some (b ∷ others)
  unfolding read_many
  read_many-cons rounds [] rest b others h e e' = absurd (omega arith)
  read_many-cons rounds (x ∷ xs) rest b others h e e' = rw (e, e')

  pub read_many_lem :
      (items : List A) (rounds : ℕ)
      → All P items
      → length (write_all items) ≤ rounds
      → read_many read rounds (write_all items) ≡ some (map view items)
  unfolding read_many
  read_many_lem [] rounds h l = rw none_written
  read_many_lem (a ∷ items) zero (p, ps) l =
      let size : length (write_all (a ∷ items)) ≡ length (write a) + length (write_all items) =
        ap (λ (l : List ℕ). length l) (next_written a items)
        ∙ length-append (write a) (write_all items) in
      absurd (omega (arith, size, some_written a))
  read_many_lem (a ∷ items) (suc rounds) (p, ps) l =
      let size : length (write a ++ write_all items) ≡ length (write a) + length (write_all items) =
        length-append (write a) (write_all items) in
      let total : length (write_all (a ∷ items)) ≡ length (write a) + length (write_all items) =
        ap (λ (l : List ℕ). length l) (next_written a items) ∙ size in
      ap (read_many read (suc rounds)) (next_written a items)
      ∙ read_many-cons rounds (write a ++ write_all items) (write_all items) (view a)
          (map view items) (omega (arith, size, some_written a)) (one_read a (write_all items) p)
          (read_many_lem items rounds ps (omega (arith, total, some_written a)))

map-same : {A : Type 0} (xs : List A) → map (λ x. x) xs ≡ xs
map-same [] = refl
map-same (x ∷ xs) = ap (λ l. x ∷ l) (map-same xs)

-- Fields are read back as they were given, long ones too.
pub read_fields_lem :
    (fields : List (Signature × List ℕ))
    → All IsField fields
    → read_fields (fields_layout fields) ≡ some fields
unfolding read_fields fields_layout
read_fields_lem fields h =
    read_many_lem IsField read_field (λ f. field_layout (f.0) (f.1)) (λ f. f) fields_layout refl
      (λ f rest. refl) (λ f rest p. read_field_lem (f.0) (f.1) rest p)
      (λ f. field_layout-size (f.0) (f.1)) fields (length (fields_layout fields)) h (omega arith)
    ∙ ap (λ (l : List (Signature × List ℕ)). some l) (map-same fields)
