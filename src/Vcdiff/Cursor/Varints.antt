-- ===== src/Vcdiff/Cursor/Varints.antt =====
-- `SliceCursor::read_varint` against the encoding of RFC 3284, section 2.
use rust_crates.Prelude.{
  ℕ, zero, suc, ◌+◌, ◌-◌, ◌*◌, ◌/◌, ◌%◌, ◌^◌, ◌≤◌, ◌<◌, ◌≡◌, ◌⊎◌, inl, inr, refl, sym, ap, ◌∙◌,
  List, [], ◌∷◌, ◌++◌, arith, append_assoc,
}
use rust_crates.Prelude.{IsByte, IsU64, length, drop, length-append, drop-append}
use native.Mathlib.Nat.{pow-suc}
use native.Mathlib.Decide.{dec_lt}
use rust_crates.Vcdiff.Error.{DecodeContext, ok, err, varint_overflow}
use rust_crates.Vcdiff.Varint.Encoding.{
  leading, encode, length-leading, push_group-some, push_group-none, more_bit, last_bit,
}
use rust_crates.Vcdiff.Cursor.{SliceCursor, context, varint_loop, read_varint}
use rust_crates.Vcdiff.Cursor.Reads.{
  IsInside, IsInside-advance, advance, unread, unread-advance, read_u8-ok,
}

pub at_pos : (c : SliceCursor) (p q : ℕ) → p ≡ q → record c { pos = p } ≡ record c { pos = q }
at_pos c p q e i = record c { pos = e i }

module _ (start : DecodeContext) where
  loop_last :
      (r value b : ℕ) (c : SliceCursor) (rest : List ℕ)
      → IsInside c
      → unread c ≡ b ∷ rest
      → b < 128
      → IsU64 (value * 128 + b)
      → varint_loop (suc r) value start c ≡ ok (value * 128 + b, advance 1 c)
  unfolding varint_loop
  loop_last r value b c rest i u h fits =
      let e : value * 128 + b % 128 ≡ value * 128 + b = omega arith in
      rw (
        read_u8-ok c b rest i u,
        push_group-some value b (omega arith) (omega arith),
        last_bit b h,
        e,
      )

  loop_more :
      (r value g : ℕ) (c : SliceCursor) (rest : List ℕ)
      → IsInside c
      → unread c ≡ (g + 128) ∷ rest
      → g < 128
      → IsU64 (value * 128 + g)
      → varint_loop (suc r) value start c ≡ varint_loop r (value * 128 + g) start (advance 1 c)
  unfolding varint_loop
  loop_more r value g c rest i u h fits =
      let e : value * 128 + (g + 128) % 128 ≡ value * 128 + g = omega arith in
      rw (
        read_u8-ok c (g + 128) rest i u,
        push_group-some value (g + 128) (omega arith) (omega arith),
        more_bit g h,
        e,
      )

  loop_overflow :
      (r value b : ℕ) (c : SliceCursor) (rest : List ℕ)
      → IsInside c
      → unread c ≡ b ∷ rest
      → IsByte b
      → 0x1_0000_0000_0000_0000 ≤ value * 128 + b % 128
      → varint_loop (suc r) value start c ≡ err (varint_overflow start)
  unfolding varint_loop
  loop_overflow r value b c rest i u h big =
      rw (read_u8-ok c b rest i u, push_group-none value b h big)

  -- What stands behind `n` bytes that are known.
  unread_behind :
      (front : List ℕ) (n : ℕ) (c : SliceCursor) (rest : List ℕ)
      → length front ≡ n
      → unread c ≡ front ++ rest
      → unread (advance n c) ≡ rest
  unread_behind front n c rest l u =
      unread-advance n c
      ∙ ap (drop n) u
      ∙ ap (λ (k : ℕ). drop k (front ++ rest)) (sym l)
      ∙ drop-append front rest

  IsInside-behind :
      (front : List ℕ) (n : ℕ) (c : SliceCursor) (rest : List ℕ)
      → length front ≡ n
      → IsInside c
      → unread c ≡ front ++ rest
      → IsInside (advance n c)
  IsInside-behind front n c rest l i u =
      IsInside-advance n c i
        (omega (arith, ap (λ (t : List ℕ). length t) u, length-append front rest))

  loop_same :
      {r r' v v' : ℕ} {c c' : SliceCursor}
      → r ≡ r'
      → v ≡ v'
      → c ≡ c'
      → varint_loop r v start c ≡ varint_loop r' v' start c'
  loop_same p q s i = varint_loop (p i) (q i) start (s i)

  -- The leading groups bring the loop to the number that they spell.
  loop-leading :
      (k v r : ℕ) (c : SliceCursor) (rest : List ℕ)
      → IsInside c
      → unread c ≡ leading k v ++ rest
      → v < 128 ^ k
      → IsU64 v
      → varint_loop (k + r) 0 start c ≡ varint_loop r v start (advance k c)
  unfolding leading
  loop-leading zero v r c rest i u small fits =
      loop_same (omega arith) (omega arith) (at_pos c c.pos (c.pos + 0) (omega arith))
  loop-leading (suc k) v r c rest i u small fits =
      let b : ℕ = v % 128 + 128 in
      let u' : unread c ≡ leading k (v / 128) ++ (b ∷ rest) =
        u ∙ append_assoc (leading k (v / 128)) (b ∷ []) rest in
      let l = length-leading k (v / 128) in
      let turn : suc k + r ≡ k + suc r = omega arith in
      let whole : v / 128 * 128 + v % 128 ≡ v = omega arith in
      ap (λ (n : ℕ). varint_loop n 0 start c) turn
      ∙ loop-leading k (v / 128) (suc r) c (b ∷ rest) i u' (omega (arith, pow-suc 128 k))
          (omega arith)
      ∙ loop_more r (v / 128) (v % 128) (advance k c) rest
          (IsInside-behind (leading k (v / 128)) k c (b ∷ rest) l i u')
          (unread_behind (leading k (v / 128)) k c (b ∷ rest) l u') (omega arith) (omega arith)
      ∙ loop_same refl whole (at_pos c (c.pos + k + 1) (c.pos + suc k) (omega arith))

-- At any place of a section that holds a number of 64 bits in `k + 1` groups, at most ten,
-- `read_varint` gives that number and moves behind it. This holds of padded forms too.
pub read_varint-encode :
    (k v : ℕ) (c : SliceCursor) (rest : List ℕ)
    → IsInside c
    → unread c ≡ encode k v ++ rest
    → k ≤ 9
    → v < 128 ^ suc k
    → IsU64 v
    → read_varint c ≡ ok (v, advance (k + 1) c)
unfolding read_varint encode
read_varint-encode k v c rest i u h small fits =
    let start = context c in
    let g : ℕ = v % 128 in
    let u' : unread c ≡ leading k (v / 128) ++ (g ∷ rest) =
      u ∙ append_assoc (leading k (v / 128)) (g ∷ []) rest in
    let l = length-leading k (v / 128) in
    let whole : v / 128 * 128 + v % 128 ≡ v = omega arith in
    loop_same start (let e : 10 ≡ k + suc (9 - k) = omega arith in e) refl refl
    ∙ loop-leading start k (v / 128) (suc (9 - k)) c (g ∷ rest) i u' (omega (arith, pow-suc 128 k))
        (omega arith)
    ∙ loop_last start (9 - k) (v / 128) g (advance k c) rest
        (IsInside-behind start (leading k (v / 128)) k c (g ∷ rest) l i u')
        (unread_behind start (leading k (v / 128)) k c (g ∷ rest) l u') (omega arith) (omega arith)
    ∙ (λ j. ok (whole j, at_pos c (c.pos + k + 1) (c.pos + (k + 1)) (omega arith) j))

too_long :
    (k v : ℕ) (c : SliceCursor) (rest : List ℕ)
    → IsInside c
    → unread c ≡ leading k v ++ rest
    → k ≡ 10
    → v < 128 ^ k
    → IsU64 v
    → read_varint c ≡ err (varint_overflow (context c))
unfolding read_varint
too_long k v c rest i u ten small fits =
    loop_same (context c) (let e : 10 ≡ k + 0 = omega arith in e) refl refl
    ∙ loop-leading (context c) k v 0 c rest i u small fits
    ∙ unfold varint_loop in refl

too_big :
    (k v b : ℕ) (c : SliceCursor) (rest : List ℕ)
    → IsInside c
    → unread c ≡ leading k v ++ (b ∷ rest)
    → k ≤ 9
    → v < 128 ^ k
    → IsU64 v
    → IsByte b
    → 0x1_0000_0000_0000_0000 ≤ v * 128 + b % 128
    → read_varint c ≡ err (varint_overflow (context c))
unfolding read_varint
too_big k v b c rest i u few small fits byte big =
    let start = context c in
    loop_same start (let e : 10 ≡ k + suc (9 - k) = omega arith in e) refl refl
    ∙ loop-leading start k v (suc (9 - k)) c (b ∷ rest) i u small fits
    ∙ loop_overflow start (9 - k) v b (advance k c) rest
        (IsInside-behind start (leading k v) k c (b ∷ rest) (length-leading k v) i u)
        (unread_behind start (leading k v) k c (b ∷ rest) (length-leading k v) u) byte big

-- Behind `k` leading groups that spell a number of 64 bits, the read is refused as a varint overflow
-- at the place where the number starts, if ten groups were read already, or if the next group
-- takes the number past 64 bits.
pub read_varint_overflow :
    (k v b : ℕ) (c : SliceCursor) (rest : List ℕ)
    → IsInside c
    → unread c ≡ leading k v ++ (b ∷ rest)
    → k ≤ 10
    → v < 128 ^ k
    → IsU64 v
    → IsByte b
    → (k ≡ 10) ⊎ (0x1_0000_0000_0000_0000 ≤ v * 128 + b % 128)
    → read_varint c ≡ err (varint_overflow (context c))
read_varint_overflow k v b c rest i u h small fits byte (inl ten) =
    too_long k v c (b ∷ rest) i u ten small fits
read_varint_overflow k v b c rest i u h small fits byte (inr big) = elim (dec_lt k 10) [
  | yes few ↦ too_big k v b c rest i u (omega arith) small fits byte big
  | no many ↦ too_long k v c (b ∷ rest) i u (omega arith) small fits
]
