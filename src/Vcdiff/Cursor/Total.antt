-- ===== src/Vcdiff/Cursor/Total.antt =====
-- `SliceCursor::read_varint` on any bytes: it answers, and what it reads is in bounds.
use rust_crates.Prelude.{
  ℕ, zero, suc, ◌+◌, ◌≤◌, ◌<◌, ◌≡◌, ◌⊎◌, inl, inr, refl, sym, subst, ap, some, Option-cases, List,
  [], ◌∷◌, arith,
}
use rust_crates.Prelude.{IsU64, length, ◌==◌, bit_and, Bool-cases, if◌then◌else◌}
use rust_crates.Vcdiff.Error.{
  DecodeContext, DecodeError, Result, ok, err, varint_overflow, section_out_of_bounds,
}
use rust_crates.Vcdiff.Varint.{push_group}
use rust_crates.Vcdiff.Varint.Encoding.{push_group-IsU64}
use rust_crates.Vcdiff.Cursor.{SliceCursor, remaining, context, read_u8, varint_loop, read_varint}
use rust_crates.Vcdiff.Cursor.Reads.{
  IsInside, advance, unread, length-unread, read_u8-ok, read_slice-err,
}
use rust_crates.Vcdiff.Cursor.Varints.{at_pos}

-- What a read of a number may come to.
pub data Reads (c : SliceCursor) : Result (ℕ × SliceCursor) → Type 0 where
  reads :
      (v n : ℕ) → IsU64 v → 0 < n → n ≤ 10 → IsInside (advance n c) → Reads c (ok (v, advance n c))
  refused : (e : DecodeError) → Reads c (err e)

pub List-cases : (l : List ℕ) → (l ≡ []) ⊎ ((b : ℕ) × (rest : List ℕ) × (l ≡ b ∷ rest))
List-cases [] = inl refl
List-cases (b ∷ rest) = inr (b, rest, refl)

pub read_u8-empty :
    (c : SliceCursor)
    → IsInside c
    → unread c ≡ []
    → read_u8 c ≡ err (section_out_of_bounds c.section 1 (remaining c) (context c))
unfolding read_u8
read_u8-empty c i u =
    rw (read_slice-err 1 c i (omega (arith, ap (λ (l : List ℕ). length l) u, length-unread c)))

-- The loop with `r` rounds left, `m` bytes behind the start.
loop-Reads :
    (start : DecodeContext) (r m value : ℕ) (c : SliceCursor)
    → IsInside (advance m c)
    → r + m ≡ 10
    → Reads c (varint_loop r value start (advance m c))
unfolding varint_loop
loop-Reads start zero m value c i h = refused (varint_overflow start)
loop-Reads start (suc r) m value c i h = elim (List-cases (unread (advance m c))) [
  | inl none_left ↦ rw (read_u8-empty (advance m c) i none_left) (refused _)
  | inr (b, rest, u) ↦
      rw (read_u8-ok (advance m c) b rest i u) (elim (Option-cases (push_group value b)) [
        | inl too_big ↦ rw too_big (refused _)
        | inr (v, pushed) ↦ rw pushed (
            round b rest u v pushed
              (loop-Reads start r (m + 1) v c (behind b rest u) (omega arith)))
      ])
]
  where
    behind :
        (b : ℕ) (rest : List ℕ) → unread (advance m c) ≡ b ∷ rest → IsInside (advance (m + 1) c)
    behind b rest u = record {
      within =
          omega (arith, ap (λ (l : List ℕ). length l) u, length-unread (advance m c), i.within);
      sized = i.sized;
    }

    same : advance (m + 1) c ≡ advance 1 (advance m c)
    same = at_pos c (c.pos + (m + 1)) (c.pos + m + 1) (omega arith)

    round :
        (b : ℕ) (rest : List ℕ)
        → unread (advance m c) ≡ b ∷ rest
        → (v : ℕ) → push_group value b ≡ some v
        → Reads c (varint_loop r v start (advance (m + 1) c))
        → Reads c (
            if bit_and b 0x80 == 0
            then ok (v, advance 1 (advance m c))
            else varint_loop r v start (advance 1 (advance m c)))
    round b rest u v pushed again = rw (← same) (elim (Bool-cases (bit_and b 0x80 == 0)) [
      | inl last ↦ rw last (
          reads v (m + 1) (push_group-IsU64 value b v pushed) (omega arith) (omega arith)
            (behind b rest u))
      | inr more ↦ rw more again
    ])

-- Inside its section `read_varint` always comes to an answer: a number of 64 bits, from one to ten
-- bytes that the cursor moves behind without leaving the section, or an error; it never panics.
pub read_varint-Reads : (c : SliceCursor) → IsInside c → Reads c (read_varint c)
unfolding read_varint
read_varint-Reads c i =
    let e : c.pos ≡ c.pos + 0 = omega arith in
    subst (λ d. Reads c (varint_loop 10 0 (context c) d)) (sym (at_pos c c.pos (c.pos + 0) e))
      (loop-Reads (context c) 10 0 0 c
        (record { within = omega (arith, i.within); sized = i.sized }) (omega arith))
