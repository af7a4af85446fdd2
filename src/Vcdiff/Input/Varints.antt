-- ===== src/Vcdiff/Input/Varints.antt =====
-- `DeltaInput::read_varint`, whose rounds are those of `SliceCursor::read_varint`, and the numbers of
-- RFC 3284, section 2.
use rust_crates.Prelude.{
  ℕ, zero, suc, ◌+◌, ◌≤◌, ◌<◌, ◌^◌, ◌≡◌, refl, sym, ap, ◌∙◌, List, ◌++◌, arith, Bool-cases,
  Option-cases, inl, inr,
}
use rust_crates.Prelude.{IsU64, length, drop, drop-drop, ◌==◌, bit_and, if◌then◌else◌}
use rust_crates.Vcdiff.Error.{DecodeContext, addresses, Result, ok}
use rust_crates.Vcdiff.Stream.{Stream, ReadsBytes}
use rust_crates.Vcdiff.Varint.{push_group}
use rust_crates.Vcdiff.Varint.Encoding.{encode}
use rust_crates.Vcdiff.Cursor
use rust_crates.Vcdiff.Cursor.{SliceCursor}
use rust_crates.Vcdiff.Cursor.Reads.{
  IsInside, IsInside-advance, advance, unread, unread-advance, read_u8-ok,
}
use rust_crates.Vcdiff.Cursor.Total.{List-cases, read_u8-empty}
use rust_crates.Vcdiff.Input.{DeltaInput, varint_loop, read_varint, context}
use rust_crates.Vcdiff.Input.Reading.{Reading, Moved}
use rust_crates.Vcdiff.Input.Exact.{read_u8_lem}

value_of : Result (ℕ × SliceCursor) → ℕ
value_of (ok p) = p.0
value_of _ = 0

pos_of : Result (ℕ × SliceCursor) → ℕ
pos_of (ok p) = p.1.pos
pos_of _ = 0

module _ {D : Stream} (law : ReadsBytes D) (fuel : ℕ) (content : List ℕ) where
  -- The delta gives the number `v` and moves as far as a cursor that goes from `p` to `q`.
  record Follows (v p q : ℕ) (input : DeltaInput D) (answer : Result (ℕ × DeltaInput D))
      : Type 0 where
    after : DeltaInput D
    answered : answer ≡ ok (v, after)
    reading : Reading law content after
    pos_moved : after.pos + p ≡ input.pos + q
    window_kept : after.window ≡ input.window
    section_kept : after.section ≡ input.section

  Follows-trans :
      {v p q q' : ℕ} {input middle : DeltaInput D} {answer : Result (ℕ × DeltaInput D)}
      → Moved law content 1 input middle
      → p + 1 ≡ q
      → Follows v q q' middle answer
      → Follows v p q' input answer
  Follows-trans m e f = record {
    after = f.after;
    answered = f.answered;
    reading = f.reading;
    pos_moved = omega (arith, m.pos_moved, f.pos_moved);
    window_kept = f.window_kept ∙ m.window_kept;
    section_kept = f.section_kept ∙ m.section_kept;
  }

  module _ (s t : DecodeContext) where
    -- One round, when both have read the same byte `b`.
    round_agrees :
        (r b w v : ℕ) (input after : DeltaInput D) (c d : SliceCursor)
        → Moved law content 1 input after
        → (Cursor.varint_loop r w s (advance 1 c) ≡ ok (v, d)
            → Follows v (c.pos + 1) d.pos after (varint_loop r (suc fuel) w t after))
        → (if bit_and b 0x80 == 0
            then ok (w, advance 1 c)
            else Cursor.varint_loop r w s (advance 1 c))
          ≡ ok (v, d)
        → Follows v c.pos d.pos input
            (if bit_and b 0x80 == 0 then ok (w, after) else varint_loop r (suc fuel) w t after)
    unfolding value_of pos_of
    round_agrees r b w v input after c d m again h = elim (Bool-cases (bit_and b 0x80 == 0)) [
      | inl last ↦
          let h' = rw last at h in
          rw last (record {
            after = after;
            answered =
                ap (λ (n : ℕ). let a : Result (ℕ × DeltaInput D) = ok (n, after) in a)
                  (ap value_of h');
            reading = m.reading;
            pos_moved = omega (arith, m.pos_moved, ap pos_of h');
            window_kept = m.window_kept;
            section_kept = m.section_kept;
          })
      | inr more ↦ rw more (Follows-trans m refl (again (rw more at h)))
    ]

    loop_agrees :
        (r value v : ℕ) (input : DeltaInput D) (c d : SliceCursor)
        → Reading law content input
        → IsInside c
        → unread c ≡ drop input.pos content
        → Cursor.varint_loop r value s c ≡ ok (v, d)
        → Follows v c.pos d.pos input (varint_loop r (suc fuel) value t input)
    unfolding varint_loop Cursor.varint_loop
    loop_agrees zero value v input c d reading i u h = absurd (cc h)
    loop_agrees (suc r) value v input c d reading i u h =
        elim (List-cases (drop input.pos content)) [
          | inl nothing ↦ absurd (cc (rw (read_u8-empty c i (u ∙ nothing)) at h))
          | inr (b, rest, shape) ↦
              let (after, e, m) = read_u8_lem law fuel content b rest input reading shape in
              let h' = rw (read_u8-ok c b rest i (u ∙ shape)) at h in
              let inside : IsInside (advance 1 c) =
                IsInside-advance 1 c i (omega (arith, ap (λ (l : List ℕ). length l) (u ∙ shape))) in
              let here : unread (advance 1 c) ≡ drop after.pos content =
                unread-advance 1 c
                ∙ ap (drop 1) u
                ∙ drop-drop input.pos 1 content
                ∙ ap (λ (n : ℕ). drop n content) (sym m.pos_moved) in
              elim (Option-cases (push_group value b)) [
                | inl over ↦ absurd (cc (rw over at h'))
                | inr (w, pushed) ↦
                    rw (e, pushed)
                      (round_agrees r b w v input after c d m
                        (loop_agrees r w v after (advance 1 c) d m.reading inside here)
                        (rw pushed at h'))
              ]
        ]

  -- Where the bytes of the delta that are not read yet begin with a number of 64 bits in `k + 1`
  -- groups, at most ten, `read_varint` gives that number and moves behind its groups, whatever
  -- pieces the stream gives out.
  pub delta_read_varint-encode :
      (k v : ℕ) (rest : List ℕ) (input : DeltaInput D)
      → Reading law content input
      → drop input.pos content ≡ encode k v ++ rest
      → k ≤ 9
      → v < 128 ^ suc k
      → IsU64 v
      → (after : DeltaInput D) × (read_varint (suc fuel) input ≡ ok (v, after))
        × Moved law content (k + 1) input after
  unfolding read_varint unread
  delta_read_varint-encode k v rest input r u few small fits =
      let c : SliceCursor = record {
        bytes = content;
        pos = input.pos;
        base_offset = 0;
        window = 0;
        section = addresses;
      } in
      let i : IsInside c = record { within = r.pos_within; sized = r.sized } in
      let f =
        loop_agrees (Cursor.context c) (context input) 10 0 v input c (advance (k + 1) c) r i refl (
          unfold Cursor.read_varint in
          Cursor.Varints.read_varint-encode k v c rest i u few small fits) in
      (
        f.after,
        f.answered,
        record {
          reading = f.reading;
          pos_moved = omega (arith, f.pos_moved);
          window_kept = f.window_kept;
          section_kept = f.section_kept;
        },
      )
