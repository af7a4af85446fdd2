-- ===== src/Vcdiff/Input/Exact.antt =====
-- `read_u8`, `read_exact` and `skip` give the bytes of the delta, whatever pieces the stream returns.
use rust_crates.Prelude.{
  ℕ, zero, suc, ◌+◌, ◌-◌, ◌≤◌, ◌<◌, ◌≡◌, refl, true, false, sym, ap, ap₂, ◌∙◌, some, List, [], ◌∷◌,
  ◌++◌, arith, min,
}
use rust_crates.Prelude.{
  length, take, drop, get_elem?, get_elem?-drop, length-drop, drop-drop, take-take, take-take-drop,
  ltb, lt→ltb, ltb-false, ==_iff,
}
use rust_crates.Vcdiff.Error.{ok}
use rust_crates.Vcdiff.Stream.{Stream, ReadsBytes}
use rust_crates.Vcdiff.Input.{DeltaInput, read_u8, read_exact_loop, read_exact, skip}
use rust_crates.Vcdiff.Input.Reading.{Reading, Moved, consume, refill_lem}

module _ {D : Stream} (law : ReadsBytes D) where
  pub Moved-trans :
      {content : List ℕ} {m n k : ℕ} {input middle after : DeltaInput D}
      → m + n ≡ k
      → Moved law content m input middle
      → Moved law content n middle after
      → Moved law content k input after
  Moved-trans e p q = record {
    reading = q.reading;
    pos_moved = omega (arith, p.pos_moved, q.pos_moved);
    window_kept = q.window_kept ∙ p.window_kept;
    section_kept = q.section_kept ∙ p.section_kept;
  }

  -- In a filled buffer the next byte is the next byte of the delta.
  next_byte :
      (content : List ℕ) (b : ℕ) (rest : List ℕ) (input : DeltaInput D)
      → Reading law content input
      → input.buffer_pos < length input.buffer
      → drop input.pos content ≡ b ∷ rest
      → get_elem? input.buffer input.buffer_pos ≡ some b
  next_byte content b rest input r h u =
      let n : ℕ = length input.buffer - input.buffer_pos in
      let here : input.buffer_pos ≡ input.buffer_pos + 0 = omega arith in
      let positive : n ≡ suc (n - 1) = omega arith in
      ap (λ (k : ℕ). get_elem? input.buffer k) here
      ∙ sym (get_elem?-drop input.buffer input.buffer_pos 0)
      ∙ ap (λ (l : List ℕ). get_elem? l 0) r.buffered
      ∙ ap₂ (λ (m : ℕ) (l : List ℕ). get_elem? (take m l) 0) positive u

  -- Where the delta has a byte left, `read_u8` gives it and moves one byte on.
  pub read_u8_lem :
      (fuel : ℕ) (content : List ℕ) (b : ℕ) (rest : List ℕ) (input : DeltaInput D)
      → Reading law content input
      → drop input.pos content ≡ b ∷ rest
      → (after : DeltaInput D) × (read_u8 (suc fuel) input ≡ ok (b, after))
        × Moved law content 1 input after
  unfolding read_u8
  read_u8_lem fuel content b rest input r u =
      let left = ap (λ (l : List ℕ). length l) u in
      let more : input.pos < length content = omega (arith, left, length-drop input.pos content) in
      let (filled, e, m, h) = refill_lem law fuel content input r more in
      let same : filled.pos ≡ input.pos = omega (arith, m.pos_moved) in
      let u' : drop filled.pos content ≡ b ∷ rest = rw same u in
      let fits : ltb (filled.pos + 1) 0x1_0000_0000_0000_0000 ≡ true =
        lt→ltb _ _ (omega (arith, r.sized)) in
      let moved = consume law content 1 (filled.pos + 1) filled m.reading (omega arith) refl in
      (
        record filled { buffer_pos = filled.buffer_pos + 1; pos = filled.pos + 1 },
        rw (e, next_byte content b rest filled m.reading h u', fits),
        Moved-trans (omega arith) m moved,
      )

  read_exact_loop_lem :
      (rounds fuel wanted : ℕ) (content : List ℕ) (input : DeltaInput D)
      → Reading law content input
      → wanted ≤ rounds
      → input.pos + wanted ≤ length content
      → (after : DeltaInput D) × (read_exact_loop rounds (suc fuel) wanted input
          ≡ ok (take wanted (drop input.pos content), after))
        × Moved law content wanted input after
  unfolding read_exact_loop
  read_exact_loop_lem rounds fuel zero content input r w h = (
    input,
    refl,
    record { reading = r; pos_moved = omega arith; window_kept = refl; section_kept = refl },
  )
  read_exact_loop_lem zero fuel (suc wanted) content input r w h = absurd (omega arith)
  read_exact_loop_lem (suc rounds) fuel (suc wanted) content input r w h =
      let (filled, e, m, some_left) = refill_lem law fuel content input r (omega arith) in
      let f = m.reading in
      let same : filled.pos ≡ input.pos = omega (arith, m.pos_moved) in
      let available : ℕ = length filled.buffer - filled.buffer_pos in
      let count : ℕ = min available (suc wanted) in
      let fits : ltb (filled.pos + count) 0x1_0000_0000_0000_0000 ≡ true =
        lt→ltb _ _ (omega (arith, r.sized)) in
      let moved = consume law content count (filled.pos + count) filled f (omega arith) refl in
      let middle : DeltaInput D = record filled {
        buffer_pos = filled.buffer_pos + count;
        pos = filled.pos + count;
      } in
      let (after, e', m') =
        read_exact_loop_lem rounds fuel (suc wanted - count) content middle moved.reading
          (omega arith) (omega arith) in
      let front : take count (drop filled.buffer_pos filled.buffer)
          ≡ take count (drop input.pos content) =
        ap (take count) f.buffered
        ∙ take-take count available (drop filled.pos content) (omega arith)
        ∙ ap (λ (n : ℕ). take count (drop n content)) same in
      let back : take (suc wanted - count) (drop (filled.pos + count) content)
          ≡ take (suc wanted - count) (drop count (drop input.pos content)) =
        ap (take (suc wanted - count)) (
          ap (λ (n : ℕ). drop (n + count) content) same
          ∙ sym (drop-drop input.pos count content)) in
      let sum : count + (suc wanted - count) ≡ suc wanted = omega arith in
      let whole : take count (drop input.pos content)
            ++ take (suc wanted - count) (drop count (drop input.pos content))
          ≡ take (suc wanted) (drop input.pos content) =
        take-take-drop count (suc wanted - count) (drop input.pos content)
        ∙ ap (λ (n : ℕ). take n (drop input.pos content)) sum in
      (
        after,
        rw (e, fits, e') (λ j. ok ((ap₂ (λ (a b : List ℕ). a ++ b) front back ∙ whole) j, after)),
        Moved-trans (let z : 0 + suc wanted ≡ suc wanted = omega arith in z) m
            (Moved-trans sum moved m'),
      )

  -- Whatever pieces the stream gives out, `read_exact` gives exactly the next `n` bytes of the delta
  -- and moves behind them, if that many are left.
  pub read_exact_lem :
      (fuel n : ℕ) (content : List ℕ) (input : DeltaInput D)
      → Reading law content input
      → input.pos + n ≤ length content
      → (after : DeltaInput D) × (read_exact (suc fuel) n input
          ≡ ok (take n (drop input.pos content), after))
        × Moved law content n input after
  unfolding read_exact
  read_exact_lem fuel n content input r h =
      let fits : ltb (input.pos + n) 0x1_0000_0000_0000_0000 ≡ true =
        lt→ltb _ _ (omega (arith, r.sized)) in
      let inside : ltb input.len (input.pos + n) ≡ false =
        ltb-false _ _ (omega (arith, r.len_known)) in
      let (after, e, m) = read_exact_loop_lem n fuel n content input r (omega arith) h in
      (after, rw (fits, inside) e, m)

  -- Where `n` more bytes of the delta are left, `skip` moves behind them with a single seek of the
  -- stream to the place behind them, after which the stream is the one the seek left, nothing is
  -- buffered and the input reads the delta from there.
  pub skip_lem :
      (n : ℕ) (content : List ℕ) (input : DeltaInput D)
      → Reading law content input
      → input.pos + n ≤ length content
      → (after : DeltaInput D) × (skip n input ≡ ok after)
        × Moved law content n input after
        × (after.reader ≡ law.seek_next (input.pos + n) input.reader)
        × (after.buffer ≡ [])
        × (after.buffer_pos ≡ 0)
  unfolding skip
  skip_lem n content input r h =
      let fits : ltb (input.pos + n) 0x1_0000_0000_0000_0000 ≡ true =
        lt→ltb _ _ (omega (arith, r.sized)) in
      let inside : ltb input.len (input.pos + n) ≡ false =
        ltb-false _ _ (omega (arith, r.len_known)) in
      let next : D.State = law.seek_next (input.pos + n) input.reader in
      (
        record input { reader = next; pos = input.pos + n; buffer = []; buffer_pos = 0 },
        rw (
          fits,
          inside,
          law.seek_gives (input.pos + n) input.reader tt,
          (==_iff (input.pos + n) (input.pos + n)).1 refl,
        ),
        record {
          reading = record {
            sized = r.sized;
            len_known = r.len_known;
            pos_within = h;
            buffer_within = omega arith;
            stream_bytes = law.seek_keeps (input.pos + n) input.reader ∙ r.stream_bytes;
            stream_ahead = omega (arith, law.seek_moves (input.pos + n) input.reader);
            stream_within = omega (arith, law.seek_moves (input.pos + n) input.reader);
            buffered = refl;
          };
          pos_moved = refl;
          window_kept = refl;
          section_kept = refl;
        },
        refl,
        refl,
        refl,
      )
