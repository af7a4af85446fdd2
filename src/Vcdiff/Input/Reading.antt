-- ===== src/Vcdiff/Input/Reading.antt =====
-- The buffered input refines a position in the bytes of the delta.
use rust_crates.Prelude.{
  ℕ, suc, ◌+◌, ◌-◌, ◌≤◌, ◌<◌, ◌≡◌, refl, true, false, sym, ap, ap₂, ◌∙◌, List, [], ◌∷◌, arith, min,
  Bool-cases, inl, inr,
}
use rust_crates.Prelude.{
  IsU64, length, take, drop, length-take, length-drop, drop-drop, drop-take, ◌==◌, leb, ltb, lt→ltb,
  ==_iff,
}
use rust_crates.Vcdiff.Error.{ok}
use rust_crates.Vcdiff.Stream.{Stream, ReadsBytes, done}
use rust_crates.Vcdiff.Input.{DeltaInput, fill_loop, fill, refill, input_buffer_size}

module _ {D : Stream} (law : ReadsBytes D) where
  -- The input stands at `pos` in `content`, the buffer holds the bytes that follow, and the stream
  -- stands behind them.
  pub record Reading (content : List ℕ) (input : DeltaInput D) : Type 0 where
    pub sized : IsU64 (length content)
    pub len_known : input.len ≡ length content
    pub pos_within : input.pos ≤ length content
    pub buffer_within : input.buffer_pos ≤ length input.buffer
    pub stream_bytes : law.bytes input.reader ≡ content
    pub stream_ahead :
        law.position input.reader + input.buffer_pos ≡ input.pos + length input.buffer
    pub stream_within : law.position input.reader ≤ length content
    pub buffered :
        drop input.buffer_pos input.buffer
        ≡ take (length input.buffer - input.buffer_pos) (drop input.pos content)

  -- What a successful read of `n` bytes leaves.
  pub record Moved (content : List ℕ) (n : ℕ) (input after : DeltaInput D) : Type 0 where
    pub reading : Reading content after
    pub pos_moved : after.pos ≡ input.pos + n
    pub window_kept : after.window ≡ input.window
    pub section_kept : after.section ≡ input.section

  pub consume :
      (content : List ℕ) (count pos' : ℕ) (input : DeltaInput D)
      → Reading content input
      → input.buffer_pos + count ≤ length input.buffer
      → pos' ≡ input.pos + count
      → Moved content count input
          (record input { buffer_pos = input.buffer_pos + count; pos = pos' })
  consume content count pos' input r h e = record {
    reading = record {
      sized = r.sized;
      len_known = r.len_known;
      pos_within = omega (arith, r.stream_ahead, r.stream_within);
      buffer_within = h;
      stream_bytes = r.stream_bytes;
      stream_ahead = omega (arith, r.stream_ahead);
      stream_within = r.stream_within;
      buffered =
          sym (drop-drop input.buffer_pos count input.buffer)
          ∙ ap (drop count) r.buffered
          ∙ drop-take count (length input.buffer - input.buffer_pos) (drop input.pos content)
          ∙ ap₂ (λ (n : ℕ) (l : List ℕ). take n l) (omega arith)
              (drop-drop input.pos count content ∙ ap (λ (n : ℕ). drop n content) (sym e));
    };
    pos_moved = e;
    window_kept = refl;
    section_kept = refl;
  }

  nonempty : (l : List ℕ) → 0 < length l → (b : ℕ) × (rest : List ℕ) × (l ≡ b ∷ rest)
  nonempty [] h = elim h [ ]
  nonempty (b ∷ rest) h = (b, rest, refl)

  fill_eq :
      (fuel b : ℕ) (bs : List ℕ) (next : D.State) (input : DeltaInput D)
      → input.pos < input.len
      → D.read (min (input.len - input.pos) input_buffer_size) input.reader ≡ (done (b ∷ bs), next)
      → fill (suc fuel) input ≡ ok (record input { reader = next; buffer = b ∷ bs; buffer_pos = 0 })
  unfolding fill fill_loop
  fill_eq fuel b bs next input h e =
      let past : leb input.len input.pos ≡ false = ground arith in
      let fits : ltb (min (input.len - input.pos) 65536) 0x1_0000_0000_0000_0000 ≡ true =
        lt→ltb _ _ (omega arith) in
      rw (past, fits, e)

  -- A read of the stream into the empty buffer.
  fill_lem :
      (fuel : ℕ) (content : List ℕ) (input : DeltaInput D)
      → Reading content input
      → input.buffer_pos ≡ length input.buffer
      → input.pos < length content
      → (after : DeltaInput D) × (fill (suc fuel) input ≡ ok after)
        × Moved content 0 input after
        × (after.buffer_pos < length after.buffer)
  fill_lem fuel content input r empty more =
      let request : ℕ = min (input.len - input.pos) input_buffer_size in
      let k : ℕ = law.read_count request input.reader in
      let next : D.State = law.read_next request input.reader in
      let at : law.position input.reader ≡ input.pos = omega (arith, r.stream_ahead) in
      let some_read : 0 < k =
        law.read_some request input.reader (omega (arith, r.len_known))
          (rw r.stream_bytes (omega arith)) in
      let inside : input.pos + k ≤ length content =
        rw (at, r.stream_bytes) at
          (law.read_inside request input.reader (rw r.stream_bytes r.stream_within)) in
      let got : List ℕ = take k (drop input.pos content) in
      let size : length got ≡ k =
        omega (arith, length-take k (drop input.pos content), length-drop input.pos content) in
      let (b, bs, shape) = nonempty got (omega arith) in
      let gives : D.read request input.reader ≡ (done (b ∷ bs), next) =
        law.read_gives request input.reader tt (rw r.stream_bytes r.stream_within)
          (rw r.stream_bytes r.sized)
        ∙ (λ j. (done (take k (drop (at j) (r.stream_bytes j))), next))
        ∙ (λ j. (done (shape j), next)) in
      let size' : suc (length bs) ≡ k = sym (ap (λ (l : List ℕ). length l) shape) ∙ size in
      (
        record input { reader = next; buffer = b ∷ bs; buffer_pos = 0 },
        fill_eq fuel b bs next input (omega (arith, r.len_known)) gives,
        record {
          reading = record {
            sized = r.sized;
            len_known = r.len_known;
            pos_within = r.pos_within;
            buffer_within = omega arith;
            stream_bytes = law.read_keeps request input.reader ∙ r.stream_bytes;
            stream_ahead = omega (arith, law.read_moves request input.reader);
            stream_within = omega (arith, law.read_moves request input.reader);
            buffered = sym shape ∙ ap (λ (n : ℕ). take n (drop input.pos content)) (omega arith);
          };
          pos_moved = omega arith;
          window_kept = refl;
          section_kept = refl;
        },
        omega arith,
      )

  -- `refill` leaves a byte in the buffer.
  pub refill_lem :
      (fuel : ℕ) (content : List ℕ) (input : DeltaInput D)
      → Reading content input
      → input.pos < length content
      → (after : DeltaInput D) × (refill (suc fuel) input ≡ ok after)
        × Moved content 0 input after
        × (after.buffer_pos < length after.buffer)
  unfolding refill
  refill_lem fuel content input r more =
      elim (Bool-cases (input.buffer_pos == length input.buffer)) [
        | inl empty ↦
            let (after, e, m, h) =
              fill_lem fuel content input r
                ((==_iff input.buffer_pos (length input.buffer)).0 empty) more in
            (after, rw empty e, m, h)
        | inr full ↦ (
          input,
          rw full,
          record { reading = r; pos_moved = omega arith; window_kept = refl; section_kept = refl },
          ground (arith, r.buffer_within),
        )
      ]
