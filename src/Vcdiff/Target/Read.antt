-- ===== src/Vcdiff/Target/Read.antt =====
-- Reading the output back gives exactly its bytes and leaves the writer at its end.
use rust_crates.Prelude.{
  ℕ, zero, suc, ◌+◌, ◌-◌, ◌≤◌, ◌<◌, ◌≡◌, refl, sym, ap, ap₂, ◌∙◌, subst, List, [], ◌∷◌, ◌++◌, arith,
  true, append-nil, Bool-cases, inl, inr,
}
use rust_crates.Prelude.{
  IsU64, length, take, drop, length-take, length-drop, drop-drop, take-take-drop, ◌==◌, ==_iff, ltb,
  lt→ltb,
}
use rust_crates.Vcdiff.Error.{ok, ByteRange, DecodeContext}
use rust_crates.Vcdiff.Stream.{Stream, WritesBytes, done}
use rust_crates.Vcdiff.Target.{
  TargetWriter, io_buffer_size, read_loop, read_target, seek_if_elsewhere, flush_target,
  seek_target, after_seek, after_flush,
}
use rust_crates.Vcdiff.Target.Drain.{Writing, Kept, Drained, drain_pending_lem}

nonempty : (l : List ℕ) → 0 < length l → (b : ℕ) × (rest : List ℕ) × (l ≡ b ∷ rest)
nonempty [] h = absurd (omega arith)
nonempty (b ∷ rest) h = (b, rest, refl)

module _ {T : Stream} (law : WritesBytes T) where
  -- Nothing is pending, the target holds `content`, flushed, and stands at `at`.
  record Standing (content : List ℕ) (at : ℕ) (w : TargetWriter T) : Type 0 where
    holds : law.bytes w.target ≡ content
    place : w.physical_pos ≡ at
    stands : law.position w.target ≡ at
    empty : w.pending ≡ []
    flushed : law.IsFlushed w.target

  Kept-refl : (w : TargetWriter T) → Kept law w w
  Kept-refl w = record {
    adler_kept = refl;
    scratch_kept = refl;
    len_kept = refl;
    window_kept = refl;
    context_kept = refl;
  }

  read_loop_lem :
      (fuel wanted at : ℕ) (content : List ℕ) (range : ByteRange) (w : TargetWriter T)
      → wanted ≤ fuel
      → Standing content at w
      → at + wanted ≤ length content
      → IsU64 (length content)
      → (w' : TargetWriter T) × (read_loop fuel wanted range w
          ≡ ok (take wanted (drop at content), w'))
        × Standing content (at + wanted) w'
        × Kept law w w'
  unfolding read_loop
  read_loop_lem fuel zero at content range w f s h u =
      let e : at ≡ at + 0 = omega arith in
      (w, refl, subst (λ (n : ℕ). Standing content n w) e s, Kept-refl w)
  read_loop_lem zero (suc wanted) at content range w f s h u = absurd (omega arith)
  read_loop_lem (suc fuel) (suc wanted) at content range w f s h u =
      let k : ℕ = law.read_count (suc wanted) w.target in
      let next : T.State = law.read_next (suc wanted) w.target in
      let positive : 0 < k =
        law.read_some (suc wanted) w.target (omega arith) (rw s.holds (omega (arith, s.stands))) in
      let fits : k ≤ suc wanted = law.read_fits (suc wanted) w.target in
      let got : List ℕ = take k (drop at content) in
      let size : length got ≡ k =
        omega (arith, length-take k (drop at content), length-drop at content) in
      let (b, bs, shape) = nonempty got (omega arith) in
      let gives : T.read (suc wanted) w.target ≡ (done (b ∷ bs), next) =
        law.read_gives (suc wanted) w.target s.flushed (rw s.holds (omega (arith, s.stands)))
          (rw s.holds u)
        ∙ (λ j. (done (take k (drop (s.stands j) (s.holds j))), next))
        ∙ (λ j. (done (shape j), next)) in
      let count : suc (length bs) ≡ k = sym (ap (λ (l : List ℕ). length l) shape) ∙ size in
      let room : ltb (w.physical_pos + suc (length bs)) 0x1_0000_0000_0000_0000 ≡ true =
        lt→ltb _ _ (omega (arith, s.place)) in
      let w1 : TargetWriter T = record w {
        target = next;
        physical_pos = w.physical_pos + suc (length bs);
      } in
      let (w', e', s', kept) =
        read_loop_lem fuel (suc wanted - suc (length bs)) (at + k) content range w1 (omega arith)
          (record {
            holds = law.read_keeps (suc wanted) w.target ∙ s.holds;
            place = omega (arith, s.place);
            stands = omega (arith, law.read_moves (suc wanted) w.target, s.stands);
            empty = s.empty;
            flushed = law.read_ready (suc wanted) w.target s.flushed;
          })
          (omega arith) u in
      let left : suc wanted - suc (length bs) ≡ suc wanted - k = omega arith in
      let sum : k + (suc wanted - suc (length bs)) ≡ suc wanted = omega arith in
      let ends : at + k + (suc wanted - suc (length bs)) ≡ at + suc wanted = omega arith in
      let whole : (b ∷ bs) ++ take (suc wanted - suc (length bs)) (drop (at + k) content)
          ≡ take (suc wanted) (drop at content) =
        ap₂ (λ (x y : List ℕ). x ++ take (suc wanted - suc (length bs)) y) (sym shape)
          (sym (drop-drop at k content))
        ∙ take-take-drop k (suc wanted - suc (length bs)) (drop at content)
        ∙ ap (λ (n : ℕ). take n (drop at content)) sum in
      (
        w',
        rw (gives, room, e') (λ j. ok (whole j, w')),
        subst (λ (n : ℕ). Standing content n w') ends s',
        record {
          adler_kept = kept.adler_kept;
          scratch_kept = kept.scratch_kept;
          len_kept = kept.len_kept;
          window_kept = kept.window_kept;
          context_kept = kept.context_kept;
        },
      )

  seek_if_elsewhere_lem :
      (at from : ℕ) (content : List ℕ) (range : ByteRange) (w : TargetWriter T)
      → Standing content from w
      → (w' : TargetWriter T) × (seek_if_elsewhere at range w ≡ ok w')
        × Standing content at w'
        × Kept law w w'
  unfolding seek_if_elsewhere seek_target after_seek
  seek_if_elsewhere_lem at from content range w s = elim (Bool-cases (w.physical_pos == at)) [
    | inl there ↦
        let e : from ≡ at = sym s.place ∙ (==_iff w.physical_pos at).0 there in
        (w, rw there, subst (λ (n : ℕ). Standing content n w) e s, Kept-refl w)
    | inr elsewhere ↦ (
      record w { target = law.seek_next at w.target; physical_pos = at },
      rw (elsewhere, law.seek_gives at w.target s.flushed, (==_iff at at).1 refl),
      record {
        holds = law.seek_keeps at w.target ∙ s.holds;
        place = refl;
        stands = law.seek_moves at w.target;
        empty = s.empty;
        flushed = law.seek_ready at w.target s.flushed;
      },
      record {
        adler_kept = refl;
        scratch_kept = refl;
        len_kept = refl;
        window_kept = refl;
        context_kept = refl;
      },
    )
  ]

  Kept-trans : {w m w' : TargetWriter T} → Kept law w m → Kept law m w' → Kept law w w'
  Kept-trans p q = record {
    adler_kept = q.adler_kept ∙ p.adler_kept;
    scratch_kept = q.scratch_kept ∙ p.scratch_kept;
    len_kept = q.len_kept ∙ p.len_kept;
    window_kept = q.window_kept ∙ p.window_kept;
    context_kept = q.context_kept ∙ p.context_kept;
  }

  -- A read of bytes that were written before gives exactly those bytes of the output, whether they
  -- were pending or not, and leaves a drained writer with the same output, sum and scratch buffer.
  -- The target keeps the promises of the traits, and need not show what is written before it is
  -- flushed; afterwards it is flushed. The fuel is no less than the I/O buffer and than the bytes
  -- that are asked for.
  pub read_target_lem :
      (fuel start wanted : ℕ) (out : List ℕ) (context : DecodeContext) (w : TargetWriter T)
      → io_buffer_size ≤ fuel
      → wanted ≤ fuel
      → start + wanted ≤ length out
      → Writing law out w
      → (w' : TargetWriter T) × (read_target fuel start wanted context w
          ≡ ok (take wanted (drop start out), w'))
        × Drained law out (record w { context = context }) w'
        × law.IsFlushed w'.target
  unfolding read_target flush_target after_flush
  read_target_lem fuel start wanted out context w f small inside v =
      let w0 : TargetWriter T = record w { context = context } in
      let v0 : Writing law out w0 = record {
        sized = v.sized;
        len_known = v.len_known;
        content = v.content;
        at_end = v.at_end;
        stands = v.stands;
        pending_small = v.pending_small;
      } in
      let (m, e, d) = drain_pending_lem law fuel out w0 f v0 in
      let flushed : TargetWriter T = record m { target = law.flush_next m.target } in
      let full : law.bytes m.target ≡ out =
        sym (append-nil (law.bytes m.target))
        ∙ ap (λ l. law.bytes m.target ++ l) (sym d.empty)
        ∙ d.writing.content in
      let end : length (law.bytes m.target) ≡ length out = ap (λ (l : List ℕ). length l) full in
      let range : ByteRange = record { start = start; len = wanted } in
      let s0 : Standing out (length out) flushed = record {
        holds = law.flush_keeps m.target ∙ full;
        place = d.writing.at_end ∙ end;
        stands = law.flush_stays m.target ∙ d.writing.stands ∙ d.writing.at_end ∙ end;
        empty = d.empty;
        flushed = law.flush_ready m.target;
      } in
      let (p, e1, s1, k1) = seek_if_elsewhere_lem start (length out) out range flushed s0 in
      let (r, e2, s2, k2) = read_loop_lem fuel wanted start out range p small s1 inside v.sized in
      let (z, e3, s3, k3) = seek_if_elsewhere_lem r.logical_len (start + wanted) out range r s2 in
      let kept : Kept law flushed z = Kept-trans k1 (Kept-trans k2 k3) in
      let len : r.logical_len ≡ length out = k2.len_kept ∙ k1.len_kept ∙ d.writing.len_known in
      (
        z,
        rw (e, law.flush_gives m.target, e1, e2, e3),
        record {
          writing = record {
            sized = v.sized;
            len_known = k3.len_kept ∙ len;
            content = ap₂ (λ (x y : List ℕ). x ++ y) s3.holds s3.empty ∙ append-nil out;
            at_end = s3.place ∙ len ∙ sym (ap (λ (l : List ℕ). length l) s3.holds);
            stands = s3.stands ∙ sym s3.place;
            pending_small = omega (arith, ap (λ (l : List ℕ). length l) s3.empty);
          };
          empty = s3.empty;
          kept = record {
            adler_kept = kept.adler_kept ∙ d.kept.adler_kept;
            scratch_kept = kept.scratch_kept ∙ d.kept.scratch_kept;
            len_kept = kept.len_kept ∙ d.kept.len_kept;
            window_kept = kept.window_kept ∙ d.kept.window_kept;
            context_kept = kept.context_kept ∙ d.kept.context_kept;
          };
        },
        s3.flushed,
      )
