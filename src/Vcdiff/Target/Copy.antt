-- ===== src/Vcdiff/Target/Copy.antt =====
-- Copies out of the output that is written already, in chunks of the scratch buffer.
use rust_crates.Prelude.{
  ℕ, zero, suc, ◌+◌, ◌-◌, ◌≤◌, ◌≡◌, refl, sym, ap, ◌∙◌, subst, List, ◌++◌, arith, true, append-nil,
  min,
}
use rust_crates.Prelude.{
  IsU64, IsByte, All, length, take, drop, take-take, length-append, ltb, lt→ltb,
}
use rust_crates.Vcdiff.Error.{ok, DecodeContext}
use rust_crates.Vcdiff.Stream.{Stream, WritesBytes}
use rust_crates.Vcdiff.Adler.Sums.{All-append, IsByte-take, IsByte-drop}
use rust_crates.Vcdiff.Target.{
  TargetWriter, io_buffer_size, emit_scratch, read_scratch, copy_loop, copy_from_target,
}
use rust_crates.Vcdiff.Target.Emit.{Holds, emit_lem}
use rust_crates.Vcdiff.Target.Read.{read_target_lem}
use rust_crates.Vcdiff.Target.Run.{Extended, Extended-trans, Extended-joined}
use rust_crates.Vcdiff.Target.Overlap.{overlap, overlap-inside, overlap-split, length-overlap}

module _ {T : Stream} (law : WritesBytes T) where
  pub Holds-context :
      (context : DecodeContext) (out win : List ℕ) (w : TargetWriter T)
      → Holds law out win w
      → Holds law out win (record w { context = context })
  Holds-context context out win w h = record {
    writing = record {
      sized = h.writing.sized;
      len_known = h.writing.len_known;
      content = h.writing.content;
      at_end = h.writing.at_end;
      stands = h.writing.stands;
      pending_small = h.writing.pending_small;
    };
    summed = h.summed;
    bytes_small = h.bytes_small;
  }

  -- Reading into the scratch buffer changes neither the output nor the sum.
  pub read_scratch_lem :
      (fuel start wanted : ℕ) (out win : List ℕ) (context : DecodeContext) (w : TargetWriter T)
      → io_buffer_size ≤ fuel
      → wanted ≤ io_buffer_size
      → start + wanted ≤ length out
      → Holds law out win w
      → (w' : TargetWriter T) × (read_scratch fuel start wanted context w ≡ ok w')
        × Extended law out win w w'
        × (w'.scratch ≡ take wanted (drop start out))
  unfolding read_scratch
  read_scratch_lem fuel start wanted out win context w f small inside h =
      let (r, e, d, flushed) =
        read_target_lem law fuel start wanted out context w f (omega arith) inside h.writing in
      (
        record r { scratch = take wanted (drop start out) },
        rw e,
        record {
          holds = record {
            writing = record {
              sized = d.writing.sized;
              len_known = d.writing.len_known;
              content = d.writing.content;
              at_end = d.writing.at_end;
              stands = d.writing.stands;
              pending_small = d.writing.pending_small;
            };
            summed = d.kept.adler_kept ∙ h.summed;
            bytes_small = h.bytes_small;
          };
          window_kept = d.kept.window_kept;
        },
        refl,
      )

  pub copy_loop_lem :
      (rounds fuel start copied left : ℕ) (out win : List ℕ) (context : DecodeContext)
      (w : TargetWriter T)
      → left ≤ rounds
      → io_buffer_size ≤ fuel
      → Holds law out win w
      → All IsByte out
      → start + copied + min left io_buffer_size ≤ length out
      → IsU64 (length out + left)
      → (w' : TargetWriter T) × (copy_loop rounds fuel start copied left context w ≡ ok w')
        × Extended law
            (out ++ overlap out (start + copied) left)
            (win ++ overlap out (start + copied) left)
            w
            w'
  unfolding copy_loop emit_scratch overlap
  copy_loop_lem rounds fuel start copied zero out win context w r f h b inside s =
      (w, refl, rw (append-nil out, append-nil win) (record { holds = h; window_kept = refl }))
  copy_loop_lem zero fuel start copied (suc left) out win context w r f h b inside s =
      absurd (omega arith)
  copy_loop_lem (suc rounds) fuel start copied (suc left) out win context w r f h b inside s =
      let count : ℕ = min (suc left) io_buffer_size in
      let at : ℕ = start + copied in
      let chunk : List ℕ = overlap out at count in
      let rest : ℕ = suc left - count in
      let small : ltb count 0x1_0000_0000_0000_0000 ≡ true = lt→ltb _ _ (omega arith) in
      let fits : ltb (start + copied) 0x1_0000_0000_0000_0000 ≡ true = lt→ltb _ _ (omega arith) in
      let fits' : ltb (copied + count) 0x1_0000_0000_0000_0000 ≡ true = lt→ltb _ _ (omega arith) in
      let there : chunk ≡ take count (drop at out) = overlap-inside count out at (omega arith) in
      let bytes : All IsByte chunk =
        subst (All IsByte) (sym there) (IsByte-take count (drop at out) (IsByte-drop at out b)) in
      let (m, e, p, c) =
        read_scratch_lem fuel at count out win context w f (omega arith) (omega arith) h in
      let same : take count m.scratch ≡ chunk =
        ap (take count) c ∙ take-take count count (drop at out) (omega arith) ∙ sym there in
      let size : length chunk ≡ count = length-overlap out at count in
      let (n, e1, q) =
        emit_lem law fuel chunk out win context m f p.holds bytes (omega (arith, size)) in
      let (w', e2, x) =
        copy_loop_lem rounds fuel start (copied + count) rest (out ++ chunk) (win ++ chunk) context
          n (omega arith) f q.holds (All-append out chunk b bytes)
          (omega (arith, length-append out chunk, size))
          (omega (arith, length-append out chunk, size)) in
      let moved : start + (copied + count) ≡ at + count = omega arith in
      let sum : count + rest ≡ suc left = omega arith in
      let whole : chunk ++ overlap (out ++ chunk) (start + (copied + count)) rest
          ≡ overlap out at (suc left) =
        ap (λ (k : ℕ). chunk ++ overlap (out ++ chunk) k rest) moved
        ∙ sym (overlap-split count rest out at)
        ∙ ap (overlap out at) sum in
      (
        w',
        rw (small, fits, e, same, e1, fits', e2),
        Extended-joined law chunk (overlap (out ++ chunk) (start + (copied + count)) rest)
            (overlap out at (suc left)) out win whole
            (Extended-trans law p
              (Extended-trans law (record { holds = q.holds; window_kept = q.window_kept }) x)),
      )

  -- `copy_from_target` always succeeds on a range of the output, while the output stays below 2^64
  -- bytes: it appends exactly the bytes of that range.
  -- The streams keep the promises of the traits, and the fuel is no less than the I/O buffer.
  pub copy_from_target_lem :
      (fuel start size : ℕ) (out win : List ℕ) (context : DecodeContext) (w : TargetWriter T)
      → io_buffer_size ≤ fuel
      → Holds law out win w
      → All IsByte out
      → start + size ≤ length out
      → IsU64 (length out + size)
      → (w' : TargetWriter T) × (copy_from_target fuel start size context w ≡ ok w')
        × Extended law (out ++ take size (drop start out)) (win ++ take size (drop start out)) w w'
  unfolding copy_from_target
  copy_from_target_lem fuel start size out win context w f h b inside s =
      let w0 : TargetWriter T = record w { context = context } in
      let (w', e, x) =
        copy_loop_lem size fuel start 0 size out win context w0 (omega arith) f
          (Holds-context context out win w h) b (omega arith) s in
      let at : start + 0 ≡ start = omega arith in
      let same : overlap out (start + 0) size ≡ take size (drop start out) =
        ap (λ (k : ℕ). overlap out k size) at ∙ overlap-inside size out start inside in
      (
        w',
        e,
        subst (λ l. Extended law (out ++ l) (win ++ l) w w') same
            (record { holds = x.holds; window_kept = x.window_kept }),
      )
