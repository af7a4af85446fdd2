-- ===== src/Vcdiff/SourceCopy/Copied.antt =====
-- `copy_from_source` appends a range of the source.
use rust_crates.Prelude.{
  ℕ, zero, suc, ◌+◌, ◌-◌, ◌≤◌, ◌≡◌, refl, sym, ap, ◌∙◌, subst, List, ◌++◌, arith, true, append-nil,
  min,
}
use rust_crates.Prelude.{
  IsU64, IsByte, All, length, take, drop, length-take, length-drop, length-append, drop-drop,
  take-take, take-take-drop, ltb, lt→ltb, ==_iff,
}
use rust_crates.Vcdiff.Error.{ok, ByteRange, DecodeContext}
use rust_crates.Vcdiff.Stream.{Stream, ReadsBytes, WritesBytes}
use rust_crates.Vcdiff.Adler.Sums.{IsByte-take, IsByte-drop}
use rust_crates.Vcdiff.Target.{TargetWriter, io_buffer_size, emit_scratch}
use rust_crates.Vcdiff.Target.Emit.{Holds, emit_lem}
use rust_crates.Vcdiff.Target.Run.{Extended, Extended-joined}
use rust_crates.Vcdiff.SourceCopy.{source_loop, after_source_seek, copy_from_source}
use rust_crates.Vcdiff.SourceCopy.Exact.{Standing, read_source_exact_lem}

module _ {S T : Stream} (source_law : ReadsBytes S) (law : WritesBytes T) where
  source_loop_lem :
      (rounds fuel start copied left : ℕ) (content out win : List ℕ) (context : DecodeContext)
      (source : S.State) (w : TargetWriter T)
      → left ≤ rounds
      → io_buffer_size ≤ fuel
      → Standing source_law content (start + copied) source
      → All IsByte content
      → start + copied + left ≤ length content
      → IsU64 (length content)
      → Holds law out win w
      → IsU64 (length out + left)
      → (source' : S.State) × (w' : TargetWriter T) × (source_loop S rounds fuel start copied left
            context source w
          ≡ ok (source', w'))
        × (source_law.bytes source' ≡ content)
        × Extended law
            (out ++ take left (drop (start + copied) content))
            (win ++ take left (drop (start + copied) content))
            w
            w'
  unfolding source_loop emit_scratch
  source_loop_lem rounds fuel start copied zero content out win context source w r f st b inside u h
        s =
      (
        source,
        w,
        refl,
        st.holds,
        rw (append-nil out, append-nil win) (record { holds = h; window_kept = refl }),
      )
  source_loop_lem zero fuel start copied (suc left) content out win context source w r f st b inside
        u h s =
      absurd (omega arith)
  source_loop_lem (suc rounds) fuel start copied (suc left) content out win context source w r f st
        b inside u h s =
      let count : ℕ = min (suc left) io_buffer_size in
      let at : ℕ = start + copied in
      let chunk : List ℕ = take count (drop at content) in
      let rest : ℕ = suc left - count in
      let small : ltb count 0x1_0000_0000_0000_0000 ≡ true = lt→ltb _ _ (omega arith) in
      let fits : ltb (start + copied) 0x1_0000_0000_0000_0000 ≡ true = lt→ltb _ _ (omega arith) in
      let fits' : ltb (copied + count) 0x1_0000_0000_0000_0000 ≡ true = lt→ltb _ _ (omega arith) in
      let size : length chunk ≡ count =
        omega (arith, length-take count (drop at content), length-drop at content) in
      let range : ByteRange = record { start = at; len = count } in
      let (source1, e, st1) =
        read_source_exact_lem source_law fuel count at content range w.window source (omega arith)
          st (omega arith) u in
      let w1 : TargetWriter T = record w { scratch = chunk } in
      let h1 : Holds law out win w1 = record {
        writing = record {
          sized = h.writing.sized;
          len_known = h.writing.len_known;
          content = h.writing.content;
          at_end = h.writing.at_end;
          stands = h.writing.stands;
          pending_small = h.writing.pending_small;
        };
        summed = h.summed;
        bytes_small = h.bytes_small;
      } in
      let same : take count chunk ≡ chunk = take-take count count (drop at content) (omega arith) in
      let (m, e1, q) =
        emit_lem law fuel chunk out win context w1 f h1
          (IsByte-take count (drop at content) (IsByte-drop at content b)) (omega (arith, size)) in
      let moved : start + (copied + count) ≡ at + count = omega arith in
      let (source', w', e2, kept, x) =
        source_loop_lem rounds fuel start (copied + count) rest content (out ++ chunk)
          (win ++ chunk) context source1 m (omega arith) f
          (subst (λ (n : ℕ). Standing source_law content n source1) (sym moved) st1) b (omega arith)
          u q.holds (omega (arith, length-append out chunk, size)) in
      let sum : count + rest ≡ suc left = omega arith in
      let whole : chunk ++ take rest (drop (start + (copied + count)) content)
          ≡ take (suc left) (drop at content) =
        ap (λ (k : ℕ). chunk ++ take rest (drop k content)) moved
        ∙ ap (λ (l : List ℕ). chunk ++ take rest l) (sym (drop-drop at count content))
        ∙ take-take-drop count rest (drop at content)
        ∙ ap (λ (n : ℕ). take n (drop at content)) sum in
      (
        source',
        w',
        rw (small, fits, e, same, e1, fits', e2),
        kept,
        Extended-joined law chunk (take rest (drop (start + (copied + count)) content))
            (take (suc left) (drop at content)) out win whole
            (record { holds = x.holds; window_kept = x.window_kept ∙ q.window_kept }),
      )

  -- `copy_from_source` always succeeds on a range of the source, while the output stays below 2^64
  -- bytes: it appends exactly the bytes of that range, whatever pieces the source gives out, and the
  -- source keeps its bytes.
  -- The streams keep the promises of the traits, and the fuel is no less than the I/O buffer.
  pub copy_from_source_lem :
      (fuel start size : ℕ) (content out win : List ℕ) (context : DecodeContext) (source : S.State)
      (w : TargetWriter T)
      → io_buffer_size ≤ fuel
      → source_law.bytes source ≡ content
      → All IsByte content
      → start + size ≤ length content
      → IsU64 (length content)
      → Holds law out win w
      → IsU64 (length out + size)
      → (source' : S.State) × (w' : TargetWriter T) × (copy_from_source S fuel start size context
            source w
          ≡ ok (source', w'))
        × (source_law.bytes source' ≡ content)
        × Extended law
            (out ++ take size (drop start content))
            (win ++ take size (drop start content))
            w
            w'
  unfolding copy_from_source after_source_seek
  copy_from_source_lem fuel start size content out win context source w f c b inside u h s =
      let w0 : TargetWriter T = record w { context = context } in
      let h0 : Holds law out win w0 = record {
        writing = record {
          sized = h.writing.sized;
          len_known = h.writing.len_known;
          content = h.writing.content;
          at_end = h.writing.at_end;
          stands = h.writing.stands;
          pending_small = h.writing.pending_small;
        };
        summed = h.summed;
        bytes_small = h.bytes_small;
      } in
      let next : S.State = source_law.seek_next start source in
      let at : start + 0 ≡ start = omega arith in
      let (source', w', e, kept, x) =
        source_loop_lem size fuel start 0 size content out win context next w0 (omega arith) f
          (record {
            holds = source_law.seek_keeps start source ∙ c;
            stands = source_law.seek_moves start source ∙ sym at;
          })
          b (omega arith) u h0 s in
      (
        source',
        w',
        rw (source_law.seek_gives start source tt, (==_iff start start).1 refl, e),
        kept,
        subst
            (λ (k : ℕ).
              Extended law (out ++ take size (drop k content)) (win ++ take size (drop k content)) w
                w')
            at (record { holds = x.holds; window_kept = x.window_kept }),
      )
