-- ===== src/Vcdiff/Target/Repeat.antt =====
-- `copy_from_current`: the copy out of the window's own output, which may overlap what it writes.
use rust_crates.Prelude.{
  ℕ, zero, suc, ◌+◌, ◌-◌, ◌%◌, ◌≤◌, ◌<◌, ◌≡◌, refl, sym, ap, ◌∙◌, subst, List, ◌++◌, arith, true,
  false, append-nil, min, Bool-cases, inl, inr,
}
use rust_crates.Prelude.{
  IsU64, IsByte, All, length, take, drop, length-take, length-drop, length-append, ◌==◌, leb, ltb,
  lt→ltb, ◌&&◌,
}
use native.Mathlib.Nat.{mod-lt, mod-mod}
use rust_crates.Vcdiff.Error.{ok, DecodeContext}
use rust_crates.Vcdiff.Stream.{Stream, WritesBytes}
use rust_crates.Vcdiff.Adler.Sums.{All-append}
use rust_crates.Vcdiff.Target.{
  TargetWriter, io_buffer_size, gather, emit_repeated_loop, copy_from_current,
}
use rust_crates.Vcdiff.Target.Emit.{Holds, drain_full_lem, Holds-pushed}
use rust_crates.Vcdiff.Target.Copy.{Holds-context, read_scratch_lem, copy_loop_lem}
use rust_crates.Vcdiff.Target.Run.{Extended, Extended-joined}
use rust_crates.Vcdiff.Target.Overlap.{overlap, overlap-split, length-overlap}
use rust_crates.Vcdiff.Target.Periodic.{
  IsPeriodic, IsPeriodic-seed, IsPeriodic-overlap, gather-overlap, IsByte-overlap,
}

module _ {T : Stream} (law : WritesBytes T) where
  emit_repeated_loop_lem :
      (rounds fuel start d emitted left : ℕ) (seed out win : List ℕ) (context : DecodeContext)
      (w : TargetWriter T)
      → left ≤ rounds
      → io_buffer_size ≤ fuel
      → Holds law out win w
      → All IsByte out
      → w.scratch ≡ seed
      → length seed ≡ d
      → 0 < d
      → length out ≡ start + emitted + d
      → IsPeriodic seed out start d
      → IsU64 (length out + left)
      → (w' : TargetWriter T) × (emit_repeated_loop rounds fuel d emitted left context w ≡ ok w')
        × Extended law
            (out ++ overlap out (start + emitted) left)
            (win ++ overlap out (start + emitted) left)
            w
            w'
  unfolding emit_repeated_loop overlap
  emit_repeated_loop_lem rounds fuel start d emitted zero seed out win context w r f h b c ls pos lo
        p s =
      (w, refl, rw (append-nil out, append-nil win) (record { holds = h; window_kept = refl }))
  emit_repeated_loop_lem zero fuel start d emitted (suc left) seed out win context w r f h b c ls
        pos lo p s =
      absurd (omega arith)
  emit_repeated_loop_lem (suc rounds) fuel start d emitted (suc left) seed out win context w r f h b
        c ls pos lo p s =
      let (m, e, q, room) = drain_full_lem law fuel out win w f h in
      let count : ℕ = min (suc left) (io_buffer_size - length m.pending) in
      let at : ℕ = start + emitted in
      let chunk : List ℕ = overlap out at count in
      let rest : ℕ = suc left - count in
      let size : length chunk ≡ count = length-overlap out at count in
      let small : ltb count 0x1_0000_0000_0000_0000 ≡ true = lt→ltb _ _ (omega arith) in
      let some_seed : (d == 0) ≡ false = ground arith in
      let below : emitted % d < d = mod-lt emitted pos in
      let phase_fits : ltb (emitted % d) 0x1_0000_0000_0000_0000 ≡ true =
        lt→ltb _ _ (omega arith) in
      let turn : (emitted % d + 0) % d ≡ emitted % d =
        (let z : emitted % d + 0 ≡ emitted % d = omega arith in ap (λ (k : ℕ). k % d) z)
        ∙ mod-mod emitted d in
      let gathered : gather m.scratch d (emitted % d) 0 count ≡ ok chunk =
        ap (λ (l : List ℕ). gather l d (emitted % d) 0 count) (q.scratch_kept ∙ c)
        ∙ gather-overlap count 0 emitted (emitted % d) seed out start d ls lo pos turn p in
      let bytes : All IsByte chunk = IsByte-overlap count out at b in
      let len_known = q.holds.writing.len_known in
      let fits : ltb (m.logical_len + count) 0x1_0000_0000_0000_0000 ≡ true =
        lt→ltb _ _ (omega (arith, len_known)) in
      let fits' : ltb (emitted + count) 0x1_0000_0000_0000_0000 ≡ true = lt→ltb _ _ (omega arith) in
      let x =
        Holds-pushed law chunk (m.logical_len + count) out win m q.holds bytes (omega (arith, size))
          (omega (arith, size)) (omega (arith, size)) in
      let (w', e', y) =
        emit_repeated_loop_lem rounds fuel start d (emitted + count) rest seed (out ++ chunk)
          (win ++ chunk) context _ (omega arith) f x.holds (All-append out chunk b bytes)
          (q.scratch_kept ∙ c) ls pos (omega (arith, length-append out chunk, size))
          (IsPeriodic-overlap count seed out start d emitted lo pos p)
          (omega (arith, length-append out chunk, size)) in
      let moved : start + (emitted + count) ≡ at + count = omega arith in
      let sum : count + rest ≡ suc left = omega arith in
      let whole : chunk ++ overlap (out ++ chunk) (start + (emitted + count)) rest
          ≡ overlap out at (suc left) =
        ap (λ (k : ℕ). chunk ++ overlap (out ++ chunk) k rest) moved
        ∙ sym (overlap-split count rest out at)
        ∙ ap (overlap out at) sum in
      (
        w',
        rw (e, small, some_seed, phase_fits, gathered, fits, fits', e'),
        Extended-joined law chunk (overlap (out ++ chunk) (start + (emitted + count)) rest)
            (overlap out at (suc left)) out win whole
            (record { holds = y.holds; window_kept = y.window_kept ∙ q.window_kept }),
      )

  -- `copy_from_current` always succeeds from a start `distance` bytes before the end of the output,
  -- while the output stays below 2^64 bytes. It appends the bytes that RFC 3284 describes one at a
  -- time, also where the copy reads what it writes, whether it repeats a seed or goes in chunks.
  -- The streams keep the promises of the traits, and the fuel is no less than the I/O buffer.
  pub copy_from_current_lem :
      (fuel start size distance : ℕ) (out win : List ℕ) (context : DecodeContext)
      (w : TargetWriter T)
      → io_buffer_size ≤ fuel
      → Holds law out win w
      → All IsByte out
      → 0 < distance
      → start + distance ≡ length out
      → IsU64 (length out + size)
      → (w' : TargetWriter T) × (copy_from_current fuel start size distance context w ≡ ok w')
        × Extended law (out ++ overlap out start size) (win ++ overlap out start size) w w'
  unfolding copy_from_current
  copy_from_current_lem fuel start size distance out win context w f h b pos far s =
      let w0 : TargetWriter T = record w { context = context } in
      let at : start + 0 ≡ start = omega arith in
      let h0 : Holds law out win w0 = Holds-context law context out win w h in
      elim (Bool-cases (ltb distance size && leb distance io_buffer_size)) [
        | inl repeats ↦
            let small : ltb distance 0x1_0000_0000_0000_0000 ≡ true = lt→ltb _ _ (omega arith) in
            let (m, e, x, c) =
              read_scratch_lem law fuel start distance out win context w0 f (ground arith)
                (omega arith) h0 in
            let seed : List ℕ = take distance (drop start out) in
            let (w', e', y) =
              emit_repeated_loop_lem size fuel start distance 0 size seed out win context m
                (omega arith) f x.holds b c
                (omega (arith, length-take distance (drop start out), length-drop start out)) pos
                (omega arith) (IsPeriodic-seed out start distance far) s in
            (
              w',
              rw (repeats, small, e, e'),
              subst
                  (λ (k : ℕ).
                    Extended law (out ++ overlap out k size) (win ++ overlap out k size) w w')
                  at (record { holds = y.holds; window_kept = y.window_kept ∙ x.window_kept }),
            )
        | inr chunks ↦
            let (w', e, y) =
              copy_loop_lem law size fuel start 0 size out win context w0 (omega arith) f h0 b
                (ground arith) s in
            (
              w',
              rw (chunks, e),
              subst
                  (λ (k : ℕ).
                    Extended law (out ++ overlap out k size) (win ++ overlap out k size) w w')
                  at (record { holds = y.holds; window_kept = y.window_kept }),
            )
      ]
