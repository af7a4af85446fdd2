-- ===== src/Vcdiff/Target/Run.antt =====
-- A RUN repeats one byte: `emit_run` appends it as often as asked.
use rust_crates.Prelude.{
  ℕ, zero, suc, ◌+◌, ◌-◌, ◌≤◌, ◌≡◌, refl, ap, ◌∙◌, subst, List, ◌∷◌, ◌++◌, arith, true, append-nil,
  append_assoc, min,
}
use rust_crates.Prelude.{
  IsU64, IsByte, All, length, take, replicate, length-append, length-replicate, ltb, lt→ltb,
}
use rust_crates.Vcdiff.Error.{ok, DecodeContext}
use rust_crates.Vcdiff.Stream.{Stream, WritesBytes}
use rust_crates.Vcdiff.Target.{
  TargetWriter, io_buffer_size, emit_scratch, emit_run_loop, emit_run, filled_scratch,
}
use rust_crates.Vcdiff.Target.Emit.{Holds, emit_lem}

take-replicate : (k n b : ℕ) → k ≤ n → take k (replicate n b) ≡ replicate k b
take-replicate zero n b h = refl
take-replicate (suc k) zero b h = absurd (omega arith)
take-replicate (suc k) (suc n) b h = ap (λ (l : List ℕ). b ∷ l) (take-replicate k n b (omega arith))

replicate-add : (m n b : ℕ) → replicate m b ++ replicate n b ≡ replicate (m + n) b
replicate-add zero n b = let e : n ≡ 0 + n = omega arith in ap (λ (k : ℕ). replicate k b) e
replicate-add (suc m) n b =
    let e : suc (m + n) ≡ suc m + n = omega arith in
    ap (λ (l : List ℕ). b ∷ l) (replicate-add m n b) ∙ ap (λ (k : ℕ). replicate k b) e

All-replicate : (n b : ℕ) → IsByte b → All IsByte (replicate n b)
All-replicate zero b h = tt
All-replicate (suc n) b h = (h, All-replicate n b h)

module _ {T : Stream} (law : WritesBytes T) where
  -- What a command of the target leaves.
  pub record Extended (out win : List ℕ) (w w' : TargetWriter T) : Type 0 where
    pub holds : Holds law out win w'
    pub window_kept : w'.window ≡ w.window

  pub Extended-trans :
      {out win out' win' : List ℕ} {w m w' : TargetWriter T}
      → Extended out win w m
      → Extended out' win' m w'
      → Extended out' win' w w'
  Extended-trans p q = record { holds = q.holds; window_kept = q.window_kept ∙ p.window_kept }

  -- Appending two pieces is appending both.
  pub Extended-joined :
      (front back whole out win : List ℕ) {w w' : TargetWriter T}
      → front ++ back ≡ whole
      → Extended ((out ++ front) ++ back) ((win ++ front) ++ back) w w'
      → Extended (out ++ whole) (win ++ whole) w w'
  Extended-joined front back whole out win {w} {w'} e x =
      let joined : (base : List ℕ) → (base ++ front) ++ back ≡ base ++ whole =
        λ base. append_assoc base front back ∙ ap (λ (l : List ℕ). base ++ l) e in
      subst (λ o. Extended o (win ++ whole) w w') (joined out)
        (subst (λ v. Extended ((out ++ front) ++ back) v w w') (joined win) x)

  emit_run_loop_lem :
      (rounds fuel size b : ℕ) (out win : List ℕ) (context : DecodeContext) (w : TargetWriter T)
      → size ≤ rounds
      → io_buffer_size ≤ fuel
      → Holds law out win w
      → IsByte b
      → IsU64 (length out + size)
      → w.scratch ≡ filled_scratch b
      → (w' : TargetWriter T) × (emit_run_loop rounds fuel size context w ≡ ok w')
        × Extended (out ++ replicate size b) (win ++ replicate size b) w w'
  unfolding emit_run_loop emit_scratch filled_scratch
  emit_run_loop_lem rounds fuel zero b out win context w r f h byte s c =
      (w, refl, rw (append-nil out, append-nil win) (record { holds = h; window_kept = refl }))
  emit_run_loop_lem zero fuel (suc size) b out win context w r f h byte s c = absurd (omega arith)
  emit_run_loop_lem (suc rounds) fuel (suc size) b out win context w r f h byte s c =
      let count : ℕ = min (suc size) io_buffer_size in
      let chunk : List ℕ = replicate count b in
      let fits : ltb count 0x1_0000_0000_0000_0000 ≡ true = lt→ltb _ _ (omega arith) in
      let same : take count w.scratch ≡ chunk =
        ap (take count) c ∙ take-replicate count io_buffer_size b (omega arith) in
      let sum : count + (suc size - count) ≡ suc size = omega arith in
      let (m, e, p) =
        emit_lem law fuel chunk out win context w f h (All-replicate count b byte)
          (omega (arith, length-replicate count b)) in
      let (w', e', q) =
        emit_run_loop_lem rounds fuel (suc size - count) b (out ++ chunk) (win ++ chunk) context m
          (omega arith) f p.holds byte
          (omega (arith, length-append out chunk, length-replicate count b)) (p.scratch_kept ∙ c) in
      (
        w',
        rw (fits, same, e, e'),
        Extended-joined chunk (replicate (suc size - count) b) (replicate (suc size) b) out win
            (replicate-add count (suc size - count) b ∙ ap (λ (k : ℕ). replicate k b) sum)
            (Extended-trans (record { holds = p.holds; window_kept = p.window_kept }) q),
      )

  -- `emit_run` always succeeds while the output stays below 2^64 bytes, and appends the byte `size`
  -- times to the output and to what the window's checksum covers.
  -- The streams keep the promises of the traits, and the fuel is no less than the I/O buffer.
  pub emit_run_lem :
      (fuel b size : ℕ) (out win : List ℕ) (context : DecodeContext) (w : TargetWriter T)
      → io_buffer_size ≤ fuel
      → Holds law out win w
      → IsByte b
      → IsU64 (length out + size)
      → (w' : TargetWriter T) × (emit_run fuel b size context w ≡ ok w')
        × Extended (out ++ replicate size b) (win ++ replicate size b) w w'
  unfolding emit_run
  emit_run_lem fuel b size out win context w f h byte s =
      let w0 : TargetWriter T = record w { context = context; scratch = filled_scratch b } in
      let h0 : Holds law out win w0 = record {
        writing = record {
          sized = h.writing.sized;
          len_known = h.writing.len_known;
          content = h.writing.content;
          at_end = h.writing.at_end;
          stands = h.writing.stands;
          pending_small = h.writing.pending_small;
        };
        summed = h.summed;
        bytes_small = h.bytes_small;
      } in
      let (w', e, x) =
        emit_run_loop_lem size fuel size b out win context w0 (omega arith) f h0 byte s refl in
      (w', e, record { holds = x.holds; window_kept = x.window_kept })
