-- ===== src/Vcdiff/Target/Emit.antt =====
-- Emitting bytes appends them to the output and to what the checksum covers.
use rust_crates.Prelude.{
  ℕ, zero, suc, ◌+◌, ◌-◌, ◌≤◌, ◌<◌, ◌≡◌, refl, sym, ap, ◌∙◌, subst, List, [], ◌∷◌, ◌++◌, arith,
  true, append-nil, append_assoc, min, Bool-cases, inl, inr,
}
use rust_crates.Prelude.{
  IsU64, IsByte, All, length, take, drop, length-append, length-take, length-drop, take-append-drop,
  ◌==◌, ltb, lt→ltb,
}
use rust_crates.Vcdiff.Error.{ok, DecodeContext}
use rust_crates.Vcdiff.Stream.{Stream, WritesBytes}
use rust_crates.Vcdiff.Adler
use rust_crates.Vcdiff.Adler.{Adler32}
use rust_crates.Vcdiff.Adler.Sums.{
  adler_fold, adler_fold-append, adler_fold-IsReduced, IsReduced-new, update-adler_fold, All-append,
  IsByte-take, IsByte-drop,
}
use rust_crates.Vcdiff.Target.{
  TargetWriter, io_buffer_size, drain_full, emit_loop, emit, begin_window,
}
use rust_crates.Vcdiff.Target.Drain.{Writing, drain_pending_lem}

module _ {T : Stream} (law : WritesBytes T) where
  -- The writer has written `out`, of which the bytes `win` belong to the current window, and its
  -- checksum state is that of `win`.
  pub record Holds (out win : List ℕ) (w : TargetWriter T) : Type 0 where
    pub writing : Writing law out w
    pub summed : w.adler ≡ adler_fold win Adler.new
    pub bytes_small : All IsByte win

  -- What emitting leaves alone besides.
  pub record Emitted (out win : List ℕ) (w w' : TargetWriter T) : Type 0 where
    pub holds : Holds out win w'
    pub window_kept : w'.window ≡ w.window
    pub scratch_kept : w'.scratch ≡ w.scratch

  -- A window starts with an empty sum.
  pub Holds-begin_window :
      (window : ℕ) (context : DecodeContext) (out win : List ℕ) (w : TargetWriter T)
      → Holds out win w
      → Holds out [] (begin_window window context w)
  unfolding begin_window adler_fold
  Holds-begin_window window context out win w h = record {
    writing = record {
      sized = h.writing.sized;
      len_known = h.writing.len_known;
      content = h.writing.content;
      at_end = h.writing.at_end;
      stands = h.writing.stands;
      pending_small = h.writing.pending_small;
    };
    summed = refl;
    bytes_small = tt;
  }

  -- After the test for a full buffer there is room.
  pub drain_full_lem :
      (fuel : ℕ) (out win : List ℕ) (w : TargetWriter T)
      → io_buffer_size ≤ fuel
      → Holds out win w
      → (w' : TargetWriter T) × (drain_full fuel w ≡ ok w')
        × Emitted out win w w'
        × (length w'.pending < io_buffer_size)
  unfolding drain_full
  drain_full_lem fuel out win w f h = elim (Bool-cases (length w.pending == io_buffer_size)) [
    | inl full ↦
        let (w', e, d) = drain_pending_lem law fuel out w f h.writing in
        (
          w',
          rw full e,
          record {
            holds = record {
              writing = d.writing;
              summed = d.kept.adler_kept ∙ h.summed;
              bytes_small = h.bytes_small;
            };
            window_kept = d.kept.window_kept;
            scratch_kept = d.kept.scratch_kept;
          },
          omega (arith, ap (λ (l : List ℕ). length l) d.empty),
        )
    | inr room ↦ (
      w,
      rw room,
      record { holds = h; window_kept = refl; scratch_kept = refl },
      ground (arith, h.writing.pending_small),
    )
  ]

  -- The state after `chunk` was put into the pending buffer.
  abbrev pushed : List ℕ → ℕ → TargetWriter T → TargetWriter T
  pushed chunk len w = record w {
    adler = Adler.update chunk w.adler;
    pending = w.pending ++ chunk;
    logical_len = len;
  }

  pub Holds-pushed :
      (chunk : List ℕ) (len : ℕ) (out win : List ℕ) (w : TargetWriter T)
      → Holds out win w
      → All IsByte chunk
      → length w.pending + length chunk ≤ io_buffer_size
      → len ≡ w.logical_len + length chunk
      → IsU64 (length out + length chunk)
      → Emitted (out ++ chunk) (win ++ chunk) w (pushed chunk len w)
  Holds-pushed chunk len out win w h b room e s = record {
    holds = record {
      writing = record {
        sized = omega (arith, length-append out chunk);
        len_known = omega (arith, length-append out chunk, h.writing.len_known);
        content =
            sym (append_assoc (law.bytes w.target) w.pending chunk)
            ∙ ap (λ l. l ++ chunk) h.writing.content;
        at_end = h.writing.at_end;
        stands = h.writing.stands;
        pending_small = omega (arith, length-append w.pending chunk);
      };
      summed =
          ap (Adler.update chunk) h.summed
          ∙ update-adler_fold chunk (adler_fold win Adler.new)
              (adler_fold-IsReduced win IsReduced-new) b
          ∙ sym (adler_fold-append win chunk Adler.new);
      bytes_small = All-append win chunk h.bytes_small b;
    };
    window_kept = refl;
    scratch_kept = refl;
  }

  pub Emitted-trans :
      {out win out' win' : List ℕ} {w m w' : TargetWriter T}
      → Emitted out win w m
      → Emitted out' win' m w'
      → Emitted out' win' w w'
  Emitted-trans p q = record {
    holds = q.holds;
    window_kept = q.window_kept ∙ p.window_kept;
    scratch_kept = q.scratch_kept ∙ p.scratch_kept;
  }

  emit_loop_lem :
      (rounds fuel : ℕ) (bytes out win : List ℕ) (w : TargetWriter T)
      → length bytes ≤ rounds
      → io_buffer_size ≤ fuel
      → Holds out win w
      → All IsByte bytes
      → IsU64 (length out + length bytes)
      → (w' : TargetWriter T) × (emit_loop rounds fuel bytes w ≡ ok w')
        × Emitted (out ++ bytes) (win ++ bytes) w w'
  unfolding emit_loop
  emit_loop_lem rounds fuel [] out win w r f h b s = (
    w,
    refl,
    rw (append-nil out, append-nil win)
        (record { holds = h; window_kept = refl; scratch_kept = refl }),
  )
  emit_loop_lem zero fuel (x ∷ xs) out win w r f h b s = absurd (omega arith)
  emit_loop_lem (suc rounds) fuel (x ∷ xs) out win w r f h b s =
      let (m, e, d, room) = drain_full_lem fuel out win w f h in
      let count : ℕ = min (io_buffer_size - length m.pending) (suc (length xs)) in
      let chunk : List ℕ = take count (x ∷ xs) in
      let left : List ℕ = drop count (x ∷ xs) in
      let size : length chunk ≡ count = omega (arith, length-take count (x ∷ xs)) in
      let rest : length left ≡ suc (length xs) - count =
        omega (arith, length-drop count (x ∷ xs)) in
      let len_known = d.holds.writing.len_known in
      let fits : ltb (m.logical_len + count) 0x1_0000_0000_0000_0000 ≡ true =
        lt→ltb _ _ (omega (arith, len_known)) in
      let p : Emitted (out ++ chunk) (win ++ chunk) m (pushed chunk (m.logical_len + count) m) =
        Holds-pushed chunk (m.logical_len + count) out win m d.holds (IsByte-take count (x ∷ xs) b)
          (omega (arith, size)) (omega (arith, size)) (omega (arith, size)) in
      let (w', e', q) =
        emit_loop_lem rounds fuel left (out ++ chunk) (win ++ chunk)
          (pushed chunk (m.logical_len + count) m) (omega (arith, rest)) f p.holds
          (IsByte-drop count (x ∷ xs) b) (omega (arith, rest, size, length-append out chunk)) in
      let joined : (base : List ℕ) → (base ++ chunk) ++ left ≡ base ++ (x ∷ xs) = λ base.
        append_assoc base chunk left ∙ ap (λ l. base ++ l) (take-append-drop count (x ∷ xs)) in
      (
        w',
        rw (e, fits) e',
        subst (λ o. Emitted o (win ++ (x ∷ xs)) w w') (joined out)
            (subst (λ v. Emitted ((out ++ chunk) ++ left) v w w') (joined win)
              (Emitted-trans d (Emitted-trans p q))),
      )

  Holds-context :
      (context : DecodeContext) (out win : List ℕ) (w : TargetWriter T)
      → Holds out win w
      → Holds out win (record w { context = context })
  Holds-context context out win w h = record {
    writing = record {
      sized = h.writing.sized;
      len_known = h.writing.len_known;
      content = h.writing.content;
      at_end = h.writing.at_end;
      stands = h.writing.stands;
      pending_small = h.writing.pending_small;
    };
    summed = h.summed;
    bytes_small = h.bytes_small;
  }

  -- `emit` always succeeds while the output stays below 2^64 bytes: it appends exactly the given bytes
  -- to the output and to what the window's checksum covers, however often the buffer fills up.
  -- The streams keep the promises of the traits, and the fuel is no less than the I/O buffer.
  pub emit_lem :
      (fuel : ℕ) (bytes out win : List ℕ) (context : DecodeContext) (w : TargetWriter T)
      → io_buffer_size ≤ fuel
      → Holds out win w
      → All IsByte bytes
      → IsU64 (length out + length bytes)
      → (w' : TargetWriter T) × (emit fuel bytes context w ≡ ok w')
        × Emitted (out ++ bytes) (win ++ bytes) w w'
  unfolding emit
  emit_lem fuel bytes out win context w f h b s =
      let (w', e, q) =
        emit_loop_lem (length bytes) fuel bytes out win (record w { context = context })
          (omega arith) f (Holds-context context out win w h) b s in
      (
        w',
        e,
        record { holds = q.holds; window_kept = q.window_kept; scratch_kept = q.scratch_kept },
      )
