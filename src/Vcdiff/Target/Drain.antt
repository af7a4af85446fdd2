-- ===== src/Vcdiff/Target/Drain.antt =====
-- What a writer stands for, and that draining it to its target keeps that.
use rust_crates.Prelude.{
  ℕ, zero, suc, ◌+◌, ◌-◌, ◌≤◌, ◌<◌, ◌≡◌, refl, sym, ap, ◌∙◌, List, [], ◌∷◌, ◌++◌, arith, true,
  append-nil, append_assoc,
}
use rust_crates.Prelude.{
  IsU64, length, take, drop, length-append, length-take, length-drop, take-append-drop, ◌==◌,
  ==_iff, leb, ltb, lt→ltb,
}
use rust_crates.Vcdiff.Error.{ok, ByteRange}
use rust_crates.Vcdiff.Stream.{Stream, WritesBytes, done}
use rust_crates.Vcdiff.Target.{
  TargetWriter, io_buffer_size, write_loop, drain_buffer, drain_pending, finish, flush_target,
  seek_target, new,
}

module _ {T : Stream} (law : WritesBytes T) where
  -- The writer has written `out`: what the target holds, flushed or not, and then what is pending.
  -- The target stands at its end.
  pub record Writing (out : List ℕ) (w : TargetWriter T) : Type 0 where
    pub sized : IsU64 (length out)
    pub len_known : w.logical_len ≡ length out
    pub content : law.bytes w.target ++ w.pending ≡ out
    pub at_end : w.physical_pos ≡ length (law.bytes w.target)
    pub stands : law.position w.target ≡ w.physical_pos
    pub pending_small : length w.pending ≤ io_buffer_size

  -- What the traffic with the target leaves alone.
  pub record Kept (w w' : TargetWriter T) : Type 0 where
    pub adler_kept : w'.adler ≡ w.adler
    pub scratch_kept : w'.scratch ≡ w.scratch
    pub len_kept : w'.logical_len ≡ w.logical_len
    pub window_kept : w'.window ≡ w.window
    pub context_kept : w'.context ≡ w.context

  -- The target of `w'` is that of `w` with `bs` appended, and `w'` stands at its end.
  record Appended (bs : List ℕ) (w w' : TargetWriter T) : Type 0 where
    appended : law.bytes w'.target ≡ law.bytes w.target ++ bs
    at_end : w'.physical_pos ≡ length (law.bytes w'.target)
    stands : law.position w'.target ≡ w'.physical_pos
    pending_kept : w'.pending ≡ w.pending
    kept : Kept w w'

  write_loop_lem :
      (fuel : ℕ) (bs : List ℕ) (range : ByteRange) (w : TargetWriter T)
      → length bs ≤ fuel
      → w.physical_pos ≡ length (law.bytes w.target)
      → law.position w.target ≡ w.physical_pos
      → IsU64 (length (law.bytes w.target) + length bs)
      → (w' : TargetWriter T) × (write_loop fuel bs range w ≡ ok w') × Appended bs w w'
  unfolding write_loop
  write_loop_lem fuel [] range w f e p s = (
    w,
    refl,
    record {
      appended = sym (append-nil (law.bytes w.target));
      at_end = e;
      stands = p;
      pending_kept = refl;
      kept = record {
        adler_kept = refl;
        scratch_kept = refl;
        len_kept = refl;
        window_kept = refl;
        context_kept = refl;
      };
    },
  )
  write_loop_lem zero (b ∷ bs) range w f e p s = absurd (omega arith)
  write_loop_lem (suc fuel) (b ∷ bs) range w f e p s =
      let all : List ℕ = b ∷ bs in
      let k : ℕ = law.write_count all w.target in
      let positive : 0 < k = law.write_some all w.target (omega arith) in
      let fits : k ≤ suc (length bs) = law.write_fits all w.target in
      let next : T.State = law.write_next all w.target in
      let gives : T.write all w.target ≡ (done (suc (k - 1)), next) =
        law.write_gives all w.target (p ∙ e) s
        ∙ (let c : k ≡ suc (k - 1) = omega arith in ap (λ (n : ℕ). (done n, next)) c) in
      let room : ltb (w.physical_pos + suc (k - 1)) 0x1_0000_0000_0000_0000 ≡ true =
        lt→ltb _ _ (omega arith) in
      let grown : law.bytes next ≡ law.bytes w.target ++ take (suc (k - 1)) all =
        law.write_appends all w.target (p ∙ e)
        ∙ (let c : k ≡ suc (k - 1) = omega arith in
            ap (λ (n : ℕ). law.bytes w.target ++ take n all) c) in
      let size : length (law.bytes next) ≡ length (law.bytes w.target) + k =
        ap (λ (l : List ℕ). length l) grown
        ∙ length-append (law.bytes w.target) (take (suc (k - 1)) all)
        ∙ omega (arith, length-take (suc (k - 1)) all) in
      let w1 : TargetWriter T = record w {
        target = next;
        physical_pos = w.physical_pos + suc (k - 1);
      } in
      let left : length (drop (suc (k - 1)) all) ≡ suc (length bs) - k =
        omega (arith, length-drop (suc (k - 1)) all) in
      let (w', e', a) =
        write_loop_lem fuel (drop (suc (k - 1)) all) range w1 (omega (arith, left))
          (omega (arith, size)) (law.write_moves all w.target ∙ omega arith)
          (omega (arith, size, left)) in
      (
        w',
        rw (gives, room) e',
        record {
          appended =
              a.appended
              ∙ ap (λ l. l ++ drop (suc (k - 1)) all) grown
              ∙ append_assoc (law.bytes w.target) (take (suc (k - 1)) all) (drop (suc (k - 1)) all)
              ∙ ap (λ l. law.bytes w.target ++ l) (take-append-drop (suc (k - 1)) all);
          at_end = a.at_end;
          stands = a.stands;
          pending_kept = a.pending_kept;
          kept = record {
            adler_kept = a.kept.adler_kept;
            scratch_kept = a.kept.scratch_kept;
            len_kept = a.kept.len_kept;
            window_kept = a.kept.window_kept;
            context_kept = a.kept.context_kept;
          };
        },
      )

  -- A writer that has drained its pending bytes and stands for the same output.
  pub record Drained (out : List ℕ) (w w' : TargetWriter T) : Type 0 where
    pub writing : Writing out w'
    pub empty : w'.pending ≡ []
    pub kept : Kept w w'

  drain_buffer_lem :
      (fuel : ℕ) (pending out : List ℕ) (w : TargetWriter T)
      → io_buffer_size ≤ fuel
      → w.pending ≡ pending
      → Writing out w
      → (w' : TargetWriter T) × (drain_buffer fuel pending w ≡ ok w') × Drained out w w'
  unfolding drain_buffer
  drain_buffer_lem fuel [] out w f e v = (
    w,
    refl,
    record {
      writing = v;
      empty = e;
      kept = record {
        adler_kept = refl;
        scratch_kept = refl;
        len_kept = refl;
        window_kept = refl;
        context_kept = refl;
      };
    },
  )
  drain_buffer_lem fuel (b ∷ bs) out w f e v =
      let all : List ℕ = b ∷ bs in
      let count : length w.pending ≡ suc (length bs) = ap (λ (l : List ℕ). length l) e in
      let total : length (law.bytes w.target) + suc (length bs) ≡ length out =
        sym (length-append (law.bytes w.target) all)
        ∙ ap (λ (l : List ℕ). length (law.bytes w.target ++ l)) (sym e)
        ∙ ap (λ (l : List ℕ). length l) v.content in
      let inside : leb (suc (length bs)) w.logical_len ≡ true =
        ground (arith, total, v.len_known) in
      let there : (w.physical_pos == (w.logical_len - suc (length bs))) ≡ true =
        (==_iff _ _).1 (omega (arith, total, v.at_end, v.len_known)) in
      let range : ByteRange = record {
        start = w.logical_len - suc (length bs);
        len = suc (length bs);
      } in
      let (w', e', a) =
        write_loop_lem fuel all range w (omega (arith, count, v.pending_small)) v.at_end v.stands
          (omega (arith, total, v.sized)) in
      let holds : law.bytes w'.target ≡ out =
        a.appended ∙ ap (λ l. law.bytes w.target ++ l) (sym e) ∙ v.content in
      (
        record w' { pending = [] },
        rw (inside, there, e'),
        record {
          writing = record {
            sized = v.sized;
            len_known = a.kept.len_kept ∙ v.len_known;
            content = append-nil (law.bytes w'.target) ∙ holds;
            at_end = a.at_end;
            stands = a.stands;
            pending_small = omega arith;
          };
          empty = refl;
          kept = record {
            adler_kept = a.kept.adler_kept;
            scratch_kept = a.kept.scratch_kept;
            len_kept = a.kept.len_kept;
            window_kept = a.kept.window_kept;
            context_kept = a.kept.context_kept;
          };
        },
      )

  -- Draining always succeeds on such a target: afterwards nothing is pending, the target holds the
  -- whole output, flushed or not, and stands at its end, and the checksum and the length are what
  -- they were.
  -- The streams keep the promises of the traits, and the fuel is no less than the I/O buffer.
  pub drain_pending_lem :
      (fuel : ℕ) (out : List ℕ) (w : TargetWriter T)
      → io_buffer_size ≤ fuel
      → Writing out w
      → (w' : TargetWriter T) × (drain_pending fuel w ≡ ok w') × Drained out w w'
  unfolding drain_pending
  drain_pending_lem fuel out w f v = drain_buffer_lem fuel w.pending out w f refl v

  -- `finish` succeeds and leaves the target holding exactly the output, flushed, so that it can be
  -- read, and standing at its end. The target keeps the promises of the traits, and need not show
  -- what is written before it is flushed; the fuel is no less than the I/O buffer.
  pub finish_lem :
      (fuel : ℕ) (out : List ℕ) (w : TargetWriter T)
      → io_buffer_size ≤ fuel
      → Writing out w
      → (w' : TargetWriter T) × (finish fuel w ≡ ok w')
        × (law.bytes w'.target ≡ out)
        × (law.position w'.target ≡ length out)
        × law.IsFlushed w'.target
  unfolding finish flush_target seek_target
  finish_lem fuel out w f v =
      let (d, e, a) = drain_pending_lem fuel out w f v in
      let flushed : T.State = law.flush_next d.target in
      let ready : law.IsFlushed flushed = law.flush_ready d.target in
      let after : T.State = law.seek_next d.logical_len flushed in
      (
        record d { target = after; physical_pos = d.logical_len },
        rw (
          e,
          law.flush_gives d.target,
          law.seek_gives d.logical_len flushed ready,
          (==_iff d.logical_len d.logical_len).1 refl,
        ),
        law.seek_keeps d.logical_len flushed
            ∙ law.flush_keeps d.target
            ∙ sym (append-nil (law.bytes d.target))
            ∙ ap (λ l. law.bytes d.target ++ l) (sym a.empty)
            ∙ a.writing.content,
        law.seek_moves d.logical_len flushed ∙ a.writing.len_known,
        law.seek_ready d.logical_len flushed ready,
      )

  pub Writing-new :
      (target : T.State) → law.bytes target ≡ [] → law.position target ≡ 0 → Writing [] (new target)
  unfolding new
  Writing-new target e p = record {
    sized = omega arith;
    len_known = refl;
    content = append-nil (law.bytes target) ∙ e;
    at_end = sym (ap (λ (l : List ℕ). length l) e);
    stands = p;
    pending_small = omega arith;
  }
