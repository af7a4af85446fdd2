-- ===== src/Vcdiff/Decoder/Copying.antt =====
-- The two branches of `copy` append what a copy from the superstring of a window means.
use rust_crates.Prelude.{
  ℕ, ◌+◌, ◌-◌, ◌≤◌, ◌<◌, ◌≡◌, sym, ap, ◌∙◌, subst, Option, List, ◌++◌, arith, true, false,
  append_assoc,
}
use rust_crates.Prelude.{
  IsU64, IsByte, All, length, take, drop, length-take, length-drop, length-append, ltb, leb, lt→ltb,
  ltb-false, ◌==◌, checked_add,
}
use rust_crates.Vcdiff.Error.{ok, DecodeContext, DecodeError, ◌>>=◌, ok_or}
use rust_crates.Vcdiff.Stream.{Stream, ReadsBytes, WritesBytes}
use rust_crates.Vcdiff.Adler.Sums.{All-append}
use rust_crates.Vcdiff.Target.{TargetWriter, io_buffer_size}
use rust_crates.Vcdiff.Target
use rust_crates.Vcdiff.Target.Emit.{Holds}
use rust_crates.Vcdiff.Target.Run.{Extended}
use rust_crates.Vcdiff.Target.Copy.{copy_from_target_lem}
use rust_crates.Vcdiff.Target.Repeat.{copy_from_current_lem}
use rust_crates.Vcdiff.Target.Overlap.{overlap, overlap-prefix, overlap-front, take-drop-append}
use rust_crates.Vcdiff.SourceCopy.Copied.{copy_from_source_lem}
use rust_crates.Vcdiff.Decoder.Instructions.{
  Segment, WindowContext, Machine, segment_len, copy_out_of, copy_segment, copy_window,
}
use rust_crates.Vcdiff.Decoder.Semantics.{
  Segments, no_segment, source_segment, target_segment, Progress,
}
use rust_crates.Vcdiff.Decoder.Performing.{take-drop-slice, length-Segments, IsPlaced, Ready}

module _ {S T : Stream} (source_law : ReadsBytes S) (law : WritesBytes T) where
  -- The output of a copy becomes the machine's.
  copied :
      (source before added : List ℕ) (σ : Progress) (m : Machine S T) (stream : S.State)
      (w : TargetWriter T)
      → Ready source_law law source before σ m
      → source_law.bytes stream ≡ source
      → Extended law ((before ++ σ.produced) ++ added) (σ.produced ++ added) m.output w
      → Ready source_law law source before
          (record σ { produced = σ.produced ++ added })
          (record m { source = stream; output = w })
  copied source before added σ m stream w r kept x = record {
    holds =
        subst (λ o. Holds law o (σ.produced ++ added) w) (append_assoc before σ.produced added)
          x.holds;
    source_kept = kept;
    data_at = r.data_at;
    address_at = r.address_at;
    cache_at = r.cache_at;
  }

  from_segment_lem :
      (fuel size address : ℕ) (source before segment : List ℕ) (s : Option Segment)
      (fault overflow : DecodeError) (context : DecodeContext) (σ : Progress) (m : Machine S T)
      → io_buffer_size ≤ fuel
      → Segments source before s segment
      → Ready source_law law source before σ m
      → All IsByte source
      → All IsByte before
      → IsU64 (length source)
      → IsU64 (length before + length σ.produced + size)
      → address < length segment
      → address + size ≤ length segment
      → (m' : Machine S T) × ((do
        used ← ok_or s fault
        start ← ok_or (checked_add used.start address) overflow
        copy_out_of used.kind fuel start size context m)
          ≡ ok m')
        × Ready source_law law source before
            (record σ { produced = σ.produced ++ overlap (segment ++ σ.produced) address size })
            m'
  unfolding copy_out_of
  from_segment_lem fuel size address source before segment s fault overflow context σ m f no_segment
        r bs bb us uo below inside =
      absurd (omega arith)
  from_segment_lem fuel size address source before segment s fault overflow context σ m f
        (source_segment start len h) r bs bb us uo below inside =
      let all : length (take len (drop start source)) ≡ len =
        omega (arith, length-take len (drop start source), length-drop start source) in
      let fits : ltb (start + address) 0x1_0000_0000_0000_0000 ≡ true =
        lt→ltb _ _ (omega (arith, all)) in
      let (stream, w, e, kept, x) =
        copy_from_source_lem source_law law fuel (start + address) size source
          (before ++ σ.produced) σ.produced context m.source m.output f r.source_kept bs
          (omega (arith, all)) us r.holds (omega (arith, length-append before σ.produced)) in
      let same : take size (drop (start + address) source)
          ≡ overlap (take len (drop start source) ++ σ.produced) address size =
        take-drop-slice start len address size source (omega (arith, all))
        ∙ sym (overlap-front size (take len (drop start source)) σ.produced address inside) in
      (
        record m { source = stream; output = w },
        rw (fits, e),
        subst
            (λ l.
              Ready source_law law source before (record σ { produced = σ.produced ++ l })
                (record m { source = stream; output = w }))
            same
            (copied source before (take size (drop (start + address) source)) σ m stream w r kept
              x),
      )
  from_segment_lem fuel size address source before segment s fault overflow context σ m f
        (target_segment start len h) r bs bb us uo below inside =
      let all : length (take len (drop start before)) ≡ len =
        omega (arith, length-take len (drop start before), length-drop start before) in
      let fits : ltb (start + address) 0x1_0000_0000_0000_0000 ≡ true =
        lt→ltb _ _ (omega (arith, all)) in
      let out : List ℕ = before ++ σ.produced in
      let (w, e, x) =
        copy_from_target_lem law fuel (start + address) size out σ.produced context m.output f
          r.holds (All-append before σ.produced bb r.holds.bytes_small)
          (omega (arith, all, length-append before σ.produced))
          (omega (arith, length-append before σ.produced)) in
      let same : take size (drop (start + address) out)
          ≡ overlap (take len (drop start before) ++ σ.produced) address size =
        take-drop-append size (start + address) before σ.produced (omega (arith, all))
        ∙ take-drop-slice start len address size before (omega (arith, all))
        ∙ sym (overlap-front size (take len (drop start before)) σ.produced address inside) in
      (
        record m { output = w },
        rw (fits, e),
        subst
            (λ l.
              Ready source_law law source before (record σ { produced = σ.produced ++ l })
                (record m { output = w }))
            same
            (copied source before (take size (drop (start + address) out)) σ m m.source w r
              r.source_kept x),
      )

  module _ (source before segment : List ℕ) (window : WindowContext)
      (placed : IsPlaced source before segment window) (fuel : ℕ)
      (attempts : io_buffer_size ≤ fuel) where
    pub copy_segment_lem :
        (size here address : ℕ) (context : DecodeContext) (σ : Progress) (m : Machine S T)
        → Ready source_law law source before σ m
        → address < length segment
        → address + size ≤ length segment
        → length σ.produced + size ≤ window.target_size
        → (m' : Machine S T) × (copy_segment fuel window size here address context m ≡ ok m')
          × Ready source_law law source before
              (record σ { produced = σ.produced ++ overlap (segment ++ σ.produced) address size })
              m'
    unfolding copy_segment
    copy_segment_lem size here address context σ m r below inside room =
        let boundary : segment_len window.segment ≡ length segment =
          length-Segments placed.segments in
        let fits : ltb (address + size) 0x1_0000_0000_0000_0000 ≡ true =
          lt→ltb _ _ (omega (arith, placed.view_sized)) in
        let whole : ltb (segment_len window.segment) (address + size) ≡ false =
          ltb-false _ _ (omega (arith, boundary)) in
        rw (fits, whole)
          (from_segment_lem fuel size address source before segment window.segment _ _ context σ m
            attempts placed.segments r placed.source_bytes placed.before_bytes placed.source_sized
            (omega (arith, placed.output_sized)) below inside)

    pub copy_window_lem :
        (size here address : ℕ) (context : DecodeContext) (σ : Progress) (m : Machine S T)
        → Ready source_law law source before σ m
        → length segment ≤ address
        → address < length segment + length σ.produced
        → length σ.produced + size ≤ window.target_size
        → (m' : Machine S T) × (copy_window fuel window size here address context m ≡ ok m')
          × Ready source_law law source before
              (record σ { produced = σ.produced ++ overlap (segment ++ σ.produced) address size })
              m'
    unfolding copy_window Target.len
    copy_window_lem size here address context σ m r above below room =
        let boundary : segment_len window.segment ≡ length segment =
          length-Segments placed.segments in
        let len : m.output.logical_len ≡ length before + length σ.produced =
          r.holds.writing.len_known ∙ length-append before σ.produced in
        let offset : ℕ = address - segment_len window.segment in
        let start : ℕ = window.window_start + offset in
        let fits : ltb start 0x1_0000_0000_0000_0000 ≡ true =
          lt→ltb _ _ (omega (arith, boundary, placed.starts, placed.output_sized)) in
        let behind : leb start m.output.logical_len ≡ true =
          ground (arith, len, boundary, placed.starts) in
        let apart : ((m.output.logical_len - start) == 0) ≡ false =
          ground (arith, len, boundary, placed.starts) in
        let out : List ℕ = before ++ σ.produced in
        let (w, e, x) =
          copy_from_current_lem law fuel start size (m.output.logical_len - start) out σ.produced
            context m.output attempts r.holds
            (All-append before σ.produced placed.before_bytes r.holds.bytes_small)
            (omega (arith, len, boundary, placed.starts))
            (omega (arith, len, boundary, placed.starts, length-append before σ.produced))
            (omega (arith, length-append before σ.produced, placed.output_sized)) in
        let at : start ≡ length before + offset = omega (arith, placed.starts) in
        let view : length segment + offset ≡ address = omega (arith, boundary) in
        let same : overlap out start size ≡ overlap (segment ++ σ.produced) address size =
          ap (λ (k : ℕ). overlap out k size) at
          ∙ overlap-prefix size before σ.produced offset
          ∙ sym (overlap-prefix size segment σ.produced offset)
          ∙ ap (λ (k : ℕ). overlap (segment ++ σ.produced) k size) view in
        (
          record m { output = w },
          rw (fits, behind, apart, e),
          subst
              (λ l.
                Ready source_law law source before (record σ { produced = σ.produced ++ l })
                  (record m { output = w }))
              same (copied source before (overlap out start size) σ m m.source w r r.source_kept x),
        )
