-- ===== src/Vcdiff/Decoder/Performing.antt =====
-- The functions `add`, `run` and `copy` do what the instructions of RFC 3284 mean.
use rust_crates.Prelude.{
  ℕ, ◌+◌, ◌-◌, ◌≤◌, ◌≡◌, refl, sym, ap, ◌∙◌, subst, Option, List, ◌∷◌, ◌++◌, arith, true, false,
  append_assoc,
}
use rust_crates.Prelude.{
  IsU64, IsByte, All, length, take, drop, replicate, length-take, length-drop, length-append,
  drop-drop, drop-take, take-take, take-append, ltb, leb, lt→ltb, ltb-false,
}
use rust_crates.Vcdiff.Error.{ok, DecodeContext}
use rust_crates.Vcdiff.Stream.{Stream, ReadsBytes, WritesBytes}
use rust_crates.Vcdiff.Cursor
use rust_crates.Vcdiff.Cursor.{SliceCursor}
use rust_crates.Vcdiff.Cursor.Reads.{advance, unread, IsInside, read_slice-ok, read_u8-ok}
use rust_crates.Vcdiff.Target.{TargetWriter, io_buffer_size}
use rust_crates.Vcdiff.Target
use rust_crates.Vcdiff.Target.Emit.{Holds, emit_lem}
use rust_crates.Vcdiff.Target.Run.{emit_run_lem}
use rust_crates.Vcdiff.Decoder.Instructions.{
  Segment, WindowContext, Machine, segment_len, check_room, run_add, run_run,
}
use rust_crates.Vcdiff.Decoder.Semantics.{
  Segments, no_segment, source_segment, target_segment, Progress,
}

pub take-drop-slice :
    (start len i n : ℕ) (xs : List ℕ)
    → i + n ≤ len
    → take n (drop (start + i) xs) ≡ take n (drop i (take len (drop start xs)))
take-drop-slice start len i n xs h =
    ap (take n) (sym (drop-drop start i xs))
    ∙ sym (take-take n (len - i) (drop i (drop start xs)) (omega arith))
    ∙ ap (take n) (sym (drop-take i len (drop start xs)))

pub length-Segments :
    {source before segment : List ℕ} {s : Option Segment}
    → Segments source before s segment
    → segment_len s ≡ length segment
unfolding segment_len
length-Segments no_segment = refl
length-Segments {source} (source_segment start len h) =
    omega (arith, length-take len (drop start source), length-drop start source)
length-Segments {before = before} (target_segment start len h) =
    omega (arith, length-take len (drop start before), length-drop start before)

-- The window stands behind the output `before`, and its segment is `segment`.
pub record IsPlaced (source before segment : List ℕ) (window : WindowContext) : Type 0 where
  pub starts : window.window_start ≡ length before
  pub segments : Segments source before window.segment segment
  pub source_bytes : All IsByte source
  pub before_bytes : All IsByte before
  pub source_sized : IsU64 (length source)
  pub output_sized : IsU64 (length before + window.target_size)
  pub view_sized : IsU64 (length segment + window.target_size)

module _ {S T : Stream} (source_law : ReadsBytes S) (law : WritesBytes T) where
  -- The machine has made the progress `σ` behind the output `before`.
  pub record Ready (source before : List ℕ) (σ : Progress) (m : Machine S T) : Type 0 where
    pub holds : Holds law (before ++ σ.produced) σ.produced m.output
    pub source_kept : source_law.bytes m.source ≡ source
    pub data_at : m.data_cursor ≡ σ.data_cursor
    pub address_at : m.address_cursor ≡ σ.address_cursor
    pub cache_at : m.cache ≡ σ.cache

  module _ (source before segment : List ℕ) (window : WindowContext)
      (placed : IsPlaced source before segment window) (fuel : ℕ)
      (attempts : io_buffer_size ≤ fuel) where
    pub check_room_lem :
        (size : ℕ) (context : DecodeContext) (σ : Progress) (m : Machine S T)
        → Ready source before σ m
        → length σ.produced + size ≤ window.target_size
        → check_room window m.output size context ≡ ok tt
    unfolding check_room Target.len
    check_room_lem size context σ m r room =
        let len : m.output.logical_len ≡ length before + length σ.produced =
          r.holds.writing.len_known ∙ length-append before σ.produced in
        let behind : leb window.window_start m.output.logical_len ≡ true =
          ground (arith, len, placed.starts) in
        let fits : ltb (m.output.logical_len - window.window_start + size) 0x1_0000_0000_0000_0000
            ≡ true =
          lt→ltb _ _ (omega (arith, len, placed.starts, placed.output_sized)) in
        let enough : ltb window.target_size (m.output.logical_len - window.window_start + size)
            ≡ false =
          ltb-false _ _ (omega (arith, len, placed.starts)) in
        rw (behind, fits, enough)

    pub adds_lem :
        (size : ℕ) (bytes rest : List ℕ) (σ : Progress) (m : Machine S T)
        → Ready source before σ m
        → IsInside σ.data_cursor
        → unread σ.data_cursor ≡ bytes ++ rest
        → length bytes ≡ size
        → All IsByte bytes
        → length σ.produced + size ≤ window.target_size
        → (m' : Machine S T) × (run_add fuel window size m ≡ ok m')
          × Ready source before
              (record σ {
                produced = σ.produced ++ bytes;
                data_cursor = advance size σ.data_cursor;
              })
              m'
    unfolding run_add unread
    adds_lem size bytes rest σ m r i u e b room =
        let context : DecodeContext = Cursor.context m.data_cursor in
        let left : length σ.data_cursor.bytes - σ.data_cursor.pos ≡ size + length rest =
          sym (length-drop σ.data_cursor.pos σ.data_cursor.bytes)
          ∙ ap (λ (l : List ℕ). length l) u
          ∙ omega (arith, length-append bytes rest) in
        let given : Cursor.read_slice size m.data_cursor ≡ ok (bytes, advance size σ.data_cursor) =
          ap (Cursor.read_slice size) r.data_at
          ∙ read_slice-ok size σ.data_cursor i (omega (arith, i.within))
          ∙ ap (λ (l : List ℕ). ok (l, advance size σ.data_cursor))
              (ap (take size) u
                ∙ ap (λ (n : ℕ). take n (bytes ++ rest)) (sym e)
                ∙ take-append bytes rest) in
        let (w', e', q) =
          emit_lem law fuel bytes (before ++ σ.produced) σ.produced context m.output attempts
            r.holds b (omega (arith, length-append before σ.produced, placed.output_sized)) in
        (
          record m { data_cursor = advance size σ.data_cursor; output = w' },
          rw (check_room_lem size context σ m r room, given, e'),
          record {
            holds =
                subst (λ o. Holds law o (σ.produced ++ bytes) w')
                  (append_assoc before σ.produced bytes) q.holds;
            source_kept = r.source_kept;
            data_at = refl;
            address_at = r.address_at;
            cache_at = r.cache_at;
          },
        )

    pub runs_lem :
        (size byte : ℕ) (rest : List ℕ) (σ : Progress) (m : Machine S T)
        → Ready source before σ m
        → IsInside σ.data_cursor
        → unread σ.data_cursor ≡ byte ∷ rest
        → IsByte byte
        → length σ.produced + size ≤ window.target_size
        → (m' : Machine S T) × (run_run fuel window size m ≡ ok m')
          × Ready source before
              (record σ {
                produced = σ.produced ++ replicate size byte;
                data_cursor = advance 1 σ.data_cursor;
              })
              m'
    unfolding run_run
    runs_lem size byte rest σ m r i u b room =
        let context : DecodeContext = Cursor.context m.data_cursor in
        let given : Cursor.read_u8 m.data_cursor ≡ ok (byte, advance 1 σ.data_cursor) =
          ap Cursor.read_u8 r.data_at ∙ read_u8-ok σ.data_cursor byte rest i u in
        let (w', e', q) =
          emit_run_lem law fuel byte size (before ++ σ.produced) σ.produced context m.output
            attempts r.holds b
            (omega (arith, length-append before σ.produced, placed.output_sized)) in
        (
          record m { data_cursor = advance 1 σ.data_cursor; output = w' },
          rw (check_room_lem size context σ m r room, given, e'),
          record {
            holds =
                subst (λ o. Holds law o (σ.produced ++ replicate size byte) w')
                  (append_assoc before σ.produced (replicate size byte)) q.holds;
            source_kept = r.source_kept;
            data_at = refl;
            address_at = r.address_at;
            cache_at = r.cache_at;
          },
        )
