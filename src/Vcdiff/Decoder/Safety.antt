-- ===== src/Vcdiff/Decoder/Safety.antt =====
-- `copy` and `execute` on any sections: they answer, and a window never grows past its size.
use rust_crates.Prelude.{
  ℕ, ◌+◌, ◌-◌, ◌≤◌, ◌<◌, ◌≡◌, ◌⊎◌, inl, inr, refl, sym, ◌∙◌, List, [], ◌++◌, append-nil, arith,
  true, false, Bool-cases,
}
use rust_crates.Prelude.{IsU64, length, length-append, ltb, leb, lt→ltb}
use native.Mathlib.Decide.{dec_lt}
use rust_crates.Vcdiff.Error.{ok, err, DecodeError, Result}
use rust_crates.Vcdiff.Stream.{Stream, ReadsBytes, WritesBytes}
use rust_crates.Vcdiff.Cursor
use rust_crates.Vcdiff.Cursor.{SliceCursor}
use rust_crates.Vcdiff.Cursor.Reads.{IsInside, advance, unread}
use rust_crates.Vcdiff.Cache
use rust_crates.Vcdiff.Cache.{AddressCache}
use rust_crates.Vcdiff.Cache.History.{IsValid}
use rust_crates.Vcdiff.Cache.Modes.{Decodes, decodes, rejects}
use rust_crates.Vcdiff.Cache.Total.{decode-Decodes}
use rust_crates.Vcdiff.CodeTable.{InstKind, instruction, no_op, add, run, copy}
use rust_crates.Vcdiff.Adler.Sums.{IsByte-drop}
use rust_crates.Vcdiff.Target.{io_buffer_size}
use rust_crates.Vcdiff.Target
use rust_crates.Vcdiff.Target.Overlap.{overlap, length-overlap}
use rust_crates.Vcdiff.Decoder.Instructions.{
  WindowContext, Machine, segment_len, run_copy, copy_segment, execute,
}
use rust_crates.Vcdiff.Decoder.Semantics.{Progress}
use rust_crates.Vcdiff.Decoder.Performing.{IsPlaced, Ready, length-Segments}
use rust_crates.Vcdiff.Decoder.Executing.{copy_decoded_lem}
use rust_crates.Vcdiff.Decoder.Answering.{
  IsSound, Answers, produces, refuses, check_room-cases, add-Answers, run-Answers,
}

Decodes-cases :
    {c : SliceCursor} {r : Result (ℕ × AddressCache × SliceCursor)}
    → Decodes c r
    → ((a n : ℕ) × (cache : AddressCache) × (r ≡ ok (a, cache, advance n c))
        × IsU64 a
        × IsValid cache
        × IsInside (advance n c))
      ⊎ ((e : DecodeError) × (r ≡ err e))
Decodes-cases (decodes a n cache w p v i) = inl (a, n, cache, refl, w, v, i)
Decodes-cases (rejects e) = inr (e, refl)

module _ {S T : Stream} (source_law : ReadsBytes S) (law : WritesBytes T)
    (source before segment : List ℕ) (window : WindowContext)
    (placed : IsPlaced source before segment window) (fuel : ℕ)
    (attempts : io_buffer_size ≤ fuel) where
  copy-Answers :
      (size mode : ℕ) (σ : Progress) (m : Machine S T)
      → Ready source_law law source before σ m
      → IsSound window.target_size σ
      → Answers source_law law source before segment window placed fuel attempts σ
          (run_copy fuel window size mode m)
  unfolding Target.len
  copy-Answers size mode σ m r s =
      elim (check_room-cases source_law law source before segment window placed fuel attempts size
        (Cursor.context m.address_cursor) σ m r) [
          | inr (e, refused) ↦ unfold run_copy in rw refused (refuses e)
          | inl (passed, room) ↦
              let boundary : segment_len window.segment ≡ length segment =
                length-Segments placed.segments in
              let len : m.output.logical_len ≡ length before + length σ.produced =
                r.holds.writing.len_known ∙ length-append before σ.produced in
              let here : ℕ =
                segment_len window.segment + (m.output.logical_len - window.window_start) in
              let view : ℕ = length segment + length σ.produced in
              let here_known : here ≡ view = omega (arith, boundary, len, placed.starts) in
              let behind : leb window.window_start m.output.logical_len ≡ true =
                ground (arith, len, placed.starts) in
              let fits : ltb here 0x1_0000_0000_0000_0000 ≡ true =
                lt→ltb _ _ (omega (arith, here_known, placed.view_sized)) in
              let looked : Cache.decode mode here m.cache m.address_cursor
                  ≡ Cache.decode mode view σ.cache σ.address_cursor =
                (λ j. Cache.decode mode (here_known j) (r.cache_at j) (r.address_at j)) in
              elim (Decodes-cases (
                decode-Decodes view σ.cache σ.address_cursor (omega (arith, placed.view_sized))
                  s.cache_valid s.address_inside
                  (unfold unread in IsByte-drop σ.address_cursor.pos _ s.address_bytes) mode)) [
                    | inr (e, rejected) ↦
                        unfold run_copy in rw (passed, behind, fits, looked, rejected) (refuses e)
                    | inl (address, n, cache, d, word, valid, inside) ↦ elim (dec_lt address view) [
                      | no beyond ↦
                          let out : leb here address ≡ true = ground (arith, here_known) in
                          unfold run_copy in rw (passed, behind, fits, looked, d, out) (refuses _)
                      | yes below ↦ elim (crosses address size) [
                        | inl legal ↦
                            let (m', e, r') =
                              copy_decoded_lem source_law law source before segment window placed
                                fuel attempts size mode address cache (advance n σ.address_cursor) σ
                                m r d below legal room in
                            let added : List ℕ = overlap (segment ++ σ.produced) address size in
                            rw e (
                              produces added _ m' r'
                                (record {
                                  data_inside = s.data_inside;
                                  data_bytes = s.data_bytes;
                                  address_inside = inside;
                                  address_bytes = s.address_bytes;
                                  cache_valid = valid;
                                  within = omega (
                                    arith,
                                    length-append σ.produced added,
                                    length-overlap (segment ++ σ.produced) address size,
                                  );
                                })
                                refl)
                        | inr (low, high) ↦
                            let out : leb here address ≡ false = ground (arith, here_known) in
                            let front : ltb address (segment_len window.segment) ≡ true =
                              lt→ltb _ _ (omega (arith, boundary)) in
                            elim (Bool-cases (ltb (address + size) 0x1_0000_0000_0000_0000)) [
                              | inr wide ↦
                                  unfold run_copy copy_segment in
                                  rw (passed, behind, fits, looked, d, out, front, wide) (refuses _)
                              | inl small ↦
                                  let over : ltb (segment_len window.segment) (address + size)
                                      ≡ true =
                                    lt→ltb _ _ (omega (arith, boundary)) in
                                  unfold run_copy copy_segment in
                                  rw (passed, behind, fits, looked, d, out, front, small, over)
                                    (refuses _)
                            ]
                      ]
                    ]
                  ]
        ]
    where
      crosses :
          (address size : ℕ)
          → (address < length segment → address + size ≤ length segment)
            ⊎ ((address < length segment) × (length segment < address + size))
      crosses address size = elim (dec_lt address (length segment)) [
        | no high ↦ inl (λ h. absurd (high h))
        | yes low ↦ elim (dec_lt (length segment) (address + size)) [
          | yes over ↦ inr (low, over)
          | no whole ↦ inl (λ h. omega arith)
        ]
      ]

  -- On any sections of bytes, whatever the kind, size and mode, `execute` comes to an answer: the window
  -- is extended and stays within its target size, with cursors inside their sections and a valid cache,
  -- or an error; it never panics and does not run out of attempts.
  -- The streams keep the promises of the traits, the fuel is no less than the I/O buffer, and the
  -- window is placed behind an output and beside a source of bytes, below 2^64 together.
  pub execute-Answers :
      (kind : InstKind) (table_size mode size : ℕ) (σ : Progress) (m : Machine S T)
      → Ready source_law law source before σ m
      → IsSound window.target_size σ
      → Answers source_law law source before segment window placed fuel attempts σ
          (execute fuel window (instruction kind table_size mode) size m)
  unfolding execute
  execute-Answers no_op table_size mode size σ m r s =
      produces [] σ m r s (sym (append-nil σ.produced))
  execute-Answers add table_size mode size σ m r s =
      add-Answers source_law law source before segment window placed fuel attempts size σ m r s
  execute-Answers run table_size mode size σ m r s =
      run-Answers source_law law source before segment window placed fuel attempts size σ m r s
  execute-Answers copy table_size mode size σ m r s = copy-Answers size mode σ m r s
