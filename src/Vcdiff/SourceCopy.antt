-- ===== src/Vcdiff/SourceCopy.antt =====
-- crates/vcdiff/src/target.rs, `copy_from_source` and `read_source_exact`: copies out of the source.
pub mod Exact
pub mod Copied
use rust_crates.Prelude.{ℕ, zero, suc, ◌-◌, not, Option, some, List, [], ◌∷◌, ◌++◌, min}
use rust_crates.Prelude.{◌==◌, length, checked_add}
use rust_crates.Vcdiff.Error.{
  DecodeContext, ByteRange, Result, ok, err, stuck, ◌>>=◌, ◌>>◌, refuse, ok_or, try_usize,
}
use rust_crates.Vcdiff.Error.{
  interrupted, unexpected_eof, invalid_data, read, seek, source_io, arithmetic_overflow,
}
use rust_crates.Vcdiff.Stream.{Stream, IoResult, SeekFrom, done, failed}
use rust_crates.Vcdiff.Target.{io_buffer_size, TargetWriter, emit_scratch}

module _ (S : Stream) where
  -- The answer of one `read`; `again` reads on, for so many bytes.
  unfoldable pub after_source_read :
      IoResult (List ℕ)
      → ℕ
      → ByteRange
      → Option ℕ
      → S.State
      → (ℕ → S.State → Result (List ℕ × S.State))
      → Result (List ℕ × S.State)
  after_source_read (done []) wanted range window source again =
      err (source_io read (some range) window unexpected_eof)
  after_source_read (done (b ∷ bs)) wanted range window source again = do
    (rest, source') ← again (wanted - length (b ∷ bs)) source
    ok ((b ∷ bs) ++ rest, source')
  after_source_read (failed interrupted) wanted range window source again = again wanted source
  after_source_read (failed e) wanted range window source again =
      err (source_io read (some range) window e)

  unfoldable pub read_source_exact :
      ℕ → ℕ → ByteRange → Option ℕ → S.State → Result (List ℕ × S.State)
  unfolding after_source_read
  read_source_exact fuel zero range window source = ok ([], source)
  read_source_exact zero (suc wanted) range window source = stuck
  read_source_exact (suc fuel) (suc wanted) range window source =
      let (answer, source') = S.read (suc wanted) source in
      after_source_read answer (suc wanted) range window source'
        λ n s. read_source_exact fuel n range window s

module _ (S : Stream) {T : Stream} where
  unfoldable pub source_loop :
      ℕ
      → ℕ
      → ℕ
      → ℕ
      → ℕ
      → DecodeContext
      → S.State
      → TargetWriter T
      → Result (S.State × TargetWriter T)
  source_loop rounds fuel start copied zero context source w = ok (source, w)
  source_loop zero fuel start copied (suc left) context source w = stuck
  source_loop (suc rounds) fuel start copied (suc left) context source w = do
    count ← try_usize (min (suc left) io_buffer_size) context
    chunk_start ← ok_or (checked_add start copied) (arithmetic_overflow context)
    (bytes, source') ←
        read_source_exact S fuel count (record { start = chunk_start; len = count }) w.window source
    w' ← emit_scratch fuel count context (record w { scratch = bytes })
    copied' ← ok_or (checked_add copied count) (arithmetic_overflow context)
    source_loop rounds fuel start copied' (suc left - count) context source' w'

  -- The answer of the `seek` at the head of `copy_from_source`.
  unfoldable pub after_source_seek :
      IoResult ℕ
      → ℕ
      → ℕ
      → ℕ
      → DecodeContext
      → S.State
      → TargetWriter T
      → Result (S.State × TargetWriter T)
  after_source_seek (failed e) fuel start size context source w =
      err (source_io seek (some (record { start = start; len = size })) w.window e)
  after_source_seek (done actual) fuel start size context source w = do
    refuse (not (actual == start))
        (source_io seek (some (record { start = start; len = size })) w.window invalid_data)
    source_loop size fuel start 0 size context source w

  unfoldable pub copy_from_source :
      ℕ → ℕ → ℕ → DecodeContext → S.State → TargetWriter T → Result (S.State × TargetWriter T)
  unfolding after_source_seek
  copy_from_source fuel start size context source w =
      let (answer, source') = S.seek (SeekFrom.start start) source in
      after_source_seek answer fuel start size context source' (record w { context = context })
