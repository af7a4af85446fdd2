-- ===== src/Vcdiff/Target/Device.antt =====
-- crates/vcdiff/src/target.rs: the state of `TargetWriter` and its traffic with the target stream.
use rust_crates.Prelude.{
  ℕ, zero, suc, ◌-◌, not, Option, none, some, List, [], ◌∷◌, ◌++◌, length, drop,
}
use rust_crates.Prelude.{◌==◌, if◌then◌else◌, checked_add, checked_sub}
use rust_crates.Vcdiff.Error.{
  DecodeContext, ByteRange, bare_context, Result, ok, err, stuck, ◌>>=◌, ◌>>◌, refuse, ok_or,
}
use rust_crates.Vcdiff.Error.{
  interrupted, unexpected_eof, write_zero, invalid_data, read, write, flush, seek, target_io,
  arithmetic_overflow,
}
use rust_crates.Vcdiff.Stream.{Stream, IoResult, SeekFrom, done, failed}
use rust_crates.Vcdiff.Adler
use rust_crates.Vcdiff.Adler.{Adler32}

abbrev pub io_buffer_size : ℕ
io_buffer_size = 65536

pub record TargetWriter (T : Stream) : Type 0 where
  pub target : T.State
  pub pending : List ℕ
  pub scratch : List ℕ
  pub logical_len : ℕ
  pub physical_pos : ℕ
  pub window : Option ℕ
  pub context : DecodeContext
  pub adler : Adler32

module _ {T : Stream} where
  unfoldable pub new : T.State → TargetWriter T
  new target = record {
    target = target;
    pending = [];
    scratch = [];
    logical_len = 0;
    physical_pos = 0;
    window = none;
    context = bare_context 0;
    adler = Adler.new;
  }

  unfoldable pub begin_window : ℕ → DecodeContext → TargetWriter T → TargetWriter T
  begin_window window context w = record w {
    window = some window;
    context = context;
    adler = Adler.new;
  }

  unfoldable pub len : TargetWriter T → ℕ
  len w = w.logical_len

  unfoldable pub checksum : TargetWriter T → ℕ
  checksum w = Adler.finish w.adler

  -- The answer of the `seek` in `seek_target`.
  unfoldable pub after_seek :
      IoResult ℕ → ℕ → Option ByteRange → TargetWriter T → Result (TargetWriter T)
  after_seek (failed e) position range w = err (target_io seek range w.window e)
  after_seek (done actual) position range w = do
    refuse (not (actual == position)) (target_io seek range w.window invalid_data)
    ok (record w { physical_pos = position })

  unfoldable pub seek_target : ℕ → Option ByteRange → TargetWriter T → Result (TargetWriter T)
  unfolding after_seek
  seek_target position range w =
      let (answer, target) = T.seek (SeekFrom.start position) w.target in
      after_seek answer position range (record w { target = target })

  unfoldable pub after_flush : IoResult (Unit {0}) → TargetWriter T → Result (TargetWriter T)
  after_flush (failed e) w = err (target_io flush none w.window e)
  after_flush (done u) w = ok w

  unfoldable pub flush_target : TargetWriter T → Result (TargetWriter T)
  unfolding after_flush
  flush_target w =
      let (answer, target) = T.flush w.target in after_flush answer (record w { target = target })

  -- `if self.physical_pos != position { self.seek_target(position, …)?; }`
  unfoldable pub seek_if_elsewhere : ℕ → ByteRange → TargetWriter T → Result (TargetWriter T)
  seek_if_elsewhere position range w =
      if w.physical_pos == position then ok w else seek_target position (some range) w

  -- The answer of one `write` of `bytes`; `again` goes on with the bytes that are left.
  unfoldable pub after_write :
      IoResult ℕ
      → List ℕ
      → ByteRange
      → TargetWriter T
      → (List ℕ → TargetWriter T → Result (TargetWriter T))
      → Result (TargetWriter T)
  after_write (done zero) bytes range w again =
      err (target_io write (some range) w.window write_zero)
  after_write (done (suc n)) bytes range w again = do
    pos ← ok_or (checked_add w.physical_pos (suc n)) (arithmetic_overflow w.context)
    again (drop (suc n) bytes) (record w { physical_pos = pos })
  after_write (failed interrupted) bytes range w again = again bytes w
  after_write (failed e) bytes range w again = err (target_io write (some range) w.window e)

  -- `while written < self.pending.len()`, over the bytes `pending[written..]`
  unfoldable pub write_loop : ℕ → List ℕ → ByteRange → TargetWriter T → Result (TargetWriter T)
  unfolding after_write
  write_loop fuel [] range w = ok w
  write_loop zero (b ∷ bs) range w = stuck
  write_loop (suc fuel) (b ∷ bs) range w =
      let (answer, target) = T.write (b ∷ bs) w.target in
      after_write answer (b ∷ bs) range (record w { target = target })
        λ rest w'. write_loop fuel rest range w'

  unfoldable pub drain_buffer : ℕ → List ℕ → TargetWriter T → Result (TargetWriter T)
  unfolding seek_if_elsewhere
  drain_buffer fuel [] w = ok w
  drain_buffer fuel (b ∷ bs) w = do
    let pending_len = length (b ∷ bs)
    start ← ok_or (checked_sub w.logical_len pending_len) (arithmetic_overflow w.context)
    let range : ByteRange = record { start = start; len = pending_len }
    placed ← seek_if_elsewhere start range w
    written ← write_loop fuel (b ∷ bs) range placed
    ok (record written { pending = [] })

  unfoldable pub drain_pending : ℕ → TargetWriter T → Result (TargetWriter T)
  unfolding drain_buffer
  drain_pending fuel w = drain_buffer fuel w.pending w

  -- The answer of one `read`; `again` reads on, for so many bytes.
  unfoldable pub after_read :
      IoResult (List ℕ)
      → ℕ
      → ByteRange
      → TargetWriter T
      → (ℕ → TargetWriter T → Result (List ℕ × TargetWriter T))
      → Result (List ℕ × TargetWriter T)
  after_read (done []) wanted range w again =
      err (target_io read (some range) w.window unexpected_eof)
  after_read (done (b ∷ bs)) wanted range w again = do
    let count = length (b ∷ bs)
    pos ← ok_or (checked_add w.physical_pos count) (arithmetic_overflow w.context)
    (rest, w') ← again (wanted - count) (record w { physical_pos = pos })
    ok ((b ∷ bs) ++ rest, w')
  after_read (failed interrupted) wanted range w again = again wanted w
  after_read (failed e) wanted range w again = err (target_io read (some range) w.window e)

  -- `while read < output.len()`: `wanted` bytes are not read yet.
  unfoldable pub read_loop : ℕ → ℕ → ByteRange → TargetWriter T → Result (List ℕ × TargetWriter T)
  unfolding after_read
  read_loop fuel zero range w = ok ([], w)
  read_loop zero (suc wanted) range w = stuck
  read_loop (suc fuel) (suc wanted) range w =
      let (answer, target) = T.read (suc wanted) w.target in
      after_read answer (suc wanted) range (record w { target = target })
        λ n w'. read_loop fuel n range w'

  unfoldable pub read_target :
      ℕ → ℕ → ℕ → DecodeContext → TargetWriter T → Result (List ℕ × TargetWriter T)
  unfolding seek_if_elsewhere
  read_target fuel start wanted context w = do
    drained ← drain_pending fuel (record w { context = context })
    flushed ← flush_target drained
    let range : ByteRange = record { start = start; len = wanted }
    placed ← seek_if_elsewhere start range flushed
    (bytes, after) ← read_loop fuel wanted range placed
    restored ← seek_if_elsewhere after.logical_len range after
    ok (bytes, restored)
