-- ===== src/Vcdiff/Target.antt =====
-- crates/vcdiff/src/target.rs, `TargetWriter`: buffered output over a target that can be read back.
-- `scratch` holds the bytes that were last put to the front of the scratch buffer; no operation reads
-- behind them. Loops that retry an interrupted call take fuel. Memory that the allocator refuses
-- is not modelled.
mod Device
pub mod Drain
pub mod Copy
pub mod Emit
pub mod Overlap
pub mod Periodic
pub mod Read
pub mod Repeat
pub mod Run
pub use Device.{TargetWriter}
unfoldable pub use Device.{
  io_buffer_size, new, begin_window, len, checksum, seek_target, flush_target, after_write,
  write_loop, drain_buffer, drain_pending, seek_if_elsewhere, after_seek, after_flush, after_read,
  read_loop, read_target,
}
use rust_crates.Prelude.{ℕ, zero, suc, ◌+◌, ◌-◌, ◌%◌, Option, none, some, List, [], ◌∷◌, ◌++◌, min}
use rust_crates.Prelude.{◌==◌, ltb, leb, ◌&&◌, if◌then◌else◌}
use rust_crates.Prelude.{length, get_elem?, take, drop, replicate, checked_add}
use rust_crates.Vcdiff.Error.{
  DecodeContext, Result, ok, stuck, ◌>>=◌, ok_or, or_panic, try_usize, arithmetic_overflow,
}
use rust_crates.Vcdiff.Stream.{Stream}
use rust_crates.Vcdiff.Adler

-- The scratch buffer after `fill(byte)`.
unfoldable pub filled_scratch : ℕ → List ℕ
filled_scratch byte = replicate io_buffer_size byte

-- The bytes `scratch[(phase + index) % seed_len]` for the indices from `index` on.
unfoldable pub gather : List ℕ → ℕ → ℕ → ℕ → ℕ → Result (List ℕ)
gather scratch seed_len phase index zero = ok []
gather scratch seed_len phase index (suc count) = do
  byte ← or_panic (get_elem? scratch ((phase + index) % seed_len))
  rest ← gather scratch seed_len phase (index + 1) count
  ok (byte ∷ rest)

module _ {T : Stream} where
  -- `if self.pending.len() == IO_BUFFER_SIZE { self.drain_pending()?; }`
  unfoldable pub drain_full : ℕ → TargetWriter T → Result (TargetWriter T)
  drain_full fuel w = if length w.pending == io_buffer_size then drain_pending fuel w else ok w

  -- Each round takes a byte at least.
  unfoldable pub emit_loop : ℕ → ℕ → List ℕ → TargetWriter T → Result (TargetWriter T)
  emit_loop rounds fuel [] w = ok w
  emit_loop zero fuel (byte ∷ bytes) w = stuck
  emit_loop (suc rounds) fuel (byte ∷ bytes) w = do
    w' ← drain_full fuel w
    let count = min (io_buffer_size - length w'.pending) (suc (length bytes))
    let chunk = take count (byte ∷ bytes)
    new_len ← ok_or (checked_add w'.logical_len count) (arithmetic_overflow w'.context)
    emit_loop rounds fuel (drop count (byte ∷ bytes)) (record w' {
      adler = Adler.update chunk w'.adler;
      pending = w'.pending ++ chunk;
      logical_len = new_len;
    })

  unfoldable pub emit : ℕ → List ℕ → DecodeContext → TargetWriter T → Result (TargetWriter T)
  emit fuel bytes context w = emit_loop (length bytes) fuel bytes (record w { context = context })

  unfoldable pub emit_scratch : ℕ → ℕ → DecodeContext → TargetWriter T → Result (TargetWriter T)
  emit_scratch fuel len context w = emit fuel (take len w.scratch) context w

  -- `while size > 0`
  unfoldable pub emit_run_loop :
      ℕ → ℕ → ℕ → DecodeContext → TargetWriter T → Result (TargetWriter T)
  emit_run_loop rounds fuel zero context w = ok w
  emit_run_loop zero fuel (suc size) context w = stuck
  emit_run_loop (suc rounds) fuel (suc size) context w = do
    count ← try_usize (min (suc size) io_buffer_size) context
    w' ← emit_scratch fuel count context w
    emit_run_loop rounds fuel (suc size - count) context w'

  unfoldable pub emit_run : ℕ → ℕ → ℕ → DecodeContext → TargetWriter T → Result (TargetWriter T)
  emit_run fuel byte size context w =
      emit_run_loop size fuel size context
        (record w { context = context; scratch = filled_scratch byte })

  unfoldable pub read_scratch : ℕ → ℕ → ℕ → DecodeContext → TargetWriter T → Result (TargetWriter T)
  read_scratch fuel start len context w = do
    (bytes, w') ← read_target fuel start len context w
    ok (record w' { scratch = bytes })

  -- The loop that `copy_from_target` and `copy_from_current` share: `copied` bytes are done and
  -- `left` are not.
  unfoldable pub copy_loop :
      ℕ → ℕ → ℕ → ℕ → ℕ → DecodeContext → TargetWriter T → Result (TargetWriter T)
  copy_loop rounds fuel start copied zero context w = ok w
  copy_loop zero fuel start copied (suc left) context w = stuck
  copy_loop (suc rounds) fuel start copied (suc left) context w = do
    count ← try_usize (min (suc left) io_buffer_size) context
    chunk_start ← ok_or (checked_add start copied) (arithmetic_overflow context)
    w' ← read_scratch fuel chunk_start count context w
    w'' ← emit_scratch fuel count context w'
    copied' ← ok_or (checked_add copied count) (arithmetic_overflow context)
    copy_loop rounds fuel start copied' (suc left - count) context w''

  unfoldable pub copy_from_target :
      ℕ → ℕ → ℕ → DecodeContext → TargetWriter T → Result (TargetWriter T)
  copy_from_target fuel start size context w =
      copy_loop size fuel start 0 size context (record w { context = context })

  -- `while emitted < size`: `left` bytes are not emitted yet.
  unfoldable pub emit_repeated_loop :
      ℕ → ℕ → ℕ → ℕ → ℕ → DecodeContext → TargetWriter T → Result (TargetWriter T)
  emit_repeated_loop rounds fuel seed_len emitted zero context w = ok w
  emit_repeated_loop zero fuel seed_len emitted (suc left) context w = stuck
  emit_repeated_loop (suc rounds) fuel seed_len emitted (suc left) context w = do
    w' ← drain_full fuel w
    count ← try_usize (min (suc left) (io_buffer_size - length w'.pending)) context
    divisor ← or_panic (if seed_len == 0 then none else some seed_len)
    phase ← try_usize (emitted % divisor) context
    bytes ← gather w'.scratch divisor phase 0 count
    new_len ← ok_or (checked_add w'.logical_len count) (arithmetic_overflow w'.context)
    emitted' ← ok_or (checked_add emitted count) (arithmetic_overflow context)
    emit_repeated_loop rounds fuel seed_len emitted' (suc left - count) context (record w' {
      adler = Adler.update bytes w'.adler;
      pending = w'.pending ++ bytes;
      logical_len = new_len;
    })

  unfoldable pub copy_from_current :
      ℕ → ℕ → ℕ → ℕ → DecodeContext → TargetWriter T → Result (TargetWriter T)
  copy_from_current fuel start size distance context w =
      let w0 : TargetWriter T = record w { context = context } in
      if ltb distance size && leb distance io_buffer_size
      then (do
        seed_len ← try_usize distance context
        w' ← read_scratch fuel start seed_len context w0
        emit_repeated_loop size fuel seed_len 0 size context w')
      else copy_loop size fuel start 0 size context w0

  unfoldable pub finish : ℕ → TargetWriter T → Result (TargetWriter T)
  finish fuel w = do
    drained ← drain_pending fuel w
    flushed ← flush_target drained
    seek_target flushed.logical_len none flushed

  unfoldable pub finish_window : ℕ → TargetWriter T → Result (TargetWriter T)
  finish_window fuel w = drain_pending fuel w
