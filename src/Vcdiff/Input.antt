-- ===== src/Vcdiff/Input.antt =====
-- crates/vcdiff/src/input.rs, `DeltaInput`: the delta, read through a fixed buffer.
-- The buffer holds the bytes of the last read, `buffer[..buffer_len]`; what lies behind them is
-- never read and is left out, so that `buffer_len` is the length of the list. A loop that retries
-- an interrupted call takes fuel. Memory that the allocator refuses is not modelled.
pub mod Reading
pub mod Exact
pub mod Varints
use rust_crates.Prelude.{
  ℕ, zero, suc, ◌+◌, ◌-◌, ◌*◌, Bool, not, Option, none, List, [], ◌∷◌, ◌++◌, bit_and, min,
}
use rust_crates.Prelude.{ltb, leb, ◌==◌, if◌then◌else◌, length, get_elem?, take, drop, checked_add}
use rust_crates.Vcdiff.Error.{
  SectionKind, DecodeContext, Result, ok, err, stuck, ◌>>=◌, ◌>>◌, refuse, ok_or,
}
use rust_crates.Vcdiff.Error.{or_panic, try_usize, interrupted, invalid_data, read, seek}
use rust_crates.Vcdiff.Error.{truncated_delta, delta_io, arithmetic_overflow, varint_overflow}
use rust_crates.Vcdiff.Stream.{Stream, IoResult, SeekFrom, done, failed}
use rust_crates.Vcdiff.Varint.{push_group}

abbrev pub input_buffer_size : ℕ
input_buffer_size = 65536

pub record DeltaInput (D : Stream) : Type 0 where
  pub reader : D.State
  pub len : ℕ
  pub pos : ℕ
  pub buffer : List ℕ
  pub buffer_pos : ℕ
  pub window : Option ℕ
  pub section : Option SectionKind

-- `u32::from_be_bytes` of the four bytes that were read
unfoldable pub from_be_bytes : List ℕ → ℕ
from_be_bytes (a ∷ b ∷ c ∷ d ∷ []) = ((a * 256 + b) * 256 + c) * 256 + d
from_be_bytes _ = 0

module _ {D : Stream} where
  unfoldable pub new : D.State → ℕ → DeltaInput D
  new reader len = record {
    reader = reader;
    len = len;
    pos = 0;
    buffer = [];
    buffer_pos = 0;
    window = none;
    section = none;
  }

  unfoldable pub set_window : Option ℕ → DeltaInput D → DeltaInput D
  set_window window input = record input { window = window }

  unfoldable pub set_section : Option SectionKind → DeltaInput D → DeltaInput D
  set_section section input = record input { section = section }

  unfoldable pub is_empty : DeltaInput D → Bool
  is_empty input = input.pos == input.len

  unfoldable pub context : DeltaInput D → DecodeContext
  context input = record {
    delta_offset = input.pos;
    window = input.window;
    section = input.section;
  }

  -- The answer of one `read`, with what the loop does after an interruption.
  unfoldable pub after_read :
      IoResult (List ℕ) → DeltaInput D → Result (DeltaInput D) → Result (DeltaInput D)
  after_read (done []) input retry = err (truncated_delta (context input))
  after_read (done (b ∷ bs)) input retry = ok (record input { buffer = b ∷ bs; buffer_pos = 0 })
  after_read (failed interrupted) input retry = retry
  after_read (failed e) input retry = err (delta_io read (context input) e)

  unfoldable pub fill_loop : ℕ → ℕ → DeltaInput D → Result (DeltaInput D)
  unfolding after_read
  fill_loop zero request input = stuck
  fill_loop (suc fuel) request input =
      let (answer, reader) = D.read request input.reader in
      let input' : DeltaInput D = record input { reader = reader } in
      let retry = fill_loop fuel request input' in after_read answer input' retry

  unfoldable pub fill : ℕ → DeltaInput D → Result (DeltaInput D)
  fill fuel input = do
    refuse (leb input.len input.pos) (truncated_delta (context input))
    request ← try_usize (min (input.len - input.pos) input_buffer_size) (context input)
    fill_loop fuel request input

  -- `if self.buffer_pos == self.buffer_len { self.fill()?; }`
  unfoldable pub refill : ℕ → DeltaInput D → Result (DeltaInput D)
  refill fuel input = if input.buffer_pos == length input.buffer then fill fuel input else ok input

  unfoldable pub read_u8 : ℕ → DeltaInput D → Result (ℕ × DeltaInput D)
  read_u8 fuel input = do
    filled ← refill fuel input
    byte ← or_panic (get_elem? filled.buffer filled.buffer_pos)
    pos ← ok_or (checked_add filled.pos 1) (arithmetic_overflow (context filled))
    ok (byte, record filled { buffer_pos = filled.buffer_pos + 1; pos = pos })

  -- `while written < output.len()`: `wanted` bytes are not read yet. Each round takes one at least.
  unfoldable pub read_exact_loop : ℕ → ℕ → ℕ → DeltaInput D → Result (List ℕ × DeltaInput D)
  read_exact_loop rounds fuel zero input = ok ([], input)
  read_exact_loop zero fuel (suc wanted) input = stuck
  read_exact_loop (suc rounds) fuel (suc wanted) input = do
    filled ← refill fuel input
    let count = min (length filled.buffer - filled.buffer_pos) (suc wanted)
    pos ← ok_or (checked_add filled.pos count) (arithmetic_overflow (context filled))
    (rest, after) ←
        read_exact_loop rounds fuel (suc wanted - count)
          (record filled { buffer_pos = filled.buffer_pos + count; pos = pos })
    ok (take count (drop filled.buffer_pos filled.buffer) ++ rest, after)

  -- Reads `output_len` bytes, which it returns.
  unfoldable pub read_exact : ℕ → ℕ → DeltaInput D → Result (List ℕ × DeltaInput D)
  read_exact fuel output_len input = do
    end ← ok_or (checked_add input.pos output_len) (arithmetic_overflow (context input))
    refuse (ltb input.len end) (truncated_delta (context input))
    read_exact_loop output_len fuel output_len input

  unfoldable pub read_u32_be : ℕ → DeltaInput D → Result (ℕ × DeltaInput D)
  read_u32_be fuel input = do
    (bytes, after) ← read_exact fuel 4 input
    ok (from_be_bytes bytes, after)

  -- `for _ in 0..10 { … }`, with the rounds that are left
  unfoldable pub varint_loop : ℕ → ℕ → ℕ → DecodeContext → DeltaInput D → Result (ℕ × DeltaInput D)
  varint_loop zero fuel value origin input = err (varint_overflow origin)
  varint_loop (suc rounds) fuel value origin input = do
    (byte, after) ← read_u8 fuel input
    value' ← ok_or (push_group value byte) (varint_overflow origin)
    let rest = varint_loop rounds fuel value' origin after
    if bit_and byte 0x80 == 0 then ok (value', after) else rest

  unfoldable pub read_varint : ℕ → DeltaInput D → Result (ℕ × DeltaInput D)
  read_varint fuel input = varint_loop 10 fuel 0 (context input) input

  -- The answer of the `seek` in `skip`.
  unfoldable pub after_seek : IoResult ℕ → ℕ → DecodeContext → DeltaInput D → Result (DeltaInput D)
  after_seek (failed e) end here input = err (delta_io seek here e)
  after_seek (done actual) end here input = do
    refuse (not (actual == end)) (delta_io seek here invalid_data)
    ok (record input { pos = end; buffer = []; buffer_pos = 0 })

  unfoldable pub skip : ℕ → DeltaInput D → Result (DeltaInput D)
  unfolding after_seek
  skip len input = do
    end ← ok_or (checked_add input.pos len) (arithmetic_overflow (context input))
    refuse (ltb input.len end) (truncated_delta (context input))
    let (answer, reader) = D.seek (SeekFrom.start end) input.reader
    after_seek answer end (context input) (record input { reader = reader })
