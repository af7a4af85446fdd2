-- ===== src/Vcdiff/Djw/Bits.antt =====
-- crates/vcdiff/src/djw.rs, `BitStream`: the bits of a section, the lowest bit of each byte first.
use rust_crates.Prelude.{ℕ, zero, suc, ◌+◌, ◌*◌, ◌/◌, ◌%◌, ◌^◌, min}
use rust_crates.Prelude.{leb, ◌==◌, if◌then◌else◌}
use rust_crates.Vcdiff.Error.{
  DecodeContext, Result, ok, ◌>>=◌, ◌>>◌, refuse, truncated, invalid_field,
}
use rust_crates.Vcdiff.Stream.{Stream}
use rust_crates.Vcdiff.Input
use rust_crates.Vcdiff.Input.{DeltaInput}
use rust_crates.Vcdiff.Djw.Fault.{format_error}

pub record BitStream (D : Stream) : Type 0 where
  pub input : DeltaInput D
  pub section_end : ℕ
  pub current : ℕ
  pub used : ℕ
  pub total_bits : ℕ

module _ {D : Stream} where
  unfoldable pub new : DeltaInput D → ℕ → BitStream D
  new input section_end = record {
    input = input;
    section_end = section_end;
    current = 0;
    used = 8;
    total_bits = 0;
  }

  unfoldable pub context : BitStream D → DecodeContext
  context bits = Input.context bits.input

  -- The next byte, once the bits of the last one are used up.
  unfoldable pub next_byte : ℕ → BitStream D → Result (BitStream D)
  next_byte fuel bits = do
    refuse (leb bits.section_end bits.input.pos) (format_error (context bits) truncated)
    (byte, input') ← Input.read_u8 fuel bits.input
    ok (record bits { input = input'; current = byte; used = 0 })

  -- `(current >> used) & 1`; `total_bits` saturates.
  unfoldable pub read_bit : ℕ → BitStream D → Result (ℕ × BitStream D)
  unfolding next_byte
  read_bit fuel bits = do
    loaded ← if bits.used == 8 then next_byte fuel bits else ok bits
    ok (
      loaded.current / 2 ^ loaded.used % 2,
      record loaded {
        used = loaded.used + 1;
        total_bits = min (loaded.total_bits + 1) 0xffff_ffff_ffff_ffff;
      },
    )

  -- `value = (value << 1) | bit`, in `u32`
  unfoldable pub field_loop : ℕ → ℕ → ℕ → BitStream D → Result (ℕ × BitStream D)
  unfolding read_bit
  field_loop zero fuel value bits = ok (value, bits)
  field_loop (suc width) fuel value bits = do
    (bit, bits') ← read_bit fuel bits
    field_loop width fuel (value * 2 % 0x1_0000_0000 + bit) bits'

  unfoldable pub read_field : ℕ → ℕ → BitStream D → Result (ℕ × BitStream D)
  unfolding field_loop
  read_field fuel width bits = do
    refuse (width == 0) (format_error (context bits) invalid_field)
    field_loop width fuel 0 bits
