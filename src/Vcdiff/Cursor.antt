-- ===== src/Vcdiff/Cursor.antt =====
-- crates/vcdiff/src/input.rs, `SliceCursor`: a cursor over one section that is resident in memory.
-- A method that changes the cursor returns the new cursor beside its result.
pub mod Reads
pub mod Varints
pub mod Total
use rust_crates.Prelude.{ℕ, zero, suc, ◌+◌, ◌-◌, Bool, Option, none, some, List, bit_and, min}
use rust_crates.Prelude.{
  ltb, leb, ◌==◌, ◌&&◌, if◌then◌else◌, length, get_elem?, take, drop, checked_add,
}
use rust_crates.Vcdiff.Error.{
  SectionKind, DecodeContext, Result, ok, err, ◌>>=◌, ◌>>◌, refuse, ok_or, or_panic, try_usize,
}
use rust_crates.Vcdiff.Error.{section_out_of_bounds, arithmetic_overflow, varint_overflow}
use rust_crates.Vcdiff.Varint.{push_group}

pub record SliceCursor : Type 0 where
  pub bytes : List ℕ
  pub pos : ℕ
  pub base_offset : ℕ
  pub window : ℕ
  pub section : SectionKind

unfoldable pub new : List ℕ → ℕ → ℕ → SectionKind → SliceCursor
new bytes base_offset window section = record {
  bytes = bytes;
  pos = 0;
  base_offset = base_offset;
  window = window;
  section = section;
}

unfoldable pub is_empty : SliceCursor → Bool
is_empty c = c.pos == length c.bytes

-- A cursor never stands behind its last byte, so that the subtraction is the one of `u64`.
unfoldable pub remaining : SliceCursor → ℕ
remaining c = length c.bytes - c.pos

-- `saturating_add` stops at `u64::MAX`.
unfoldable pub context : SliceCursor → DecodeContext
context c = record {
  delta_offset = min (c.base_offset + c.pos) 0xffff_ffff_ffff_ffff;
  window = some c.window;
  section = some c.section;
}

-- `&bytes[from..to]`
abbrev pub slice : List ℕ → ℕ → ℕ → Option (List ℕ)
slice bytes from to =
    if leb from to && leb to (length bytes) then some (take (to - from) (drop from bytes)) else none

unfoldable pub read_slice : ℕ → SliceCursor → Result (List ℕ × SliceCursor)
unfolding remaining
read_slice len c = do
  let here = context c
  refuse (ltb (remaining c) len) (section_out_of_bounds c.section len (remaining c) here)
  end ← ok_or (checked_add c.pos len) (arithmetic_overflow here)
  start_index ← try_usize c.pos here
  end_index ← try_usize end here
  bytes ← or_panic (slice c.bytes start_index end_index)
  ok (bytes, record c { pos = end })

unfoldable pub read_u8 : SliceCursor → Result (ℕ × SliceCursor)
read_u8 c = do (bytes, c') ← read_slice 1 c; byte ← or_panic (get_elem? bytes 0); ok (byte, c')

-- `for _ in 0..10 { … }`, with the rounds that are left
unfoldable pub varint_loop : ℕ → ℕ → DecodeContext → SliceCursor → Result (ℕ × SliceCursor)
varint_loop zero value start c = err (varint_overflow start)
varint_loop (suc rounds) value start c = do
  (byte, c') ← read_u8 c
  value' ← ok_or (push_group value byte) (varint_overflow start)
  let rest = varint_loop rounds value' start c'
  if bit_and byte 0x80 == 0 then ok (value', c') else rest

unfoldable pub read_varint : SliceCursor → Result (ℕ × SliceCursor)
read_varint c = varint_loop 10 0 (context c) c
