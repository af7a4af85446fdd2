-- ===== src/Vcdiff/MemoryTarget.antt =====
-- crates/vcdiff/src/target.rs, `FallibleMemoryTarget`: the growing target of `decode`, as a stream.
-- Memory that the allocator refuses is not modelled, and a `usize` has 64 bits.
pub mod Laws
use rust_crates.Prelude.{
  ℕ, suc, ◌-◌, Option, none, some, List, [], ◌++◌, take, drop, replicate, length, min,
}
use rust_crates.Prelude.{ltb, leb, if◌then◌else◌, checked_add, checked_sub}
use rust_crates.Vcdiff.Error.{IoError, invalid_input, other}
use rust_crates.Vcdiff.Stream.{Stream, IoResult, done, failed, ℤ, pos, negsuc}
use rust_crates.Vcdiff.Stream.{SeekFrom, start, end, current}

pub record FallibleMemoryTarget : Type 0 where
  pub bytes : List ℕ
  pub at : ℕ

unfoldable pub new : FallibleMemoryTarget
new = record { bytes = []; at = 0 }

unfoldable pub into_inner : FallibleMemoryTarget → List ℕ
into_inner t = t.bytes

-- `io::Error::other("memory target position overflow")`
abbrev position_overflow : IoError
position_overflow = other 0

unfoldable pub read : ℕ → FallibleMemoryTarget → IoResult (List ℕ) × FallibleMemoryTarget
read output_len t =
    if leb (length t.bytes) t.at
    then (done [], t)
    else (let count = min output_len (length t.bytes - t.at) in
        elim (checked_add t.at count) [
          | none ↦ (failed position_overflow, t)
          | some at ↦ (done (take count (drop t.at t.bytes)), record t { at = at })
        ])

-- `resize(len, 0)` where that grows the buffer
unfoldable pub grow : ℕ → List ℕ → List ℕ
grow len bytes = if ltb (length bytes) len then bytes ++ replicate (len - length bytes) 0 else bytes

unfoldable pub write : List ℕ → FallibleMemoryTarget → IoResult ℕ × FallibleMemoryTarget
unfolding grow
write input t = elim (checked_add t.at (length input)) [
  | none ↦ (failed position_overflow, t)
  | some stop ↦ (
    done (length input),
    record {
      bytes = take t.at (grow stop t.bytes) ++ (input ++ drop stop (grow stop t.bytes));
      at = stop;
    },
  )
]

unfoldable pub checked_signed_offset : ℕ → ℤ → Option ℕ
checked_signed_offset base (pos offset) = checked_add base offset
checked_signed_offset base (negsuc n) = checked_sub base (suc n)

unfoldable pub next_position : SeekFrom → FallibleMemoryTarget → Option ℕ
unfolding checked_signed_offset
next_position (start position) t = some position
next_position (end offset) t = checked_signed_offset (length t.bytes) offset
next_position (current offset) t = checked_signed_offset t.at offset

unfoldable pub seek : SeekFrom → FallibleMemoryTarget → IoResult ℕ × FallibleMemoryTarget
unfolding next_position
seek position t = elim (next_position position t) [
  | none ↦ (failed invalid_input, t)
  | some next ↦ (done next, record t { at = next })
]

abbrev pub memory_stream : Stream
memory_stream = record {
  State = FallibleMemoryTarget;
  read = read;
  write = write;
  flush = λ t. (done tt, t);
  seek = seek;
}
