-- ===== src/Tests/Streams.antt =====
-- The buffered delta and the buffered target over the streams in memory that `decode` uses.
use rust_crates.Prelude.{ℕ, ◌≡◌, refl, none, List, [], ◌∷◌, ◌++◌, arith}
use rust_crates.Vcdiff.Error.{ok, bare_context}
use rust_crates.Vcdiff.MemoryTarget.{FallibleMemoryTarget, memory_stream}
use rust_crates.Vcdiff.MemoryTarget.Laws.{memory_reads, memory_WritesBytes}
use rust_crates.Vcdiff.Varint.Encoding.{encode, leading}
use rust_crates.Vcdiff.Input
use rust_crates.Vcdiff.Input.{DeltaInput}
use rust_crates.Vcdiff.Input.Reading.{Reading, Moved}
use rust_crates.Vcdiff.Input.Exact.{read_exact_lem, skip_lem}
use rust_crates.Vcdiff.Input.Varints.{delta_read_varint-encode}
use rust_crates.Vcdiff.Adler.Sums.{adler_fold}
use rust_crates.Vcdiff.Target.{TargetWriter, io_buffer_size}
use rust_crates.Vcdiff.Target
use rust_crates.Vcdiff.Target.Drain.{Writing, Writing-new, drain_pending_lem, Drained}
use rust_crates.Vcdiff.Target.Emit.{Holds, Emitted, emit_lem}

abbrev small_delta : List ℕ
small_delta = 0x82 ∷ 0x2c ∷ 9 ∷ []

abbrev small_input : DeltaInput memory_stream
small_input = record {
  reader = record { bytes = small_delta; at = 0 };
  len = 3;
  pos = 0;
  buffer = [];
  buffer_pos = 0;
  window = none;
  section = none;
}

small_input-Reading : Reading memory_reads small_delta small_input
unfolding memory_WritesBytes
small_input-Reading = record {
  sized = omega arith;
  len_known = refl;
  pos_within = omega arith;
  buffer_within = omega arith;
  stream_bytes = refl;
  stream_ahead = refl;
  stream_within = omega arith;
  buffered = refl;
}

read_exact_lem_example :
    (after : DeltaInput memory_stream) × (Input.read_exact 1 2 small_input
      ≡ ok (0x82 ∷ 0x2c ∷ [], after))
    × Moved memory_reads small_delta 2 small_input after
read_exact_lem_example =
    read_exact_lem memory_reads 0 2 small_delta small_input small_input-Reading (omega arith)

skip_lem_example :
    (after : DeltaInput memory_stream) × (Input.skip 2 small_input ≡ ok after)
    × Moved memory_reads small_delta 2 small_input after
    × (after.reader ≡ memory_reads.seek_next 2 small_input.reader)
    × (after.buffer ≡ [])
    × (after.buffer_pos ≡ 0)
skip_lem_example = skip_lem memory_reads 2 small_delta small_input small_input-Reading (omega arith)

small_delta-encode : small_delta ≡ encode 1 300 ++ (9 ∷ [])
unfolding encode leading
small_delta-encode = refl

delta_read_varint-encode_example :
    (after : DeltaInput memory_stream) × (Input.read_varint 1 small_input ≡ ok (300, after))
    × Moved memory_reads small_delta 2 small_input after
delta_read_varint-encode_example =
    delta_read_varint-encode memory_reads 0 small_delta 1 300 (9 ∷ []) small_input
      small_input-Reading small_delta-encode (omega arith) (omega arith) (omega arith)

abbrev pub empty_target : FallibleMemoryTarget
empty_target = record { bytes = []; at = 0 }

abbrev pub empty_writer : TargetWriter memory_stream
empty_writer = Target.new empty_target

empty_writer-Writing : Writing memory_WritesBytes [] empty_writer
unfolding memory_WritesBytes
empty_writer-Writing = Writing-new memory_WritesBytes empty_target refl refl

pub empty_writer-Holds : Holds memory_WritesBytes [] [] empty_writer
unfolding Target.new adler_fold
empty_writer-Holds = record { writing = empty_writer-Writing; summed = refl; bytes_small = tt }

emit_lem_example :
    (w : TargetWriter memory_stream) × (Target.emit io_buffer_size
        (1 ∷ 2 ∷ [])
        (bare_context 7)
        empty_writer
      ≡ ok w)
    × Emitted memory_WritesBytes (1 ∷ 2 ∷ []) (1 ∷ 2 ∷ []) empty_writer w
emit_lem_example =
    emit_lem memory_WritesBytes io_buffer_size (1 ∷ 2 ∷ []) [] [] (bare_context 7) empty_writer
      (omega arith) empty_writer-Holds (omega arith, (omega arith, tt)) (omega arith)

-- Two bytes that are pending.
abbrev pub pending_writer : TargetWriter memory_stream
pending_writer = record empty_writer { pending = 1 ∷ 2 ∷ []; logical_len = 2 }

pub pending_writer-Writing : Writing memory_WritesBytes (1 ∷ 2 ∷ []) pending_writer
unfolding memory_WritesBytes Target.new
pending_writer-Writing = record {
  sized = omega arith;
  len_known = refl;
  content = refl;
  at_end = refl;
  stands = refl;
  pending_small = omega arith;
}

drain_pending_lem_example :
    (w : TargetWriter memory_stream) × (Target.drain_pending io_buffer_size pending_writer ≡ ok w)
    × Drained memory_WritesBytes (1 ∷ 2 ∷ []) pending_writer w
drain_pending_lem_example =
    drain_pending_lem memory_WritesBytes io_buffer_size (1 ∷ 2 ∷ []) pending_writer (omega arith)
      pending_writer-Writing
