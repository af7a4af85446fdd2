-- ===== src/Tests/Flushes.antt =====
-- A target that does not show what is written before it is flushed, and what the writer needs of it.
use rust_crates.Prelude.{ℕ, ◌≡◌, refl, List, [], ◌∷◌, arith, Bool, true, false}
use rust_crates.Prelude.{if◌then◌else◌}
use rust_crates.Vcdiff.Error.{ok, bare_context, other}
use rust_crates.Vcdiff.Stream.{Stream, IoResult, SeekFrom, ReadsWhen, WritesBytes, done, failed}
use rust_crates.Vcdiff.MemoryTarget
use rust_crates.Vcdiff.MemoryTarget.{FallibleMemoryTarget}
use rust_crates.Vcdiff.MemoryTarget.Laws.{memory_reads, memory_WritesBytes}
use rust_crates.Vcdiff.Target
use rust_crates.Vcdiff.Target.{TargetWriter, io_buffer_size}
use rust_crates.Vcdiff.Target.Drain.{Writing, Drained, finish_lem}
use rust_crates.Vcdiff.Target.Read.{read_target_lem}

record LateTarget : Type 0 where
  inner : FallibleMemoryTarget
  is_waiting : Bool

-- Before a flush nothing that was written can be read, and a seek fails.
unfoldable late_read : ℕ → LateTarget → IoResult (List ℕ) × LateTarget
late_read n t =
    if t.is_waiting
    then (done [], t)
    else (let (answer, inner) = MemoryTarget.read n t.inner in (answer, record t { inner = inner }))

unfoldable late_seek : SeekFrom → LateTarget → IoResult ℕ × LateTarget
late_seek from t =
    if t.is_waiting
    then (failed (other 1), t)
    else (let (answer, inner) = MemoryTarget.seek from t.inner in
        (answer, record t { inner = inner }))

unfoldable late_write : List ℕ → LateTarget → IoResult ℕ × LateTarget
late_write bs t =
    let (answer, inner) = MemoryTarget.write bs t.inner in
    (answer, record { inner = inner; is_waiting = true })

abbrev late_stream : Stream
late_stream = record {
  State = LateTarget;
  read = late_read;
  write = late_write;
  flush = λ t. (done tt, record t { is_waiting = false });
  seek = late_seek;
}

unfoldable late_reads : ReadsWhen late_stream λ t. t.is_waiting ≡ false
unfolding memory_reads late_read late_seek
late_reads = record {
  bytes = λ t. memory_reads.bytes t.inner;
  position = λ t. memory_reads.position t.inner;
  read_count = λ n t. memory_reads.read_count n t.inner;
  read_next = λ n t. record t { inner = memory_reads.read_next n t.inner };
  read_gives = λ n t ready h u. rw (ready, memory_reads.read_gives n t.inner tt h u) refl;
  read_some = λ n t. memory_reads.read_some n t.inner;
  read_fits = λ n t. memory_reads.read_fits n t.inner;
  read_inside = λ n t. memory_reads.read_inside n t.inner;
  read_keeps = λ n t. memory_reads.read_keeps n t.inner;
  read_ready = λ n t ready. ready;
  read_moves = λ n t. memory_reads.read_moves n t.inner;
  seek_next = λ n t. record t { inner = memory_reads.seek_next n t.inner };
  seek_gives = λ n t ready. rw ready refl;
  seek_ready = λ n t ready. ready;
  seek_keeps = λ n t. memory_reads.seek_keeps n t.inner;
  seek_moves = λ n t. memory_reads.seek_moves n t.inner;
}

unfoldable late_WritesBytes : WritesBytes late_stream
unfolding late_reads late_write memory_WritesBytes memory_reads
late_WritesBytes = record {
  IsFlushed = λ t. t.is_waiting ≡ false;
  reads = late_reads;
  write_count = λ bs t. memory_WritesBytes.write_count bs t.inner;
  write_next =
      λ bs t. record { inner = memory_WritesBytes.write_next bs t.inner; is_waiting = true };
  write_gives = λ bs t h u. rw (memory_WritesBytes.write_gives bs t.inner h u) refl;
  write_some = λ bs t. memory_WritesBytes.write_some bs t.inner;
  write_fits = λ bs t. memory_WritesBytes.write_fits bs t.inner;
  write_appends = λ bs t. memory_WritesBytes.write_appends bs t.inner;
  write_moves = λ bs t. memory_WritesBytes.write_moves bs t.inner;
  flush_next = λ t. record t { is_waiting = false };
  flush_gives = λ t. refl;
  flush_ready = λ t. refl;
  flush_keeps = λ t. refl;
  flush_stays = λ t. refl;
}

-- Two bytes that are pending.
abbrev late_writer : TargetWriter late_stream
late_writer =
    record (Target.new (record { inner = record { bytes = []; at = 0 }; is_waiting = false })) {
      pending = 1 ∷ 2 ∷ [];
      logical_len = 2;
    }

late_writer-Writing : Writing late_WritesBytes (1 ∷ 2 ∷ []) late_writer
unfolding late_WritesBytes late_reads memory_reads Target.new
late_writer-Writing = record {
  sized = omega arith;
  len_known = refl;
  content = refl;
  at_end = refl;
  stands = refl;
  pending_small = omega arith;
}

finish_lem_example :
    (w : TargetWriter late_stream) × (Target.finish io_buffer_size late_writer ≡ ok w)
    × (late_WritesBytes.bytes w.target ≡ 1 ∷ 2 ∷ [])
    × (late_WritesBytes.position w.target ≡ 2)
    × late_WritesBytes.IsFlushed w.target
finish_lem_example =
    finish_lem late_WritesBytes io_buffer_size (1 ∷ 2 ∷ []) late_writer (omega arith)
      late_writer-Writing

read_target_lem_example :
    (w : TargetWriter late_stream) × (Target.read_target io_buffer_size 1 1
        (bare_context 7)
        late_writer
      ≡ ok (2 ∷ [], w))
    × Drained late_WritesBytes (1 ∷ 2 ∷ []) (record late_writer { context = bare_context 7 }) w
    × late_WritesBytes.IsFlushed w.target
read_target_lem_example =
    read_target_lem late_WritesBytes io_buffer_size 1 1 (1 ∷ 2 ∷ []) (bare_context 7) late_writer
      (omega arith) (omega arith) (omega arith) late_writer-Writing
