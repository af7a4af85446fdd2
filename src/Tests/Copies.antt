-- ===== src/Tests/Copies.antt =====
-- Runs and copies on a target in memory.
use rust_crates.Prelude.{◌≡◌, refl, [], ◌∷◌, ◌++◌, arith}
use rust_crates.Prelude.{replicate}
use rust_crates.Vcdiff.Error.{ok, bare_context}
use rust_crates.Vcdiff.MemoryTarget.{FallibleMemoryTarget, memory_stream}
use rust_crates.Vcdiff.MemoryTarget.Laws.{memory_reads, memory_WritesBytes}
use rust_crates.Vcdiff.Adler.Sums.{adler_fold}
use rust_crates.Vcdiff.Target
use rust_crates.Vcdiff.Target.{TargetWriter, io_buffer_size}
use rust_crates.Vcdiff.Target.Emit.{Holds}
use rust_crates.Vcdiff.Target.Run.{Extended, emit_run_lem}
use rust_crates.Vcdiff.Target.Copy.{copy_from_target_lem}
use rust_crates.Vcdiff.Target.Repeat.{copy_from_current_lem}
use rust_crates.Vcdiff.Target.Overlap.{overlap}
use rust_crates.Vcdiff.SourceCopy.{copy_from_source}
use rust_crates.Vcdiff.SourceCopy.Copied.{copy_from_source_lem}
use rust_crates.Tests.Streams.{pending_writer, pending_writer-Writing}

pending_writer-Holds : Holds memory_WritesBytes (1 ∷ 2 ∷ []) [] pending_writer
unfolding Target.new adler_fold
pending_writer-Holds = record { writing = pending_writer-Writing; summed = refl; bytes_small = tt }

emit_run_lem_example :
    (w : TargetWriter memory_stream) × (Target.emit_run io_buffer_size 9 70000
        (bare_context 7)
        pending_writer
      ≡ ok w)
    × Extended memory_WritesBytes
        ((1 ∷ 2 ∷ []) ++ replicate 70000 9)
        ([] ++ replicate 70000 9)
        pending_writer
        w
emit_run_lem_example =
    emit_run_lem memory_WritesBytes io_buffer_size 9 70000 (1 ∷ 2 ∷ []) [] (bare_context 7)
      pending_writer (omega arith) pending_writer-Holds (omega arith) (omega arith)

copy_from_target_lem_example :
    (w : TargetWriter memory_stream) × (Target.copy_from_target io_buffer_size 0 2
        (bare_context 7)
        pending_writer
      ≡ ok w)
    × Extended memory_WritesBytes (1 ∷ 2 ∷ 1 ∷ 2 ∷ []) (1 ∷ 2 ∷ []) pending_writer w
copy_from_target_lem_example =
    copy_from_target_lem memory_WritesBytes io_buffer_size 0 2 (1 ∷ 2 ∷ []) [] (bare_context 7)
      pending_writer (omega arith) pending_writer-Holds (omega arith, (omega arith, tt))
      (omega arith) (omega arith)

copy_from_current_lem_example :
    (w : TargetWriter memory_stream) × (Target.copy_from_current io_buffer_size 0 5 2
        (bare_context 7)
        pending_writer
      ≡ ok w)
    × Extended memory_WritesBytes
        ((1 ∷ 2 ∷ []) ++ overlap (1 ∷ 2 ∷ []) 0 5)
        ([] ++ overlap (1 ∷ 2 ∷ []) 0 5)
        pending_writer
        w
copy_from_current_lem_example =
    copy_from_current_lem memory_WritesBytes io_buffer_size 0 5 2 (1 ∷ 2 ∷ []) [] (bare_context 7)
      pending_writer (omega arith) pending_writer-Holds (omega arith, (omega arith, tt))
      (omega arith) refl (omega arith)

overlap_test : overlap (1 ∷ 2 ∷ []) 0 5 ≡ 1 ∷ 2 ∷ 1 ∷ 2 ∷ 1 ∷ []
unfolding overlap Target.Overlap.byte_at
overlap_test = refl

abbrev source_345 : FallibleMemoryTarget
source_345 = record { bytes = 3 ∷ 4 ∷ 5 ∷ []; at = 0 }

source_345-bytes : memory_reads.bytes source_345 ≡ 3 ∷ 4 ∷ 5 ∷ []
unfolding memory_reads
source_345-bytes = refl

copy_from_source_lem_example :
    (source : FallibleMemoryTarget) × (w : TargetWriter memory_stream) × (copy_from_source
        memory_stream io_buffer_size 1 2
        (bare_context 7)
        source_345
        pending_writer
      ≡ ok (source, w))
    × (memory_reads.bytes source ≡ 3 ∷ 4 ∷ 5 ∷ [])
    × Extended memory_WritesBytes (1 ∷ 2 ∷ 4 ∷ 5 ∷ []) (4 ∷ 5 ∷ []) pending_writer w
copy_from_source_lem_example =
    copy_from_source_lem memory_reads memory_WritesBytes io_buffer_size 1 2 (3 ∷ 4 ∷ 5 ∷ [])
      (1 ∷ 2 ∷ []) [] (bare_context 7) source_345 pending_writer (omega arith) source_345-bytes
      (omega arith, (omega arith, (omega arith, tt))) (omega arith) (omega arith)
      pending_writer-Holds (omega arith)
