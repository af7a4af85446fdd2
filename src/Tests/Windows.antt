-- ===== src/Tests/Windows.antt =====
-- Instructions of a small window on streams in memory: `abc` and a copy of six bytes that overlaps.
use rust_crates.Prelude.{ℕ, ◌≡◌, refl, none, List, [], ◌∷◌, ◌++◌, arith}
use rust_crates.Vcdiff.Error.{ok}
use rust_crates.Vcdiff.MemoryTarget.{FallibleMemoryTarget, memory_stream}
use rust_crates.Vcdiff.MemoryTarget.Laws.{memory_reads, memory_WritesBytes}
use rust_crates.Vcdiff.Varint.Encoding.{encode, leading}
use rust_crates.Vcdiff.Cursor
use rust_crates.Vcdiff.Cursor.{SliceCursor}
use rust_crates.Vcdiff.Cursor.Reads.{unread, advance}
use rust_crates.Vcdiff.Cache
use rust_crates.Vcdiff.Cache.Modes.{self_mode, spells}
use rust_crates.Vcdiff.CodeTable.{default_table, add, copy, single, instruction}
use rust_crates.Vcdiff.CodeTable.Rfc.{rfc_entry, default_table-rfc_entry}
use rust_crates.Vcdiff.Target.{TargetWriter, io_buffer_size}
use rust_crates.Vcdiff.Target.Emit.{Holds}
use rust_crates.Vcdiff.Target.Overlap.{overlap, byte_at}
use rust_crates.Vcdiff.Secondary.{PreparedSection}
use rust_crates.Vcdiff.Decoder.Instructions.{
  WindowContext, WindowSections, Machine, section_cursor, execute, run_instructions,
}
use rust_crates.Vcdiff.Decoder.Semantics.{
  Progress, Performs, nothing, adds, copies, no_size, table_size, Executes, finished, paired,
  beginning, no_segment,
}
use rust_crates.Vcdiff.Decoder.Performing.{IsPlaced, Ready}
use rust_crates.Vcdiff.Decoder.Executing.{execute_lem}
use rust_crates.Vcdiff.Cache.History.{IsValid-new}
use rust_crates.Vcdiff.Decoder.Answering.{IsSound, Answers}
use rust_crates.Vcdiff.Decoder.Safety.{execute-Answers}
use rust_crates.Vcdiff.Decoder.Termination.{Ends, run_instructions-Ends}
use rust_crates.Vcdiff.Decoder.Running.{run_instructions_lem}
use rust_crates.Tests.Streams.{empty_target, empty_writer, empty_writer-Holds}

abbrev nine_bytes : WindowContext
nine_bytes = record { index = 0; window_start = 0; segment = none; target_size = 9 }

nine_bytes-IsPlaced : IsPlaced [] [] [] nine_bytes
nine_bytes-IsPlaced = record {
  starts = refl;
  segments = no_segment;
  source_bytes = tt;
  before_bytes = tt;
  source_sized = omega arith;
  output_sized = omega arith;
  view_sized = omega arith;
}

abbrev section_of : List ℕ → PreparedSection
section_of bytes = record { bytes = bytes; delta_offset = 0 }

abbrev abc_sections : WindowSections
abc_sections = record {
  data_bytes = section_of (97 ∷ 98 ∷ 99 ∷ []);
  instructions = section_of (4 ∷ 22 ∷ []);
  addresses = section_of (0 ∷ []);
}

abbrev start : Progress
start = beginning nine_bytes abc_sections

abbrev after_add : Progress
after_add = record start { produced = 97 ∷ 98 ∷ 99 ∷ []; data_cursor = advance 3 start.data_cursor }

abbrev after_copy : Progress
after_copy = record after_add {
  produced = (97 ∷ 98 ∷ 99 ∷ []) ++ overlap (97 ∷ 98 ∷ 99 ∷ []) 0 6;
  address_cursor = advance 1 after_add.address_cursor;
  cache = Cache.update 0 after_add.cache;
}

start-add : Performs [] 9 add 3 0 start after_add
unfolding unread section_cursor Cursor.new
start-add =
    adds start (97 ∷ 98 ∷ 99 ∷ []) [] (record { within = omega arith; sized = omega arith }) refl
      (omega arith, (omega arith, (omega arith, tt))) (omega arith)

after_add-copy : Performs [] 9 copy 6 0 after_add after_copy
unfolding unread section_cursor Cursor.new encode leading
after_add-copy =
    copies after_add 6 0 (0 ∷ []) []
      (self_mode 0 (spells 0 (omega arith) (omega arith) (omega arith)))
      (record { within = omega arith; sized = omega arith }) refl (omega arith)
      (λ h. absurd (omega arith)) (omega arith)

abc-Executes : Executes [] 9 default_table (4 ∷ 22 ∷ []) start after_copy
unfolding rfc_entry
abc-Executes =
    paired 4 (single (instruction add 3 0)) 3 0 [] [] (22 ∷ []) start after_add after_add after_copy
      (default_table-rfc_entry 4 (omega arith)) (table_size (λ e. cc) (omega arith)) (no_size refl)
      start-add (nothing after_add)
      (paired 22 (single (instruction copy 6 0)) 6 0 [] [] [] after_add after_copy after_copy
        after_copy (default_table-rfc_entry 22 (omega arith)) (table_size (λ e. cc) (omega arith))
        (no_size refl) after_add-copy (nothing after_copy) (finished after_copy))

abbrev empty_machine : Machine memory_stream memory_stream
empty_machine = record {
  data_cursor = start.data_cursor;
  address_cursor = start.address_cursor;
  cache = start.cache;
  source = empty_target;
  output = empty_writer;
}

empty_target-bytes : memory_reads.bytes empty_target ≡ []
unfolding memory_reads
empty_target-bytes = refl

empty_machine-Ready : Ready memory_reads memory_WritesBytes [] [] start empty_machine
empty_machine-Ready = record {
  holds = empty_writer-Holds;
  source_kept = empty_target-bytes;
  data_at = refl;
  address_at = refl;
  cache_at = refl;
}

execute_lem_example :
    (m : Machine memory_stream memory_stream) × (execute io_buffer_size nine_bytes
        (instruction add 3 0)
        3
        empty_machine
      ≡ ok m)
    × Ready memory_reads memory_WritesBytes [] [] after_add m
execute_lem_example =
    execute_lem memory_reads memory_WritesBytes [] [] [] nine_bytes nine_bytes-IsPlaced
      io_buffer_size (omega arith) add 3 0 3 start after_add empty_machine start-add
      empty_machine-Ready

run_instructions_lem_example :
    (source : FallibleMemoryTarget) × (w : TargetWriter memory_stream) × (run_instructions
        memory_stream io_buffer_size nine_bytes default_table abc_sections empty_target empty_writer
      ≡ ok (source, w))
    × (memory_reads.bytes source ≡ [])
    × Holds memory_WritesBytes (after_copy.produced) (after_copy.produced) w
unfolding Cursor.is_empty section_cursor Cursor.new
run_instructions_lem_example =
    run_instructions_lem memory_reads memory_WritesBytes [] [] [] nine_bytes nine_bytes-IsPlaced
      io_buffer_size (omega arith) default_table abc_sections empty_target empty_writer after_copy
      empty_writer-Holds empty_target-bytes (omega arith) abc-Executes refl refl

after_copy_test : after_copy.produced ≡ 97 ∷ 98 ∷ 99 ∷ 97 ∷ 98 ∷ 99 ∷ 97 ∷ 98 ∷ 99 ∷ []
unfolding overlap byte_at
after_copy_test = refl

start-IsSound : IsSound 9 start
unfolding section_cursor Cursor.new
start-IsSound = record {
  data_inside = record { within = omega arith; sized = omega arith };
  data_bytes = (omega arith, (omega arith, (omega arith, tt)));
  address_inside = record { within = omega arith; sized = omega arith };
  address_bytes = (omega arith, tt);
  cache_valid = IsValid-new;
  within = omega arith;
}

-- A copy that the address section does not allow.
execute-Answers_example :
    Answers memory_reads memory_WritesBytes [] [] [] nine_bytes nine_bytes-IsPlaced io_buffer_size
      (omega arith)
      start
      (execute io_buffer_size nine_bytes (instruction copy 4 0) 4 empty_machine)
execute-Answers_example =
    execute-Answers memory_reads memory_WritesBytes [] [] [] nine_bytes nine_bytes-IsPlaced
      io_buffer_size (omega arith) copy 4 0 4 start empty_machine empty_machine-Ready start-IsSound

run_instructions-Ends_example :
    Ends memory_reads memory_WritesBytes [] [] [] nine_bytes nine_bytes-IsPlaced io_buffer_size
      (omega arith)
      (run_instructions memory_stream io_buffer_size nine_bytes default_table abc_sections
        empty_target empty_writer)
unfolding default_table
run_instructions-Ends_example =
    run_instructions-Ends memory_reads memory_WritesBytes [] [] [] nine_bytes nine_bytes-IsPlaced
      io_buffer_size (omega arith) default_table abc_sections empty_target empty_writer refl
      start-IsSound (omega arith) (omega arith, (omega arith, tt)) empty_writer-Holds
      empty_target-bytes
