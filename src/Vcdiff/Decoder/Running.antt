-- ===== src/Vcdiff/Decoder/Running.antt =====
-- `run_instructions` runs a whole instruction section as RFC 3284 means it.
use rust_crates.Prelude.{
  ℕ, zero, suc, ◌+◌, ◌≤◌, ◌≡◌, ◌≢◌, refl, sym, ap, ◌∙◌, subst, List, [], ◌∷◌, ◌++◌, arith, true,
  false, append-nil,
}
use rust_crates.Prelude.{
  IsU64, length, drop, length-drop, length-append, drop-append, ◌==◌, ==_iff, if◌then◌else◌,
}
use rust_crates.Vcdiff.Error.{ok, data_section, instructions, addresses}
use rust_crates.Vcdiff.Stream.{Stream, ReadsBytes, WritesBytes}
use rust_crates.Vcdiff.Cursor
use rust_crates.Vcdiff.Cursor.{SliceCursor}
use rust_crates.Vcdiff.Cursor.Reads.{
  advance, unread, unread-advance, IsInside, IsInside-advance, read_u8-ok,
}
use rust_crates.Vcdiff.Cursor.Varints.{at_pos}
use rust_crates.Vcdiff.Cache
use rust_crates.Vcdiff.Cache.Modes.{read_varint-Spells}
use rust_crates.Vcdiff.CodeTable.{InstKind, Instruction, instruction, Entry, no_op, add, run, copy}
use rust_crates.Vcdiff.Target.{TargetWriter, io_buffer_size}
use rust_crates.Vcdiff.Target.Emit.{Holds}
use rust_crates.Vcdiff.Decoder.Instructions.{
  WindowContext, WindowSections, Machine, read_size, section_cursor, step, instruction_loop,
  run_instructions,
}
use rust_crates.Vcdiff.Decoder.Semantics.{
  Progress, Sizes, no_size, table_size, stream_size, Executes, finished, paired, beginning,
}
use rust_crates.Vcdiff.Decoder.Performing.{IsPlaced, Ready}
use rust_crates.Vcdiff.Decoder.Executing.{execute_lem}

-- Behind the bytes that were read, the rest is unread.
unread-behind :
    (bytes rest : List ℕ) (c : SliceCursor)
    → unread c ≡ bytes ++ rest
    → unread (advance (length bytes) c) ≡ rest
unread-behind bytes rest c u =
    unread-advance (length bytes) c ∙ ap (drop (length bytes)) u ∙ drop-append bytes rest

IsInside-behind :
    (bytes rest : List ℕ) (c : SliceCursor)
    → IsInside c
    → unread c ≡ bytes ++ rest
    → IsInside (advance (length bytes) c)
unfolding unread
IsInside-behind bytes rest c i u = IsInside-advance (length bytes) c i (
    omega (
      arith,
      ap (λ (l : List ℕ). length l) u,
      length-drop c.pos c.bytes,
      length-append bytes rest,
      i.within,
    ))

advance_zero : (c : SliceCursor) → c ≡ advance 0 c
advance_zero c = let e : c.pos ≡ c.pos + 0 = omega arith in at_pos c c.pos (c.pos + 0) e

read_size_works :
    (kind : InstKind) (size mode : ℕ) (c : SliceCursor)
    → kind ≢ no_op
    → read_size (instruction kind size mode) c
      ≡ (if size == 0 then Cursor.read_varint c else ok (size, c))
unfolding read_size
read_size_works no_op size mode c h = absurd (h refl)
read_size_works add size mode c h = refl
read_size_works run size mode c h = refl
read_size_works copy size mode c h = refl

at_end : (c : SliceCursor) → IsInside c → unread c ≡ [] → (c.pos == length c.bytes) ≡ true
unfolding unread
at_end c i u =
    (==_iff c.pos (length c.bytes)).1
      (omega (arith, ap (λ (l : List ℕ). length l) u, length-drop c.pos c.bytes, i.within))

not_at_end :
    (c : SliceCursor) (b : ℕ) (rest : List ℕ)
    → IsInside c
    → unread c ≡ b ∷ rest
    → (c.pos == length c.bytes) ≡ false
unfolding unread
not_at_end c b rest i u = ground (arith, ap (λ (l : List ℕ). length l) u, length-drop c.pos c.bytes)

read_size_lem :
    (inst : Instruction) (n : ℕ) (bytes rest : List ℕ) (c : SliceCursor)
    → Sizes inst n bytes
    → IsInside c
    → unread c ≡ bytes ++ rest
    → read_size inst c ≡ ok (n, advance (length bytes) c)
unfolding read_size
read_size_lem inst n bytes rest c (no_size e) i u = rw e (λ j. ok (0, advance_zero c j))
read_size_lem inst n bytes rest c (table_size e p) i u =
    let given : (inst.size == 0) ≡ false = ground arith in
    read_size_works inst.kind inst.size inst.mode c e
    ∙ rw given (λ j. ok (inst.size, advance_zero c j))
read_size_lem inst n bytes rest c (stream_size k bs e z w) i u =
    let open_size : (inst.size == 0) ≡ true = (==_iff inst.size 0).1 z in
    read_size_works inst.kind inst.size inst.mode c e
    ∙ rw open_size (read_varint-Spells n c rest i w u)

module _ {S T : Stream} (source_law : ReadsBytes S) (law : WritesBytes T)
    (source before segment : List ℕ) (window : WindowContext)
    (placed : IsPlaced source before segment window) (fuel : ℕ)
    (attempts : io_buffer_size ≤ fuel) where
  instruction_loop_lem :
      (table : List Entry) (rounds : ℕ) (bytes : List ℕ) (codes : SliceCursor) (σ σ' : Progress)
      (m : Machine S T)
      → length bytes ≤ rounds
      → Executes segment window.target_size table bytes σ σ'
      → IsInside codes
      → unread codes ≡ bytes
      → Ready source_law law source before σ m
      → (m' : Machine S T) × (instruction_loop rounds fuel window table codes m ≡ ok m')
        × Ready source_law law source before σ' m'
  unfolding instruction_loop step Cursor.is_empty
  instruction_loop_lem table zero bytes codes σ σ' m l (finished τ) i u r =
      let ended : (codes.pos == length codes.bytes) ≡ true = at_end codes i u in (m, rw ended, r)
  instruction_loop_lem table (suc rounds) bytes codes σ σ' m l (finished τ) i u r =
      let ended : (codes.pos == length codes.bytes) ≡ true = at_end codes i u in (m, rw ended, r)
  instruction_loop_lem table zero bytes codes σ σ' m l
        (paired opcode e n k first second rest τ1 τ2 τ3 τ4 g s1 s2 p1 p2 more) i u r =
      absurd (omega arith)
  instruction_loop_lem table (suc rounds) bytes codes σ σ' m l
        (paired opcode e n k first second rest τ1 τ2 τ3 τ4 g s1 s2 p1 p2 more) i u r =
      let codes1 : SliceCursor = advance 1 codes in
      let codes2 : SliceCursor = advance (length first) codes1 in
      let codes3 : SliceCursor = advance (length second) codes2 in
      let i1 : IsInside codes1 =
        IsInside-behind (opcode ∷ []) (first ++ (second ++ rest)) codes i u in
      let u1 : unread codes1 ≡ first ++ (second ++ rest) =
        unread-behind (opcode ∷ []) (first ++ (second ++ rest)) codes u in
      let i2 : IsInside codes2 = IsInside-behind first (second ++ rest) codes1 i1 u1 in
      let u2 : unread codes2 ≡ second ++ rest = unread-behind first (second ++ rest) codes1 u1 in
      let i3 : IsInside codes3 = IsInside-behind second rest codes2 i2 u2 in
      let u3 : unread codes3 ≡ rest = unread-behind second rest codes2 u2 in
      let going : (codes.pos == length codes.bytes) ≡ false = not_at_end codes opcode _ i u in
      let opened = read_u8-ok codes opcode (first ++ (second ++ rest)) i u in
      let sized1 = read_size_lem e.first n first (second ++ rest) codes1 s1 i1 u1 in
      let sized2 = read_size_lem e.second k second rest codes2 s2 i2 u2 in
      let (m1, e1, r1) =
        execute_lem source_law law source before segment window placed fuel attempts e.first.kind
          e.first.size e.first.mode n σ τ2 m p1 r in
      let (m2, e2, r2) =
        execute_lem source_law law source before segment window placed fuel attempts e.second.kind
          e.second.size e.second.mode k τ2 τ3 m1 p2 r1 in
      let (m', e3, r') =
        instruction_loop_lem table rounds rest codes3 τ3 σ' m2
          (omega (arith, length-append first (second ++ rest), length-append second rest)) more i3
          u3 r2 in
      (m', rw (going, opened, g, sized1, sized2, e1, e2, e3), r')

  -- Where RFC 3284 gives the instruction section a meaning that uses the data and the addresses up,
  -- `run_instructions` succeeds: it appends exactly what the window means to the output and to what the
  -- window's checksum covers, and the source keeps its bytes.
  -- The streams keep the promises of the traits, the fuel is no less than the I/O buffer, and the
  -- window is placed behind an output and beside a source of bytes, below 2^64 together.
  pub run_instructions_lem :
      (table : List Entry) (sections : WindowSections) (stream : S.State) (output : TargetWriter T)
      (σ : Progress)
      → Holds law before [] output
      → source_law.bytes stream ≡ source
      → IsU64 (length sections.instructions.bytes)
      → Executes segment window.target_size table sections.instructions.bytes
          (beginning window sections)
          σ
      → Cursor.is_empty σ.data_cursor ≡ true
      → Cursor.is_empty σ.address_cursor ≡ true
      → (stream' : S.State) × (output' : TargetWriter T) × (run_instructions S fuel window table
            sections stream output
          ≡ ok (stream', output'))
        × (source_law.bytes stream' ≡ source)
        × Holds law (before ++ σ.produced) σ.produced output'
  unfolding run_instructions section_cursor Cursor.new unread
  run_instructions_lem table sections stream output σ h kept sized meant data_done addresses_done =
      let codes : SliceCursor = section_cursor window sections.instructions instructions in
      let start : Machine S T = record {
        data_cursor = section_cursor window sections.data_bytes data_section;
        address_cursor = section_cursor window sections.addresses addresses;
        cache = Cache.new;
        source = stream;
        output = output;
      } in
      let (m, e, r) =
        instruction_loop_lem table (length sections.instructions.bytes) sections.instructions.bytes
          codes (beginning window sections) σ start (omega arith) meant
          (record { within = omega arith; sized = sized }) refl
          (record {
            holds = subst (λ o. Holds law o [] output) (sym (append-nil before)) h;
            source_kept = kept;
            data_at = refl;
            address_at = refl;
            cache_at = refl;
          }) in
      let no_data : Cursor.is_empty m.data_cursor ≡ true =
        ap Cursor.is_empty r.data_at ∙ data_done in
      let no_addresses : Cursor.is_empty m.address_cursor ≡ true =
        ap Cursor.is_empty r.address_at ∙ addresses_done in
      (m.source, m.output, rw (e, no_data, no_addresses), r.source_kept, r.holds)
