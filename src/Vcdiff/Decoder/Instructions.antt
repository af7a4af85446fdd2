-- ===== src/Vcdiff/Decoder/Instructions.antt =====
-- crates/vcdiff/src/decoder.rs: the instructions of one window, from `run_instructions` on.
use rust_crates.Prelude.{ℕ, zero, suc, ◌-◌, not, Option, none, some, List, get_elem?, length}
use rust_crates.Prelude.{ltb, leb, ◌==◌, if◌then◌else◌, checked_add, checked_sub}
use rust_crates.Vcdiff.Error.{
  SectionKind, DecodeContext, Result, ok, stuck, ◌>>=◌, ◌>>◌, refuse, ok_or, or_panic,
}
use rust_crates.Vcdiff.Error.{
  data_section, instructions, addresses, trailing_section_data, target_size_mismatch,
  arithmetic_overflow, address_out_of_bounds, copy_crosses_source_target,
}
use rust_crates.Vcdiff.Stream.{Stream}
use rust_crates.Vcdiff.Cursor
use rust_crates.Vcdiff.Cursor.{SliceCursor}
use rust_crates.Vcdiff.Cache
use rust_crates.Vcdiff.Cache.{AddressCache}
use rust_crates.Vcdiff.CodeTable.{Instruction, Entry, no_op, add, run, copy}
use rust_crates.Vcdiff.Target
use rust_crates.Vcdiff.Target.{TargetWriter}
use rust_crates.Vcdiff.SourceCopy.{copy_from_source}
use rust_crates.Vcdiff.Secondary.{PreparedSection}

-- `Source` and `Target`
pub data SegmentKind : Type 0 where
  from_source from_target : SegmentKind

pub record Segment : Type 0 where
  pub kind : SegmentKind
  pub start : ℕ
  pub len : ℕ

pub record WindowContext : Type 0 where
  pub index : ℕ
  pub window_start : ℕ
  pub segment : Option Segment
  pub target_size : ℕ

-- The field `data` is `data_bytes` here, since `data` is a keyword.
pub record WindowSections : Type 0 where
  pub data_bytes : PreparedSection
  pub instructions : PreparedSection
  pub addresses : PreparedSection

-- What the instructions of a window change: the three cursors, the cache, the source and the output.
pub record Machine (S T : Stream) : Type 0 where
  pub data_cursor : SliceCursor
  pub address_cursor : SliceCursor
  pub cache : AddressCache
  pub source : S.State
  pub output : TargetWriter T

unfoldable pub read_size : Instruction → SliceCursor → Result (ℕ × SliceCursor)
read_size inst cursor = elim inst.kind [
  | no_op ↦ ok (0, cursor)
  | _ ↦ if inst.size == 0 then Cursor.read_varint cursor else ok (inst.size, cursor)
]

unfoldable pub section_cursor : WindowContext → PreparedSection → SectionKind → SliceCursor
section_cursor window section kind = Cursor.new section.bytes section.delta_offset window.index kind

unfoldable pub segment_len : Option Segment → ℕ
segment_len none = 0
segment_len (some s) = s.len

module _ {T : Stream} where
  unfoldable pub check_room : WindowContext → TargetWriter T → ℕ → DecodeContext → Result (Unit {0})
  check_room window output size context = do
    produced ←
        ok_or (checked_sub (Target.len output) window.window_start) (arithmetic_overflow context)
    attempted ← ok_or (checked_add produced size) (arithmetic_overflow context)
    refuse (ltb window.target_size attempted)
        (target_size_mismatch window.target_size attempted context)

module _ {S T : Stream} where
  -- `add`
  unfoldable pub run_add : ℕ → WindowContext → ℕ → Machine S T → Result (Machine S T)
  run_add fuel window size m = do
    let context = Cursor.context m.data_cursor
    check_room window m.output size context
    (bytes, cursor) ← Cursor.read_slice size m.data_cursor
    output ← Target.emit fuel bytes context m.output
    ok (record m { data_cursor = cursor; output = output })

  -- `run`
  unfoldable pub run_run : ℕ → WindowContext → ℕ → Machine S T → Result (Machine S T)
  run_run fuel window size m = do
    let context = Cursor.context m.data_cursor
    check_room window m.output size context
    (byte, cursor) ← Cursor.read_u8 m.data_cursor
    output ← Target.emit_run fuel byte size context m.output
    ok (record m { data_cursor = cursor; output = output })

  -- The `match segment.kind` at the end of the branch for the segment.
  unfoldable pub copy_out_of :
      SegmentKind → ℕ → ℕ → ℕ → DecodeContext → Machine S T → Result (Machine S T)
  copy_out_of from_source fuel start size context m = do
    (stream, output) ← copy_from_source S fuel start size context m.source m.output
    ok (record m { source = stream; output = output })
  copy_out_of from_target fuel start size context m = do
    output ← Target.copy_from_target fuel start size context m.output
    ok (record m { output = output })

  -- `if address < segment_len { … }`
  unfoldable pub copy_segment :
      ℕ → WindowContext → ℕ → ℕ → ℕ → DecodeContext → Machine S T → Result (Machine S T)
  unfolding copy_out_of
  copy_segment fuel window size here address context m = do
    let boundary = segment_len window.segment
    end ← ok_or (checked_add address size) (arithmetic_overflow context)
    refuse (ltb boundary end) (copy_crosses_source_target address size boundary context)
    segment ← ok_or window.segment (address_out_of_bounds address here context)
    start ← ok_or (checked_add segment.start address) (arithmetic_overflow context)
    copy_out_of segment.kind fuel start size context m

  -- The rest of `copy`, for an address inside the current window.
  unfoldable pub copy_window :
      ℕ → WindowContext → ℕ → ℕ → ℕ → DecodeContext → Machine S T → Result (Machine S T)
  copy_window fuel window size here address context m = do
    let offset = address - segment_len window.segment
    start ← ok_or (checked_add window.window_start offset) (arithmetic_overflow context)
    distance ←
        ok_or (checked_sub (Target.len m.output) start) (address_out_of_bounds address here context)
    refuse (distance == 0) (address_out_of_bounds address here context)
    output ← Target.copy_from_current fuel start size distance context m.output
    ok (record m { output = output })

  -- `copy`
  unfoldable pub run_copy : ℕ → WindowContext → ℕ → ℕ → Machine S T → Result (Machine S T)
  unfolding copy_segment copy_window segment_len
  run_copy fuel window size mode m = do
    let context = Cursor.context m.address_cursor
    check_room window m.output size context
    let boundary = segment_len window.segment
    produced ←
        ok_or (checked_sub (Target.len m.output) window.window_start) (arithmetic_overflow context)
    here ← ok_or (checked_add boundary produced) (arithmetic_overflow context)
    (address, cache, cursor) ← Cache.decode mode here m.cache m.address_cursor
    refuse (leb here address) (address_out_of_bounds address here context)
    let m' : Machine S T = record m { cache = cache; address_cursor = cursor }
    if ltb address boundary
        then copy_segment fuel window size here address context m'
        else copy_window fuel window size here address context m'

  unfoldable pub execute : ℕ → WindowContext → Instruction → ℕ → Machine S T → Result (Machine S T)
  execute fuel window inst size m = elim inst.kind [
    | no_op ↦ ok m
    | add ↦ run_add fuel window size m
    | run ↦ run_run fuel window size m
    | copy ↦ run_copy fuel window size inst.mode m
  ]

  -- One round of `while !instructions.is_empty()`.
  unfoldable pub step :
      ℕ
      → WindowContext
      → List Entry
      → SliceCursor
      → Machine S T
      → Result (SliceCursor × Machine S T)
  step fuel window table codes m = do
    (opcode, codes1) ← Cursor.read_u8 codes
    entry ← or_panic (get_elem? table opcode)
    (size1, codes2) ← read_size entry.first codes1
    (size2, codes3) ← read_size entry.second codes2
    m1 ← execute fuel window entry.first size1 m
    m2 ← execute fuel window entry.second size2 m1
    ok (codes3, m2)

  -- Each round takes a byte of the instruction section at least.
  unfoldable pub instruction_loop :
      ℕ → ℕ → WindowContext → List Entry → SliceCursor → Machine S T → Result (Machine S T)
  instruction_loop zero fuel window table codes m = if Cursor.is_empty codes then ok m else stuck
  instruction_loop (suc rounds) fuel window table codes m =
      let after = (do
        (codes', m') ← step fuel window table codes m
        instruction_loop rounds fuel window table codes' m') in
      if Cursor.is_empty codes then ok m else after

module _ (S : Stream) {T : Stream} where
  unfoldable pub run_instructions :
      ℕ
      → WindowContext
      → List Entry
      → WindowSections
      → S.State
      → TargetWriter T
      → Result (S.State × TargetWriter T)
  run_instructions fuel window table sections source output = do
    let codes = section_cursor window sections.instructions instructions
    let start : Machine S T = record {
      data_cursor = section_cursor window sections.data_bytes data_section;
      address_cursor = section_cursor window sections.addresses addresses;
      cache = Cache.new;
      source = source;
      output = output;
    }
    m ← instruction_loop (length sections.instructions.bytes) fuel window table codes start
    let data_left = m.data_cursor
    refuse (not (Cursor.is_empty data_left))
        (trailing_section_data data_section (Cursor.remaining data_left) (Cursor.context data_left))
    let addresses_left = m.address_cursor
    refuse (not (Cursor.is_empty addresses_left)) (
        trailing_section_data addresses (Cursor.remaining addresses_left)
          (Cursor.context addresses_left))
    ok (m.source, m.output)
