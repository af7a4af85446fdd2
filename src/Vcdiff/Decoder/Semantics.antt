-- ===== src/Vcdiff/Decoder/Semantics.antt =====
-- RFC 3284, sections 3 and 5: what the instructions of a window mean. A window sees the superstring
-- of its segment and of what it has produced itself.
use rust_crates.Prelude.{ℕ, ◌+◌, ◌≤◌, ◌<◌, ◌≡◌, Option, none, some, List, [], ◌∷◌, ◌++◌, ◌≢◌}
use rust_crates.Prelude.{IsByte, All, length, take, drop, replicate, get_elem?}
use rust_crates.Vcdiff.Error.{data_section, addresses}
use rust_crates.Vcdiff.Cursor.{SliceCursor}
use rust_crates.Vcdiff.Cursor.Reads.{IsInside, advance, unread}
use rust_crates.Vcdiff.Cache.{AddressCache, new, update}
use rust_crates.Vcdiff.Cache.Modes.{Addresses, Spells}
use rust_crates.Vcdiff.CodeTable.{InstKind, Instruction, Entry, no_op, add, run, copy}
use rust_crates.Vcdiff.Target.Overlap.{overlap}
use rust_crates.Vcdiff.Decoder.Instructions.{
  Segment, WindowContext, WindowSections, section_cursor, from_source, from_target,
}

-- The segment that a window refers to, in a source or in the output of the windows before.
pub data Segments (source before : List ℕ) : Option Segment → List ℕ → Type 0 where
  no_segment : Segments source before none []
  source_segment :
      (start len : ℕ)
      → start + len ≤ length source
      → Segments source before
          (some (record { kind = from_source; start = start; len = len }))
          (take len (drop start source))
  target_segment :
      (start len : ℕ)
      → start + len ≤ length before
      → Segments source before
          (some (record { kind = from_target; start = start; len = len }))
          (take len (drop start before))

-- What a window has produced, and where it stands in its sections.
pub record Progress : Type 0 where
  pub produced : List ℕ
  pub data_cursor : SliceCursor
  pub address_cursor : SliceCursor
  pub cache : AddressCache

-- The start of a window with such sections.
abbrev pub beginning : WindowContext → WindowSections → Progress
beginning window sections = record {
  produced = [];
  data_cursor = section_cursor window sections.data_bytes data_section;
  address_cursor = section_cursor window sections.addresses addresses;
  cache = new;
}

-- RFC 3284, section 5.4: the size of an instruction stands in the table, or behind the opcode where
-- the table says 0. The bytes are those behind the opcode.
pub data Sizes (inst : Instruction) : ℕ → List ℕ → Type 0 where
  no_size : inst.kind ≡ no_op → Sizes inst 0 []
  table_size : inst.kind ≢ no_op → 0 < inst.size → Sizes inst inst.size []
  stream_size :
      (n : ℕ) (bytes : List ℕ)
      → inst.kind ≢ no_op
      → inst.size ≡ 0
      → Spells n bytes
      → Sizes inst n bytes

module _ (segment : List ℕ) (target_size : ℕ) where
  -- What an instruction of a kind, a size and a mode does in a window of at most `target_size` bytes.
  pub data Performs : InstKind → ℕ → ℕ → Progress → Progress → Type 0 where
    nothing : {size mode : ℕ} (σ : Progress) → Performs no_op size mode σ σ
    adds :
        {mode : ℕ} (σ : Progress) (bytes rest : List ℕ)
        → IsInside σ.data_cursor
        → unread σ.data_cursor ≡ bytes ++ rest
        → All IsByte bytes
        → length σ.produced + length bytes ≤ target_size
        → Performs add (length bytes) mode σ (record σ {
          produced = σ.produced ++ bytes;
          data_cursor = advance (length bytes) σ.data_cursor;
        })
    runs :
        {mode : ℕ} (σ : Progress) (size byte : ℕ) (rest : List ℕ)
        → IsInside σ.data_cursor
        → unread σ.data_cursor ≡ byte ∷ rest
        → IsByte byte
        → length σ.produced + size ≤ target_size
        → Performs run size mode σ (record σ {
          produced = σ.produced ++ replicate size byte;
          data_cursor = advance 1 σ.data_cursor;
        })
    copies :
        {mode : ℕ} (σ : Progress) (size address : ℕ) (bytes rest : List ℕ)
        → Addresses (length segment + length σ.produced) σ.cache mode address bytes
        → IsInside σ.address_cursor
        → unread σ.address_cursor ≡ bytes ++ rest
        → address < length segment + length σ.produced
        → (address < length segment → address + size ≤ length segment)
        → length σ.produced + size ≤ target_size
        → Performs copy size mode σ (record σ {
          produced = σ.produced ++ overlap (segment ++ σ.produced) address size;
          address_cursor = advance (length bytes) σ.address_cursor;
          cache = update address σ.cache;
        })

  -- What the bytes of an instruction section do: opcode by opcode, the two instructions of its entry.
  pub data Executes (table : List Entry) : List ℕ → Progress → Progress → Type 0 where
    finished : (σ : Progress) → Executes table [] σ σ
    paired :
        (opcode : ℕ) (e : Entry) (n k : ℕ) (first second rest : List ℕ) (σ τ υ ω : Progress)
        → get_elem? table opcode ≡ some e
        → Sizes e.first n first
        → Sizes e.second k second
        → Performs e.first.kind n e.first.mode σ τ
        → Performs e.second.kind k e.second.mode τ υ
        → Executes table rest υ ω
        → Executes table (opcode ∷ (first ++ (second ++ rest))) σ ω
