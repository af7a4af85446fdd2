-- ===== src/Vcdiff/Decoder/Executing.antt =====
-- `copy` does what the COPY of RFC 3284 means, and with it `execute` what every instruction means.
use rust_crates.Prelude.{
  ℕ, ◌+◌, ◌-◌, ◌≤◌, ◌<◌, ◌≡◌, refl, ◌∙◌, List, ◌++◌, arith, true, false, inl, inr, Bool-cases,
}
use rust_crates.Prelude.{length, length-append, ltb, leb, lt→ltb}
use rust_crates.Vcdiff.Error.{ok, DecodeContext}
use rust_crates.Vcdiff.Stream.{Stream, ReadsBytes, WritesBytes}
use rust_crates.Vcdiff.Cursor
use rust_crates.Vcdiff.Cursor.{SliceCursor}
use rust_crates.Vcdiff.Cursor.Reads.{advance, unread, IsInside}
use rust_crates.Vcdiff.Cache
use rust_crates.Vcdiff.Cache.{AddressCache}
use rust_crates.Vcdiff.Cursor.{SliceCursor}
use rust_crates.Vcdiff.Cache.Modes.{Addresses, decode-Addresses}
use rust_crates.Vcdiff.CodeTable.{InstKind, instruction}
use rust_crates.Vcdiff.Target.{TargetWriter, io_buffer_size}
use rust_crates.Vcdiff.Target
use rust_crates.Vcdiff.Target.Overlap.{overlap}
use rust_crates.Vcdiff.Decoder.Instructions.{WindowContext, Machine, segment_len, run_copy, execute}
use rust_crates.Vcdiff.Decoder.Semantics.{Progress, Performs, nothing, adds, runs, copies}
use rust_crates.Vcdiff.Decoder.Performing.{
  length-Segments, IsPlaced, Ready, check_room_lem, adds_lem, runs_lem,
}
use rust_crates.Vcdiff.Decoder.Copying.{copy_segment_lem, copy_window_lem}

module _ {S T : Stream} (source_law : ReadsBytes S) (law : WritesBytes T)
    (source before segment : List ℕ) (window : WindowContext)
    (placed : IsPlaced source before segment window) (fuel : ℕ)
    (attempts : io_buffer_size ≤ fuel) where
  -- The machine after a COPY has read its address.
  addressed :
      (cache : AddressCache) (cursor : SliceCursor) (σ : Progress) (m : Machine S T)
      → Ready source_law law source before σ m
      → Ready source_law law source before
          (record σ { address_cursor = cursor; cache = cache })
          (record m { cache = cache; address_cursor = cursor })
  addressed cache cursor σ m r = record {
    holds = r.holds;
    source_kept = r.source_kept;
    data_at = r.data_at;
    address_at = refl;
    cache_at = refl;
  }

  -- A COPY whose address is decoded.
  pub copy_decoded_lem :
      (size mode address : ℕ) (cache : AddressCache) (cursor : SliceCursor) (σ : Progress)
      (m : Machine S T)
      → Ready source_law law source before σ m
      → Cache.decode mode (length segment + length σ.produced) σ.cache σ.address_cursor
        ≡ ok (address, cache, cursor)
      → address < length segment + length σ.produced
      → (address < length segment → address + size ≤ length segment)
      → length σ.produced + size ≤ window.target_size
      → (m' : Machine S T) × (run_copy fuel window size mode m ≡ ok m')
        × Ready source_law law source before
            (record σ {
              produced = σ.produced ++ overlap (segment ++ σ.produced) address size;
              address_cursor = cursor;
              cache = cache;
            })
            m'
  unfolding run_copy Target.len
  copy_decoded_lem size mode address cache cursor σ m r d below inside room =
      let context : DecodeContext = Cursor.context m.address_cursor in
      let boundary : segment_len window.segment ≡ length segment =
        length-Segments placed.segments in
      let len : m.output.logical_len ≡ length before + length σ.produced =
        r.holds.writing.len_known ∙ length-append before σ.produced in
      let here : ℕ = segment_len window.segment + (m.output.logical_len - window.window_start) in
      let here_known : here ≡ length segment + length σ.produced =
        omega (arith, boundary, len, placed.starts) in
      let behind : leb window.window_start m.output.logical_len ≡ true =
        ground (arith, len, placed.starts) in
      let fits : ltb here 0x1_0000_0000_0000_0000 ≡ true =
        lt→ltb _ _ (omega (arith, here_known, placed.view_sized)) in
      let decoded : Cache.decode mode here m.cache m.address_cursor ≡ ok (address, cache, cursor) =
        (λ j. Cache.decode mode (here_known j) (r.cache_at j) (r.address_at j)) ∙ d in
      let outside : leb here address ≡ false = ground (arith, here_known) in
      let ready = addressed cache cursor σ m r in
      let checked =
        check_room_lem source_law law source before segment window placed fuel attempts size context
          σ m r room in
      elim (Bool-cases (ltb address (segment_len window.segment))) [
        | inl front ↦
            let low : address < length segment = ground (arith, boundary) in
            rw (checked, behind, fits, decoded, outside, front)
              (copy_segment_lem source_law law source before segment window placed fuel attempts
                size here address context _ _ ready low (inside low) room)
        | inr back ↦
            rw (checked, behind, fits, decoded, outside, back)
              (copy_window_lem source_law law source before segment window placed fuel attempts size
                here address context _ _ ready (ground (arith, boundary)) below room)
      ]

  copies_lem :
      (size mode address : ℕ) (bytes rest : List ℕ) (σ : Progress) (m : Machine S T)
      → Ready source_law law source before σ m
      → Addresses (length segment + length σ.produced) σ.cache mode address bytes
      → IsInside σ.address_cursor
      → unread σ.address_cursor ≡ bytes ++ rest
      → address < length segment + length σ.produced
      → (address < length segment → address + size ≤ length segment)
      → length σ.produced + size ≤ window.target_size
      → (m' : Machine S T) × (run_copy fuel window size mode m ≡ ok m')
        × Ready source_law law source before
            (record σ {
              produced = σ.produced ++ overlap (segment ++ σ.produced) address size;
              address_cursor = advance (length bytes) σ.address_cursor;
              cache = Cache.update address σ.cache;
            })
            m'
  copies_lem size mode address bytes rest σ m r a i u below inside room =
      copy_decoded_lem size mode address (Cache.update address σ.cache)
        (advance (length bytes) σ.address_cursor) σ m r
        (decode-Addresses σ.address_cursor rest a i u) below inside room

  -- Where RFC 3284 gives an instruction a meaning, `execute` succeeds with it: it produces the bytes
  -- that the instruction means, moves the section cursors behind what it used, and records the
  -- address of a copy.
  -- The streams keep the promises of the traits, the fuel is no less than the I/O buffer, and the
  -- window is placed behind an output and beside a source of bytes, below 2^64 together.
  pub execute_lem :
      (kind : InstKind) (table_size mode size : ℕ) (σ σ' : Progress) (m : Machine S T)
      → Performs segment window.target_size kind size mode σ σ'
      → Ready source_law law source before σ m
      → (m' : Machine S T) × (execute fuel window (instruction kind table_size mode) size m ≡ ok m')
        × Ready source_law law source before σ' m'
  unfolding execute
  execute_lem kind table_size mode size σ σ' m (nothing τ) r = (m, refl, r)
  execute_lem kind table_size mode size σ σ' m (adds τ bytes rest i u b room) r =
      adds_lem source_law law source before segment window placed fuel attempts (length bytes) bytes
        rest σ m r i u refl b room
  execute_lem kind table_size mode size σ σ' m (runs τ n byte rest i u b room) r =
      runs_lem source_law law source before segment window placed fuel attempts n byte rest σ m r i
        u b room
  execute_lem kind table_size mode size σ σ' m
        (copies τ n address bytes rest a i u below inside room) r =
      copies_lem n mode address bytes rest σ m r a i u below inside room
