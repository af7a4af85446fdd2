-- ===== src/Vcdiff/Cache.antt =====
-- crates/vcdiff/src/cache.rs: the SAME/NEAR address cache of COPY instructions.
pub mod History
pub mod Modes
pub mod Total
use rust_crates.Prelude.{ℕ, ◌+◌, ◌-◌, ◌*◌, ◌%◌, List, set, get_elem?, replicate}
use rust_crates.Prelude.{ltb, ◌==◌, if◌then◌else◌, checked_add}
use rust_crates.Vcdiff.Error.{Result, ok, err, ◌>>=◌, ◌>>◌, refuse, ok_or, or_panic}
use rust_crates.Vcdiff.Error.{address_out_of_bounds, arithmetic_overflow, invalid_address_mode}
use rust_crates.Vcdiff.Cursor.{SliceCursor, context, read_varint, read_u8}
use rust_crates.Vcdiff.CodeTable.{near_count, same_count}

-- `SAME_COUNT * 256`
abbrev pub same_size : ℕ
same_size = 768

pub record AddressCache : Type 0 where
  pub near : List ℕ
  pub same : List ℕ
  pub next_near : ℕ

unfoldable pub new : AddressCache
new = record { near = replicate near_count 0; same = replicate same_size 0; next_near = 0 }

-- `next_near` stays below `NEAR_COUNT`, and the index into `same` below its length.
unfoldable pub update : ℕ → AddressCache → AddressCache
update address cache = record {
  near = set cache.near cache.next_near address;
  same = set cache.same (address % same_size) address;
  next_near = (cache.next_near + 1) % near_count;
}

-- The address that `mode` selects, before it is recorded.
unfoldable pub resolve : ℕ → ℕ → AddressCache → SliceCursor → Result (ℕ × SliceCursor)
resolve mode here cache addr =
    let same_start : ℕ = 2 + near_count in
    if mode == 0
    then read_varint addr
    else if mode == 1
    then (do
      (distance, addr') ← read_varint addr
      refuse (ltb here distance) (address_out_of_bounds distance here (context addr'))
      ok (here - distance, addr'))
    else if ltb mode same_start
    then (do
      (offset, addr') ← read_varint addr
      base ← or_panic (get_elem? cache.near (mode - 2))
      address ← ok_or (checked_add base offset) (arithmetic_overflow (context addr'))
      ok (address, addr'))
    else if ltb mode (same_start + same_count)
    then (do
      (byte, addr') ← read_u8 addr
      address ← or_panic (get_elem? cache.same ((mode - same_start) * 256 + byte))
      ok (address, addr'))
    else err (invalid_address_mode mode (context addr))

unfoldable pub decode : ℕ → ℕ → AddressCache → SliceCursor → Result (ℕ × AddressCache × SliceCursor)
decode mode here cache addr = do
  (address, addr') ← resolve mode here cache addr
  ok (address, update address cache, addr')
