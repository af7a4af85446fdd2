-- ===== src/Vcdiff/Cache/Modes.antt =====
-- `AddressCache::decode` against the address modes of RFC 3284, section 5.3.
use rust_crates.Prelude.{
  ℕ, suc, ◌+◌, ◌-◌, ◌*◌, ◌^◌, ◌≤◌, ◌<◌, ◌≡◌, some, List, [], ◌∷◌, ◌++◌, arith,
}
use rust_crates.Prelude.{IsU64, length, get_elem?}
use rust_crates.Vcdiff.Error.{Result, ok, err, DecodeError}
use rust_crates.Vcdiff.Varint.Encoding.{encode, length-encode}
use rust_crates.Vcdiff.Cursor.{SliceCursor, read_varint}
use rust_crates.Vcdiff.Cursor.Reads.{IsInside, advance, unread, read_u8-ok}
use rust_crates.Vcdiff.Cursor.Varints.{read_varint-encode}
use rust_crates.Vcdiff.Cache.{AddressCache, update, resolve, decode}
use rust_crates.Vcdiff.Cache.History.{IsValid}

-- The bytes are a form of the number in at most ten groups.
pub data Spells (v : ℕ) : List ℕ → Type 0 where
  spells : (k : ℕ) → k ≤ 9 → v < 128 ^ suc k → IsU64 v → Spells v (encode k v)

-- RFC 3284, section 5.3: how an address is written in each mode, when `here` is the current
-- position and the cache is as given.
pub data Addresses (here : ℕ) (cache : AddressCache) : ℕ → ℕ → List ℕ → Type 0 where
  self_mode : (a : ℕ) {bs : List ℕ} → Spells a bs → Addresses here cache 0 a bs
  here_mode : (a : ℕ) {bs : List ℕ} → a ≤ here → Spells (here - a) bs → Addresses here cache 1 a bs
  near_mode :
      (slot base offset : ℕ) {bs : List ℕ}
      → slot < 4
      → get_elem? cache.near slot ≡ some base
      → IsU64 (base + offset)
      → Spells offset bs
      → Addresses here cache (2 + slot) (base + offset) bs
  same_mode :
      (block byte a : ℕ)
      → block < 3
      → get_elem? cache.same (block * 256 + byte) ≡ some a
      → Addresses here cache (6 + block) a (byte ∷ [])

pub read_varint-Spells :
    (v : ℕ) {bs : List ℕ} (c : SliceCursor) (rest : List ℕ)
    → IsInside c
    → Spells v bs
    → unread c ≡ bs ++ rest
    → read_varint c ≡ ok (v, advance (length bs) c)
read_varint-Spells v c rest i (spells k few small fits) u =
    rw length-encode (read_varint-encode k v c rest i u few small fits)

resolve-Addresses :
    {here : ℕ} {cache : AddressCache} {mode a : ℕ} {bs : List ℕ} (c : SliceCursor) (rest : List ℕ)
    → Addresses here cache mode a bs
    → IsInside c
    → unread c ≡ bs ++ rest
    → resolve mode here cache c ≡ ok (a, advance (length bs) c)
unfolding resolve
resolve-Addresses c rest (self_mode a w) i u = read_varint-Spells a c rest i w u
resolve-Addresses {here} {bs = bs} c rest (here_mode a le w) i u =
    rw (read_varint-Spells (here - a) c rest i w u) (ground arith)
resolve-Addresses {bs = bs} c rest (near_mode slot base offset s g fits w) i u =
    ground (arith, read_varint-Spells offset c rest i w u)
resolve-Addresses c rest (same_mode block byte a b g) i u =
    ground (arith, read_u8-ok c byte rest i u)

-- Where the address section holds an address in the form that RFC 3284 gives it in the mode of the
-- instruction, `decode` returns exactly that address, records it in the cache and moves the cursor
-- behind its bytes.
pub decode-Addresses :
    {here : ℕ} {cache : AddressCache} {mode a : ℕ} {bs : List ℕ} (c : SliceCursor) (rest : List ℕ)
    → Addresses here cache mode a bs
    → IsInside c
    → unread c ≡ bs ++ rest
    → decode mode here cache c ≡ ok (a, update a cache, advance (length bs) c)
unfolding decode
decode-Addresses c rest w i u = rw (resolve-Addresses c rest w i u)

-- What `decode` may come to from a given cache and cursor.
pub data Decodes (c : SliceCursor) : Result (ℕ × AddressCache × SliceCursor) → Type 0 where
  decodes :
      (a n : ℕ) (cache : AddressCache)
      → IsU64 a
      → 0 < n
      → IsValid cache
      → IsInside (advance n c)
      → Decodes c (ok (a, cache, advance n c))
  rejects : (e : DecodeError) → Decodes c (err e)
