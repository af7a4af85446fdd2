-- ===== src/Vcdiff/Cache/Total.antt =====
-- `AddressCache::decode` on any mode and any bytes.
use rust_crates.Prelude.{
  ℕ, zero, suc, ◌+◌, ◌-◌, ◌*◌, ◌<◌, ◌≡◌, ap, some, List, [], ◌∷◌, arith, Bool-cases, inl, inr,
  subst,
}
use rust_crates.Prelude.{
  IsU64, IsByte, All, length, get_elem?, get_elem?-some, ltb, ◌==◌, checked_add, ltb→lt,
}
use rust_crates.Vcdiff.Error.{
  Result, ok, err, DecodeError, ◌>>=◌, ◌>>◌, ok_or, or_panic, refuse, address_out_of_bounds,
  arithmetic_overflow,
}
use rust_crates.Vcdiff.Cursor.{SliceCursor, context, read_varint, read_u8}
use rust_crates.Vcdiff.Cursor.Reads.{IsInside, IsInside-advance, advance, unread, read_u8-ok}
use rust_crates.Vcdiff.Cursor.Total.{
  Reads, reads, refused, read_varint-Reads, List-cases, read_u8-empty,
}
use rust_crates.Vcdiff.Cache.{AddressCache, update, resolve, decode}
use rust_crates.Vcdiff.Cache.History.{IsValid, update-IsValid}
use rust_crates.Vcdiff.Cache.Modes.{Decodes, decodes, rejects}

-- What `resolve` may come to.
data Resolves (c : SliceCursor) : Result (ℕ × SliceCursor) → Type 0 where
  found : (a n : ℕ) → IsU64 a → 0 < n → IsInside (advance n c) → Resolves c (ok (a, advance n c))
  fails : (e : DecodeError) → Resolves c (err e)

Resolves-bind :
    {c : SliceCursor} {r : Result (ℕ × SliceCursor)}
    (k : ℕ × SliceCursor → Result (ℕ × SliceCursor))
    → Reads c r
    → ((v n : ℕ) → IsU64 v → 0 < n → IsInside (advance n c) → Resolves c (k (v, advance n c)))
    → Resolves c (r >>= k)
Resolves-bind k (reads v n w p q i) f = f v n w p i
Resolves-bind k (refused e) f = fails e

Resolves-Reads : {c : SliceCursor} {r : Result (ℕ × SliceCursor)} → Reads c r → Resolves c r
Resolves-Reads (reads v n w p q i) = found v n w p i
Resolves-Reads (refused e) = fails e

get_elem?-All : (xs : List ℕ) (i v : ℕ) → All IsU64 xs → get_elem? xs i ≡ some v → IsU64 v
get_elem?-All [] i v h g = cc
get_elem?-All (x ∷ xs) zero v (p, ps) g = ground arith
get_elem?-All (x ∷ xs) (suc i) v (p, ps) g = get_elem?-All xs i v ps g

module _ (here : ℕ) (cache : AddressCache) (c : SliceCursor) (small : IsU64 here)
    (valid : IsValid cache) (i : IsInside c) (bytes : All IsByte (unread c)) where
  here-Resolves : Resolves c (do
    (distance, after) ← read_varint c
    refuse (ltb here distance) (address_out_of_bounds distance here (context after))
    ok (here - distance, after))
  here-Resolves = Resolves-bind _ (read_varint-Reads c i) λ v n w p q.
      elim (Bool-cases (ltb here v)) [
        | inl far ↦ rw far (fails _)
        | inr near ↦ rw near (found (here - v) n (omega arith) p q)
      ]

  near-Resolves :
      (slot : ℕ)
      → slot < 4
      → Resolves c (do
        (offset, after) ← read_varint c
        base ← or_panic (get_elem? cache.near slot)
        address ← ok_or (checked_add base offset) (arithmetic_overflow (context after))
        ok (address, after))
  near-Resolves slot s =
      let (base, g) = get_elem?-some cache.near slot (omega (arith, valid.near_size)) in
      Resolves-bind _ (read_varint-Reads c i) λ v n w p q.
        rw g (elim (Bool-cases (ltb (base + v) 0x1_0000_0000_0000_0000)) [
          | inl fits ↦ rw fits (found (base + v) n (ltb→lt _ _ fits) p q)
          | inr big ↦ rw big (fails _)
        ])

  same-Resolves :
      (block : ℕ)
      → block < 3
      → Resolves c (do
        (byte, after) ← read_u8 c
        address ← or_panic (get_elem? cache.same (block * 256 + byte))
        ok (address, after))
  same-Resolves block s = elim (List-cases (unread c)) [
    | inl nothing ↦ rw (read_u8-empty c i nothing) (fails _)
    | inr (b, rest, u) ↦
        let byte : All IsByte (b ∷ rest) = subst (All IsByte) u bytes in
        let (a, g) =
          get_elem?-some cache.same (block * 256 + b) (omega (arith, valid.same_len, byte)) in
        rw (read_u8-ok c b rest i u, g)
          (found a 1 (get_elem?-All cache.same (block * 256 + b) a valid.same_words g) (omega arith)
            (IsInside-advance 1 c i (omega (arith, ap (λ (l : List ℕ). length l) u))))
  ]

  resolve-Resolves : (mode : ℕ) → Resolves c (resolve mode here cache c)
  unfolding resolve
  resolve-Resolves mode = elim (Bool-cases (mode == 0)) [
    | inl m0 ↦ rw m0 (Resolves-Reads (read_varint-Reads c i))
    | inr n0 ↦ rw n0 (elim (Bool-cases (mode == 1)) [
      | inl m1 ↦ rw m1 here-Resolves
      | inr n1 ↦ rw n1 (elim (Bool-cases (ltb mode 6)) [
        | inl m6 ↦ rw m6 (near-Resolves (mode - 2) (ground arith))
        | inr n6 ↦ rw n6 (elim (Bool-cases (ltb mode 9)) [
          | inl m9 ↦ rw m9 (same-Resolves (mode - 6) (ground arith))
          | inr n9 ↦ rw n9 (fails _)
        ])
      ])
    ])
  ]

  Decodes-bind :
      {r : Result (ℕ × SliceCursor)}
      → Resolves c r
      → Decodes c (do (a, after) ← r; ok (a, update a cache, after))
  Decodes-bind (found a n w p q) = decodes a n (update a cache) w p (update-IsValid a w valid) q
  Decodes-bind (fails e) = rejects e

  -- With a valid cache and a cursor inside a section of bytes, `decode` always comes to an answer,
  -- whatever the mode: an address of 64 bits, a cache that is still valid and a cursor further on
  -- inside the section, or an error; it never panics.
  pub decode-Decodes : (mode : ℕ) → Decodes c (decode mode here cache c)
  unfolding decode
  decode-Decodes mode = Decodes-bind (resolve-Resolves mode)
