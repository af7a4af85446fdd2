-- ===== src/Vcdiff/Adler.antt =====
-- crates/vcdiff/src/target.rs, `Adler32`: the incremental checksum of one target window.
pub mod Sums
use rust_crates.Prelude.{ℕ, zero, suc, ◌+◌, ◌*◌, ◌%◌, List, [], ◌∷◌, bit_or, take, drop, length}

pub record Adler32 : Type 0 where
  pub s1 : ℕ
  pub s2 : ℕ

abbrev pub modulus : ℕ
modulus = 65521

abbrev pub reduction_chunk : ℕ
reduction_chunk = 5552

unfoldable pub new : Adler32
new = record { s1 = 1; s2 = 0 }

-- `for &byte in chunk { s1 += byte; s2 += s1; }` in `u64`
unfoldable pub accumulate : List ℕ → ℕ → ℕ → ℕ × ℕ
accumulate [] s1 s2 = (s1, s2)
accumulate (byte ∷ bytes) s1 s2 =
    let s1' = (s1 + byte) % 0x1_0000_0000_0000_0000 in
    accumulate bytes s1' ((s2 + s1') % 0x1_0000_0000_0000_0000)

-- One chunk: the sums, reduced and cast to `u32`.
unfoldable pub update_chunk : List ℕ → Adler32 → Adler32
unfolding accumulate
update_chunk chunk a =
    let (s1, s2) = accumulate chunk a.s1 a.s2 in
    record { s1 = s1 % modulus % 0x1_0000_0000; s2 = s2 % modulus % 0x1_0000_0000 }

-- `bytes.chunks(REDUCTION_CHUNK)`. Each round takes a byte at least.
unfoldable pub update_chunks : ℕ → List ℕ → Adler32 → Adler32
update_chunks rounds [] a = a
update_chunks zero (byte ∷ bytes) a = a
update_chunks (suc rounds) (byte ∷ bytes) a =
    update_chunks rounds (drop reduction_chunk (byte ∷ bytes))
      (update_chunk (take reduction_chunk (byte ∷ bytes)) a)

unfoldable pub update : List ℕ → Adler32 → Adler32
unfolding update_chunks
update bytes a = update_chunks (length bytes) bytes a

-- `(self.s2 << 16) | self.s1` in `u32`
unfoldable pub finish : Adler32 → ℕ
finish a = bit_or (a.s2 * 0x1_0000 % 0x1_0000_0000) a.s1
