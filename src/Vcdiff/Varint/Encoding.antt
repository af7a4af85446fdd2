-- ===== src/Vcdiff/Varint/Encoding.antt =====
-- Base-128 integers as RFC 3284, section 2 writes them, and what the readers' arithmetic makes of a
-- byte.
use rust_crates.Prelude.{
  ℕ, zero, suc, ◌+◌, ◌*◌, ◌/◌, ◌%◌, ◌≤◌, ◌<◌, ◌≡◌, refl, ◌∙◌, none, some, List, [], ◌∷◌, ◌++◌,
  arith,
}
use rust_crates.Prelude.{
  IsByte, IsU64, low_bits, top_bit, bit_and, ◌==◌, true, false, length, length-append,
}
use rust_crates.Vcdiff.Varint.{push_group}

-- The bytes of all groups but the last, most significant first, each with its top bit set: the
-- `k` groups of `v`.
unfoldable pub leading : ℕ → ℕ → List ℕ
leading zero v = []
leading (suc k) v = leading k (v / 128) ++ ((v % 128 + 128) ∷ [])

-- `v` in `k + 1` bytes. A form longer than `v` needs starts with empty groups.
unfoldable pub encode : ℕ → ℕ → List ℕ
unfolding leading
encode k v = leading k (v / 128) ++ ((v % 128) ∷ [])

pub length-leading : (k v : ℕ) → length (leading k v) ≡ k
unfolding leading
length-leading zero v = refl
length-leading (suc k) v =
    length-append (leading k (v / 128)) ((v % 128 + 128) ∷ [])
    ∙ omega (arith, length-leading k (v / 128))

pub length-encode : (k v : ℕ) → length (encode k v) ≡ k + 1
unfolding encode
length-encode k v =
    length-append (leading k (v / 128)) ((v % 128) ∷ []) ∙ omega (arith, length-leading k (v / 128))

pub push_group-some :
    (value byte : ℕ)
    → IsByte byte
    → IsU64 (value * 128 + byte % 128)
    → push_group value byte ≡ some (value * 128 + byte % 128)
unfolding push_group
push_group-some value byte b h = ground (arith, low_bits byte b)

pub push_group-none :
    (value byte : ℕ)
    → IsByte byte
    → 0x1_0000_0000_0000_0000 ≤ value * 128 + byte % 128
    → push_group value byte ≡ none
unfolding push_group
push_group-none value byte b h = ground (arith, low_bits byte b)

pub push_group-IsU64 : (value byte v : ℕ) → push_group value byte ≡ some v → IsU64 v
unfolding push_group
push_group-IsU64 value byte v h = ground arith

pub more_bit : (g : ℕ) → g < 128 → (bit_and (g + 128) 0x80 == 0) ≡ false
more_bit g h = ground (arith, top_bit (g + 128))

pub last_bit : (g : ℕ) → g < 128 → (bit_and g 0x80 == 0) ≡ true
last_bit g h = ground (arith, top_bit g)
