-- ===== src/Vcdiff/Varint.antt =====
-- The base-128 integers of RFC 3284, section 2: the arithmetic of one byte, which the three readers
-- of crates/vcdiff/src (input.rs twice, secondary.rs once) share.
pub mod Encoding
use rust_crates.Prelude.{ℕ, Option, none, some, bit_and, checked_add, checked_mul}

-- `value.checked_mul(128).and_then(|value| value.checked_add(u64::from(byte & 0x7f)))`
unfoldable pub push_group : ℕ → ℕ → Option ℕ
push_group value byte = elim (checked_mul value 128) [
  | none ↦ none
  | some shifted ↦ checked_add shifted (bit_and byte 0x7f)
]
