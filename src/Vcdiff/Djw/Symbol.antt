-- ===== src/Vcdiff/Djw/Symbol.antt =====
-- crates/vcdiff/src/djw.rs, `PrefixBook::read_symbol`: one symbol from the bits of a section.
use rust_crates.Prelude.{ℕ, zero, suc, ◌+◌, ◌*◌, ◌%◌, Option, none, some}
use rust_crates.Prelude.{leb, ◌==◌, if◌then◌else◌}
use rust_crates.Vcdiff.Error.{Result, ok, err, ◌>>=◌, invalid_code, empty_table}
use rust_crates.Vcdiff.Stream.{Stream}
use rust_crates.Vcdiff.Djw.Fault.{format_error}
use rust_crates.Vcdiff.Djw.Bits
use rust_crates.Vcdiff.Djw.Bits.{BitStream}
use rust_crates.Vcdiff.Djw.Book.{PrefixBook, lookup}

module _ {D : Stream} where
  -- `if let Some(symbol) = …  { return Ok(symbol) }`
  unfoldable pub found_or :
      Option ℕ → BitStream D → Result (ℕ × BitStream D) → Result (ℕ × BitStream D)
  found_or (some symbol) bits rest = ok (symbol, bits)
  found_or none bits rest = rest

  -- `code = (code << 1) | bit`, in `u32`
  unfoldable pub symbol_loop : ℕ → ℕ → ℕ → ℕ → PrefixBook → BitStream D → Result (ℕ × BitStream D)
  unfolding lookup
  symbol_loop zero fuel width code book bits = err (format_error (Bits.context bits) invalid_code)
  symbol_loop (suc widths) fuel width code book bits = do
    (bit, bits') ← Bits.read_bit fuel bits
    let code' : ℕ = code * 2 % 0x1_0000_0000 + bit
    let rest = symbol_loop widths fuel (suc width) code' book bits'
    found_or (if leb book.min_width width then lookup width code' book else none) bits' rest

  unfoldable pub read_symbol : ℕ → PrefixBook → BitStream D → Result (ℕ × BitStream D)
  unfolding symbol_loop
  read_symbol fuel book bits =
      if book.symbol_count == 0
      then err (format_error (Bits.context bits) empty_table)
      else symbol_loop book.max_width fuel 1 0 book bits
