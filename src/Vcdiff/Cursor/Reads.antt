-- ===== src/Vcdiff/Cursor/Reads.antt =====
-- The operations of `SliceCursor` on a cursor that stands inside its section.
use rust_crates.Prelude.{ℕ, ◌+◌, ◌-◌, ◌≤◌, ◌<◌, ◌≡◌, sym, ap, List, ◌∷◌, arith}
use rust_crates.Prelude.{IsU64, length, take, drop, length-drop, drop-drop}
use rust_crates.Vcdiff.Error.{ok, err, section_out_of_bounds}
use rust_crates.Vcdiff.Cursor.{SliceCursor, remaining, context, read_slice, read_u8}

-- A section is a slice in memory, so its length is a `usize`.
pub record IsInside (c : SliceCursor) : Type 0 where
  pub within : c.pos ≤ length c.bytes
  pub sized : IsU64 (length c.bytes)

-- The cursor `n` bytes further on.
abbrev pub advance : ℕ → SliceCursor → SliceCursor
advance n c = record c { pos = c.pos + n }

-- Inside its section, a read of no more bytes than remain gives exactly the next bytes and moves
-- behind them.
pub read_slice-ok :
    (len : ℕ) (c : SliceCursor)
    → IsInside c
    → c.pos + len ≤ length c.bytes
    → read_slice len c ≡ ok (take len (drop c.pos c.bytes), advance len c)
unfolding read_slice remaining
read_slice-ok len c i h =
    let e : c.pos + len - c.pos ≡ len = omega arith in
    ground (arith, ap (λ (n : ℕ). take n (drop c.pos c.bytes)) e)

-- The branch of `read_slice` that refuses.
pub read_slice-err :
    (len : ℕ) (c : SliceCursor)
    → IsInside c
    → length c.bytes < c.pos + len
    → read_slice len c ≡ err (section_out_of_bounds c.section len (remaining c) (context c))
unfolding read_slice remaining
read_slice-err len c i h = ground arith

-- What is left behind the position.
unfoldable pub unread : SliceCursor → List ℕ
unread c = drop c.pos c.bytes

pub unread-advance : (n : ℕ) (c : SliceCursor) → unread (advance n c) ≡ drop n (unread c)
unfolding unread
unread-advance n c = sym (drop-drop c.pos n c.bytes)

pub length-unread : (c : SliceCursor) → length (unread c) ≡ length c.bytes - c.pos
unfolding unread
length-unread c = length-drop c.pos c.bytes

pub IsInside-advance :
    (n : ℕ) (c : SliceCursor) → IsInside c → n ≤ length (unread c) → IsInside (advance n c)
IsInside-advance n c i h = record {
  within = omega (arith, length-unread c, i.within);
  sized = i.sized;
}

pub read_u8-ok :
    (c : SliceCursor) (b : ℕ) (rest : List ℕ)
    → IsInside c
    → unread c ≡ b ∷ rest
    → read_u8 c ≡ ok (b, advance 1 c)
unfolding read_u8 unread
read_u8-ok c b rest i h =
    let room : c.pos + 1 ≤ length c.bytes =
      omega (arith, ap (λ (l : List ℕ). length l) h, length-drop c.pos c.bytes) in
    rw (read_slice-ok 1 c i room, h)
