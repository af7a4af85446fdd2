-- ===== src/Prelude/Bytes.antt =====
-- Numbers as little-endian bytes, and reading them off the front of a byte string.
use Prim.Native.Nat.{ℕ, zero, suc, ◌+◌, ◌*◌, ◌/◌, ◌%◌, ◌^◌, ◌<◌}
use mathlib.Core.Path.{◌≡◌, refl, ap}
use mathlib.Core.Bool.{true}
use mathlib.Core.List.{List, [], ◌∷◌, ◌++◌}
use mathlib.Core.Option.{Option, none, some}
use native.Mathlib.Nat.{pow-suc}
use native.Mathlib.Omega.{arith}
use rust_crates.Prelude.Tests.{leb, if◌then◌else◌}
use rust_crates.Prelude.Lists.{length, length-append, take, drop, take-append, drop-append}

-- `to_le_bytes` of a number of so many bytes
unfoldable pub le_bytes : ℕ → ℕ → List ℕ
le_bytes zero v = []
le_bytes (suc n) v = v % 256 ∷ le_bytes n (v / 256)

pub length-le_bytes : (n v : ℕ) → length (le_bytes n v) ≡ n
unfolding le_bytes
length-le_bytes zero v = refl
length-le_bytes (suc n) v = ap suc (length-le_bytes n (v / 256))

-- The number of so many little-endian bytes, and what follows them.
unfoldable pub read_le : ℕ → List ℕ → Option (ℕ × List ℕ)
read_le zero bytes = some (0, bytes)
read_le (suc n) [] = none
read_le (suc n) (b ∷ bytes) = elim (read_le n bytes) [
  | none ↦ none
  | some p ↦ some (b + p.0 * 256, p.1)
]

pub read_le-le_bytes :
    (n v : ℕ) (rest : List ℕ) → v < 256 ^ n → read_le n (le_bytes n v ++ rest) ≡ some (v, rest)
unfolding read_le le_bytes
read_le-le_bytes zero v rest h = (λ j. some ((let e : 0 ≡ v = omega arith in e) j, rest))
read_le-le_bytes (suc n) v rest h =
    let small : v / 256 < 256 ^ n = omega (arith, pow-suc 256 n) in
    let whole : v % 256 + v / 256 * 256 ≡ v = omega arith in
    rw (read_le-le_bytes n (v / 256) rest small) (λ j. some (whole j, rest))

-- The next `n` bytes, and what follows them.
unfoldable pub read_bytes : ℕ → List ℕ → Option (List ℕ × List ℕ)
read_bytes n bytes = if leb n (length bytes) then some (take n bytes, drop n bytes) else none

pub read_bytes-append : (xs rest : List ℕ) → read_bytes (length xs) (xs ++ rest) ≡ some (xs, rest)
unfolding read_bytes
read_bytes-append xs rest =
    let fits : leb (length xs) (length (xs ++ rest)) ≡ true =
      ground (arith, length-append xs rest) in
    rw (fits, take-append xs rest, drop-append xs rest)
