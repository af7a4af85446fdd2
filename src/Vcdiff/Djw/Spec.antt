-- ===== src/Vcdiff/Djw/Spec.antt =====
-- The canonical Huffman code of the widths of the symbols: RFC 1951, section 3.2.2.
use rust_crates.Prelude.{ℕ, zero, suc, ◌+◌, ◌*◌, List, [], ◌∷◌}
use rust_crates.Prelude.{◌==◌, if◌then◌else◌, take}

-- How many symbols of a list have a width.
unfoldable pub occurrences : ℕ → List ℕ → ℕ
occurrences width [] = 0
occurrences width (w ∷ lengths) = (if w == width then 1 else 0) + occurrences width lengths

-- How many codes have a width; a symbol of width 0 has no code.
unfoldable pub codes_of : ℕ → List ℕ → ℕ
codes_of zero lengths = 0
codes_of (suc width) lengths = occurrences (suc width) lengths

-- The codes of a width follow those of the width before, one bit longer, as in RFC 1951, section 3.2.2.
unfoldable pub code_start : List ℕ → ℕ → ℕ
unfolding codes_of
code_start lengths zero = 0
code_start lengths (suc width) = (code_start lengths width + codes_of width lengths) * 2

-- Symbols of one width have consecutive codes.
unfoldable pub canonical_code : List ℕ → ℕ → ℕ → ℕ
canonical_code lengths symbol width =
    code_start lengths width + occurrences width (take symbol lengths)
