-- ===== src/Tests/Decoding.antt =====
-- The decoder on small deltas.
use rust_crates.Prelude.{ℕ, List, [], ◌∷◌}
use rust_crates.Vcdiff.Error.{stuck}
use rust_crates.Vcdiff.MemoryTarget.{FallibleMemoryTarget, memory_stream}
use rust_crates.Vcdiff.Secondary.{Codecs}

-- An LZMA decompressor for deltas without such sections.
abbrev no_codecs : Codecs memory_stream
no_codecs = record {
  LzmaStates = Unit {0};
  lzma_new = λ _. tt;
  lzma_decode = λ _ _ _ _ _ _ _. stuck;
}

abbrev over : List ℕ → FallibleMemoryTarget
over bytes = record { bytes = bytes; at = 0 }

abbrev abc_delta : List ℕ
abc_delta =
    0xd6 ∷ 0xc3 ∷ 0xc4 ∷ 0x00 ∷ 0x00 ∷ 0x00 ∷ 0x09 ∷ 0x03 ∷ 0x00 ∷ 0x03 ∷ 0x01 ∷ 0x00 ∷ 0x61 ∷ 0x62
    ∷ 0x63 ∷ 0x04 ∷ []
