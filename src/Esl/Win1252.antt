-- ===== src/Esl/Win1252.antt =====
-- crates/esl-writer/src/win1252.rs: characters as bytes of the code page 1252. A text is the list of
-- its code points.
pub mod CodePage
use Prim.Native.String.{String}
use rust_crates.Prelude.{ℕ, Option, none, some, List, [], ◌∷◌}
use rust_crates.Prelude.{leb, ◌==◌, ◌&&◌, if◌then◌else◌}
use rust_crates.Esl.Error.{Outcome, written, refused, encoding, ◌>>=◌}

-- The arms of the `match` for single characters, in their order.
abbrev pub specials : List (ℕ × ℕ)
specials =
    (0x20ac, 0x80)
    ∷ (0x201a, 0x82)
    ∷ (0x0192, 0x83)
    ∷ (0x201e, 0x84)
    ∷ (0x2026, 0x85)
    ∷ (0x2020, 0x86)
    ∷ (0x2021, 0x87)
    ∷ (0x02c6, 0x88)
    ∷ (0x2030, 0x89)
    ∷ (0x0160, 0x8a)
    ∷ (0x2039, 0x8b)
    ∷ (0x0152, 0x8c)
    ∷ (0x017d, 0x8e)
    ∷ (0x2018, 0x91)
    ∷ (0x2019, 0x92)
    ∷ (0x201c, 0x93)
    ∷ (0x201d, 0x94)
    ∷ (0x2022, 0x95)
    ∷ (0x2013, 0x96)
    ∷ (0x2014, 0x97)
    ∷ (0x02dc, 0x98)
    ∷ (0x2122, 0x99)
    ∷ (0x0161, 0x9a)
    ∷ (0x203a, 0x9b)
    ∷ (0x0153, 0x9c)
    ∷ (0x017e, 0x9e)
    ∷ (0x0178, 0x9f)
    ∷ []

-- The first arm that matches.
unfoldable pub match_special : ℕ → List (ℕ × ℕ) → Option ℕ
match_special ch [] = none
match_special ch ((c, byte) ∷ arms) = if ch == c then some byte else match_special ch arms

unfoldable pub win1252_byte : ℕ → Option ℕ
unfolding match_special
win1252_byte ch =
    if leb ch 0x7f
    then some ch
    else if leb 0xa0 ch && leb ch 0xff
    then some ch
    else match_special ch specials

-- `ok_or(WriteError::Encoding { field, ch })`
unfoldable pub byte_or_refuse : Option ℕ → ℕ → String → Outcome ℕ
byte_or_refuse none ch field = refused (encoding field ch)
byte_or_refuse (some byte) ch field = written byte

unfoldable pub encode_win1252 : List ℕ → String → Outcome (List ℕ)
unfolding win1252_byte byte_or_refuse
encode_win1252 [] field = written []
encode_win1252 (ch ∷ value) field = do
  byte ← byte_or_refuse (win1252_byte ch) ch field
  bytes ← encode_win1252 value field
  written (byte ∷ bytes)
