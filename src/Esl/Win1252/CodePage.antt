-- ===== src/Esl/Win1252/CodePage.antt =====
-- `win1252_byte` and `encode_win1252` against the code page 1252.
use Prim.Native.String.{String}
use rust_crates.Prelude.{
  ℕ, zero, suc, ◌-◌, ◌<◌, ◌≡◌, ◌↔◌, subst, refl, sym, ap, ◌∙◌, Bool, true, false, Option, none,
  some, List, [], ◌∷◌, arith, inl, inr, Bool-cases, Option-cases,
}
use rust_crates.Prelude.{ltb, leb, ◌==◌, ◌&&◌, if◌then◌else◌, get_or, agree_below, agree_below→eq}
use mathlib.Core.Option.{some-injective}
use rust_crates.Esl.Error.{written, written-injective, bind-written}
use rust_crates.Esl.Win1252.{specials, match_special, win1252_byte, byte_or_refuse, encode_win1252}

-- The characters of the bytes 0x80 to 0x9f; 0 where the code page has none.
abbrev high_page : List ℕ
high_page =
    0x20ac ∷ 0 ∷ 0x201a ∷ 0x0192 ∷ 0x201e ∷ 0x2026 ∷ 0x2020 ∷ 0x2021 ∷ 0x02c6 ∷ 0x2030 ∷ 0x0160
    ∷ 0x2039 ∷ 0x0152 ∷ 0 ∷ 0x017d ∷ 0 ∷ 0 ∷ 0x2018 ∷ 0x2019 ∷ 0x201c ∷ 0x201d ∷ 0x2022 ∷ 0x2013
    ∷ 0x2014 ∷ 0x02dc ∷ 0x2122 ∷ 0x0161 ∷ 0x203a ∷ 0x0153 ∷ 0 ∷ 0x017e ∷ 0x0178 ∷ []

defined : ℕ → Option ℕ
defined zero = none
defined (suc c) = some (suc c)

-- The character of a byte.
unfoldable pub code_page : ℕ → Option ℕ
unfolding defined
code_page byte =
    if ltb byte 0x80
    then some byte
    else if ltb byte 0xa0
    then defined (get_or high_page (byte - 0x80) 0)
    else if ltb byte 0x100
    then some byte
    else none

cons_char : Option ℕ → Option (List ℕ) → Option (List ℕ)
cons_char (some ch) (some value) = some (ch ∷ value)
cons_char _ _ = none

-- The text of some bytes.
unfoldable pub decode_win1252 : List ℕ → Option (List ℕ)
unfolding cons_char
decode_win1252 [] = some []
decode_win1252 (byte ∷ bytes) = cons_char (code_page byte) (decode_win1252 bytes)

cons_char-some :
    (o : Option ℕ) (p : Option (List ℕ)) (text : List ℕ)
    → cons_char o p ≡ some text
    → (ch : ℕ) × (value : List ℕ) × (o ≡ some ch) × (p ≡ some value) × (ch ∷ value ≡ text)
unfolding cons_char
cons_char-some none p text h = cc
cons_char-some (some ch) none text h = cc
cons_char-some (some ch) (some value) text h =
    (ch, value, refl, refl, some-injective (ch ∷ value) text h)

-- Each arm of the match gives a byte whose character it matches.
all_arms : List (ℕ × ℕ) → Bool
all_arms [] = true
all_arms ((c, byte) ∷ arms) = elim (code_page byte) [
  | none ↦ false
  | some d ↦ if d == c then all_arms arms else false
]

specials-all_arms : all_arms specials ≡ true
unfolding all_arms code_page
specials-all_arms = refl

match_special-code_page :
    (arms : List (ℕ × ℕ)) (ch byte : ℕ)
    → all_arms arms ≡ true
    → match_special ch arms ≡ some byte
    → code_page byte ≡ some ch
unfolding all_arms match_special
match_special-code_page [] ch byte h m = cc
match_special-code_page ((c, b) ∷ arms) ch byte h m = elim (Bool-cases (ch == c)) [
  | inl hit ↦ elim (Option-cases (code_page b)) [
    | inl undefined ↦ absurd (ground (arith, undefined))
    | inr (d, found) ↦ grind (arith, found, some-injective)
  ]
  | inr miss ↦ elim (Option-cases (code_page b)) [
    | inl undefined ↦ absurd (ground (arith, undefined))
    | inr (d, found) ↦
        match_special-code_page arms ch byte (ground (arith, found)) (ground (arith, miss))
  ]
]

byte-char : (ch byte : ℕ) → win1252_byte ch ≡ some byte → code_page byte ≡ some ch
unfolding win1252_byte
byte-char ch byte h = elim (Bool-cases (leb ch 0x7f)) [
  | inl ascii ↦
      let same : ch ≡ byte = some-injective ch byte (rw ascii at h) in
      unfold code_page in ground (arith, same)
  | inr wide ↦ elim (Bool-cases (leb 0xa0 ch && leb ch 0xff)) [
    | inl latin ↦
        let same : ch ≡ byte = some-injective ch byte (rw (wide, latin) at h) in
        unfold code_page in ground (arith, same)
    | inr special ↦
        match_special-code_page specials ch byte specials-all_arms (rw (wide, special) at h)
  ]
]

-- The byte of the character of a byte, where it has one.
from_byte : Option ℕ → ℕ
from_byte none = 256
from_byte (some byte) = byte

from_char : ℕ → Option ℕ → ℕ
unfolding from_byte win1252_byte
from_char byte none = byte
from_char byte (some ch) = from_byte (win1252_byte ch)

back : ℕ → ℕ
unfolding code_page from_char
back byte = from_char byte (code_page byte)

back-byte : (byte : ℕ) → byte < 256 → back byte ≡ byte
unfolding agree_below back
back-byte = agree_below→eq back (λ byte. byte) 256 refl

code_page-lt : (ch byte : ℕ) → code_page byte ≡ some ch → byte < 256
unfolding code_page
code_page-lt ch byte h = ground (arith, h)

char-byte : (ch byte : ℕ) → code_page byte ≡ some ch → win1252_byte ch ≡ some byte
unfolding from_byte from_char back
char-byte ch byte h =
    let small = code_page-lt ch byte h in
    let same : from_byte (win1252_byte ch) ≡ byte =
      sym (ap (from_char byte) h) ∙ back-byte byte small in
    elim (Option-cases (win1252_byte ch)) [
      | inl missing ↦
          let off : 256 ≡ byte = sym (ap from_byte missing) ∙ same in absurd (omega arith)
      | inr (b, found) ↦ found ∙ ap (λ (k : ℕ). some k) (sym (ap from_byte found) ∙ same)
    ]

-- A character has a byte in Windows-1252 exactly if the code page gives that byte the character.
pub win1252_byte-code_page :
    (ch byte : ℕ) → (win1252_byte ch ≡ some byte) ↔ (code_page byte ≡ some ch)
win1252_byte-code_page ch byte = (byte-char ch byte, char-byte ch byte)

byte_or_refuse-written :
    (o : Option ℕ) (ch byte : ℕ) (field : String)
    → byte_or_refuse o ch field ≡ written byte
    → o ≡ some byte
unfolding byte_or_refuse
byte_or_refuse-written none ch byte field h = cc
byte_or_refuse-written (some b) ch byte field h =
    ap (λ (k : ℕ). some k) (written-injective b byte h)

encode-decode :
    (value bytes : List ℕ) (field : String)
    → encode_win1252 value field ≡ written bytes
    → decode_win1252 bytes ≡ some value
unfolding encode_win1252 decode_win1252 cons_char
encode-decode [] bytes field h =
    subst (λ (b : List ℕ). decode_win1252 b ≡ some []) (written-injective [] bytes h) refl
encode-decode (ch ∷ value) bytes field h =
    let (byte, e1, h1) = bind-written (byte_or_refuse (win1252_byte ch) ch field) _ h in
    let (tail, e2, h2) = bind-written (encode_win1252 value field) _ h1 in
    let char = byte-char ch byte (byte_or_refuse-written (win1252_byte ch) ch byte field e1) in
    let rest = encode-decode value tail field e2 in
    subst (λ (b : List ℕ). decode_win1252 b ≡ some (ch ∷ value))
      (written-injective (byte ∷ tail) bytes h2) (λ j. cons_char (char j) (rest j))

decode-encode :
    (value bytes : List ℕ) (field : String)
    → decode_win1252 bytes ≡ some value
    → encode_win1252 value field ≡ written bytes
unfolding encode_win1252 byte_or_refuse decode_win1252
decode-encode value [] field h =
    subst (λ (v : List ℕ). encode_win1252 v field ≡ written []) (some-injective [] value h) refl
decode-encode value (byte ∷ bytes) field h =
    let (ch, tail, found, decoded, whole) =
      cons_char-some (code_page byte) (decode_win1252 bytes) value h in
    subst (λ (v : List ℕ). encode_win1252 v field ≡ written (byte ∷ bytes)) whole
      (rw (char-byte ch byte found, decode-encode tail bytes field decoded))

-- A text is encoded as some bytes exactly if those bytes read as that text in the code page 1252.
pub encode_win1252-decode_win1252 :
    (value bytes : List ℕ) (field : String)
    → (encode_win1252 value field ≡ written bytes) ↔ (decode_win1252 bytes ≡ some value)
encode_win1252-decode_win1252 value bytes field =
    (encode-decode value bytes field, decode-encode value bytes field)
