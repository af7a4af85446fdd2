-- ===== src/Esl/Plugin/Layout.antt =====
-- The bytes of a plugin file, and which plugins the format can hold.
use rust_crates.Prelude.{ℕ, ◌+◌, ◌<◌, ◌≡◌, false, Option, none, some, List, [], ◌∷◌, ◌++◌}
use rust_crates.Prelude.{All, if◌then◌else◌, length, le_bytes}
use rust_crates.Esl.Error.{Signature, Outcome, written, refused}
use rust_crates.Esl.Game.{Game}
use rust_crates.Esl.Game
use rust_crates.Esl.Win1252.{encode_win1252}
use rust_crates.Esl.Win1252.CodePage.{decode_win1252}
use rust_crates.Esl.Write.{tes4, hedr, cnam, snam, mast, data_sig, contains_nul}
use rust_crates.Esl.Content.{Record, Group, record_count}
use rust_crates.Esl.Layout.{fields_layout, record_layout, groups_layout, IsGroup}
use rust_crates.Esl.Plugin.{Plugin, flags}

unfoldable pub bytes_of : Outcome (List ℕ) → List ℕ
bytes_of (written bytes) = bytes
bytes_of (refused fault) = []

-- The bytes of a text in Windows-1252, without the final NUL.
unfoldable pub encoded_text : List ℕ → List ℕ
unfolding bytes_of
encoded_text value = bytes_of (encode_win1252 value "")

-- A text without NUL, in the code page, that fits a field together with its final NUL.
pub record IsText (value : List ℕ) : Type 0 where
  pub no_nul : contains_nul value ≡ false
  pub encodes : decode_win1252 (encoded_text value) ≡ some value
  pub sized : length (encoded_text value) < 0xffff

unfoldable pub IsOptionalText : Option (List ℕ) → Type 0
IsOptionalText none = Unit {0}
IsOptionalText (some value) = IsText value

unfoldable pub text_field : Signature → List ℕ → Signature × List ℕ
text_field sig value = (sig, encoded_text value ++ (0 ∷ []))

unfoldable pub optional_field : Signature → Option (List ℕ) → List (Signature × List ℕ)
unfolding text_field
optional_field sig none = []
optional_field sig (some value) = text_field sig value ∷ []

-- A master is followed by a `DATA` field of eight zero bytes in the games that pair them.
unfoldable pub data_field : Game → List (Signature × List ℕ)
data_field game = if Game.masters_have_data game then (data_sig, le_bytes 8 0) ∷ [] else []

unfoldable pub master_fields : List (List ℕ) → Game → List (Signature × List ℕ)
unfolding text_field
master_fields [] game = []
master_fields (master ∷ masters) game =
    text_field mast master ∷ (data_field game ++ master_fields masters game)

unfoldable pub total_records : List Group → ℕ
total_records [] = 0
total_records (g ∷ groups) = record_count g + total_records groups

unfoldable pub hedr_payload : Plugin → List ℕ
hedr_payload p =
    le_bytes 4 (Game.hedr_version p.game)
    ++ (le_bytes 4 (length p.groups + total_records p.groups) ++ le_bytes 4 p.next_object_id)

-- The record that heads the file.
unfoldable pub tes4_record : Plugin → Record
tes4_record p = record {
  sig = tes4;
  form_id = 0;
  flags = flags p;
  form_version = some (Game.form_version p.game);
  fields =
      (hedr, hedr_payload p)
      ∷ (optional_field cnam p.author
          ++ (optional_field snam p.description ++ master_fields p.masters p.game));
}

unfoldable pub plugin_layout : Plugin → List ℕ
plugin_layout p = record_layout (tes4_record p) p.game ++ groups_layout p.groups p.game

pub record IsHeader (p : Plugin) : Type 0 where
  pub counted : length p.groups + total_records p.groups < 0x1_0000_0000
  pub author_text : IsOptionalText p.author
  pub description_text : IsOptionalText p.description
  pub master_texts : All IsText p.masters

pub record IsPlugin (p : Plugin) : Type 0 where
  pub header : IsHeader p
  pub sized : length (fields_layout ((tes4_record p).fields)) < 0x1_0000_0000
  pub all_groups : All (IsGroup p.game) p.groups
