-- ===== src/Esl/Layout.antt =====
-- The bytes of fields, records and groups in a plugin file, and which of them the format can hold.
pub mod Written
pub mod Groups
use rust_crates.Prelude.{ℕ, ◌+◌, ◌≤◌, ◌<◌, ◌≡◌, true, false, List, [], ◌∷◌, ◌++◌, bit_and}
use rust_crates.Prelude.{All, ltb, ◌==◌, if◌then◌else◌, length, le_bytes}
use rust_crates.Esl.Error.{Signature}
use rust_crates.Esl.Game.{Game}
use rust_crates.Esl.Write.{sig_bytes, same_sig, xxxx, grup, flag_compressed}
use rust_crates.Esl.Content.{Record, Group, form_version_of, is_nesting_required}

-- A signature, a length of two bytes, and the payload.
unfoldable pub short_field : Signature → List ℕ → List ℕ
short_field sig payload = sig_bytes sig ++ (le_bytes 2 (length payload) ++ payload)

-- A longer payload has the length 0, and an `XXXX` field with its length of four bytes before it.
unfoldable pub field_layout : Signature → List ℕ → List ℕ
unfolding short_field
field_layout sig payload =
    if ltb 0xffff (length payload)
    then short_field xxxx (le_bytes 4 (length payload))
      ++ (sig_bytes sig ++ (le_bytes 2 0 ++ payload))
    else short_field sig payload

unfoldable pub fields_layout : List (Signature × List ℕ) → List ℕ
fields_layout [] = []
fields_layout ((sig, payload) ∷ fields) = field_layout sig payload ++ fields_layout fields

unfoldable pub header_layout : Signature → ℕ → ℕ → ℕ → ℕ → List ℕ
header_layout sig size flags form_id form_version =
    sig_bytes sig
    ++ (le_bytes 4 size
        ++ (le_bytes 4 flags
            ++ (le_bytes 4 form_id
                ++ (le_bytes 2 0 ++ (le_bytes 2 0 ++ (le_bytes 2 form_version ++ le_bytes 2 0))))))

unfoldable pub record_layout : Record → Game → List ℕ
record_layout r game =
    header_layout r.sig (length (fields_layout r.fields)) r.flags r.form_id
      (form_version_of r.form_version game)
    ++ fields_layout r.fields

unfoldable pub records_layout : List Record → Game → List ℕ
records_layout [] game = []
records_layout (r ∷ records) game = record_layout r game ++ records_layout records game

-- The size of a group counts its header of 24 bytes.
unfoldable pub group_layout : Group → Game → List ℕ
group_layout g game =
    sig_bytes grup
    ++ (le_bytes 4 (24 + length (records_layout g.records game))
        ++ (sig_bytes g.label
            ++ (le_bytes 4 0
                ++ (le_bytes 2 0
                    ++ (le_bytes 2 0 ++ (le_bytes 4 0 ++ records_layout g.records game))))))

unfoldable pub groups_layout : List Group → Game → List ℕ
groups_layout [] game = []
groups_layout (g ∷ groups) game = group_layout g game ++ groups_layout groups game

-- No caller's field has the signature `XXXX`, and lengths have 32 bits.
pub record IsField (f : Signature × List ℕ) : Type 0 where
  pub unreserved : same_sig (f.0) xxxx ≡ false
  pub sized : length (f.1) < 0x1_0000_0000

pub record IsRecord (r : Record) : Type 0 where
  pub uncompressed : (bit_and r.flags flag_compressed == 0) ≡ true
  pub all_fields : All IsField r.fields
  pub sized : length (fields_layout r.fields) < 0x1_0000_0000

pub record IsMember (label : Signature) (r : Record) : Type 0 where
  pub of_label : same_sig r.sig label ≡ true
  pub is_record : IsRecord r

-- A group of records of its label that needs no nested groups.
pub record IsGroup (game : Game) (g : Group) : Type 0 where
  pub flat : is_nesting_required g.label ≡ false
  pub members : All (IsMember g.label) g.records
  pub sized : 24 + length (records_layout g.records game) < 0x1_0000_0000
