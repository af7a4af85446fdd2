-- ===== src/Esl/Content.antt =====
-- crates/esl-writer/src/record.rs: content records and top-level groups.
use rust_crates.Prelude.{ℕ, ◌+◌, ◌-◌, Bool, Option, none, some, List, [], ◌∷◌, ◌++◌, bit_and, not}
use rust_crates.Prelude.{ltb, leb, ◌==◌, ◌||◌, if◌then◌else◌, length, take, drop, le_bytes}
use rust_crates.Esl.Error.{
  Signature, Outcome, written, ◌>>=◌, ◌>>◌, refuse, record_too_long, record_type_mismatch,
  reserved_field_signature, compressed_record_unsupported, nested_group_required, group_too_long,
}
use rust_crates.Esl.Game.{Game}
use rust_crates.Esl.Game
use rust_crates.Esl.Write.{
  signature, grup, xxxx, flag_compressed, sig_bytes, same_sig, write_field, write_record_header,
}

pub record Record : Type 0 where
  pub sig : Signature
  pub form_id : ℕ
  pub flags : ℕ
  pub form_version : Option ℕ
  pub fields : List (Signature × List ℕ)

unfoldable pub new_record : Signature → ℕ → Record
new_record sig form_id = record {
  sig = sig;
  form_id = form_id;
  flags = 0;
  form_version = none;
  fields = [];
}

unfoldable pub with_flags : ℕ → Record → Record
with_flags flags r = record r { flags = flags }

unfoldable pub with_form_version : ℕ → Record → Record
with_form_version version r = record r { form_version = some version }

unfoldable pub field : Signature → List ℕ → Record → Record
field sig bytes r = record r { fields = r.fields ++ ((sig, bytes) ∷ []) }

pub record Group : Type 0 where
  pub label : Signature
  pub records : List Record

unfoldable pub top : Signature → Group
top record_type = record { label = record_type; records = [] }

unfoldable pub add_record : Record → Group → Group
add_record r g = record g { records = g.records ++ (r ∷ []) }

unfoldable pub record_count : Group → ℕ
record_count g = length g.records

unfoldable pub is_nesting_required : Signature → Bool
is_nesting_required label =
    same_sig label (signature b'C' b'E' b'L' b'L')
    || (same_sig label (signature b'W' b'R' b'L' b'D')
        || same_sig label (signature b'D' b'I' b'A' b'L'))

unfoldable pub write_record_field : List ℕ → Signature → List ℕ → Outcome (List ℕ)
write_record_field out sig bytes =
    if ltb 0xffff (length bytes)
    then (do
      refuse (leb 0x1_0000_0000 (length bytes)) (record_too_long (length bytes))
      let prefixed = write_field out xxxx (le_bytes 4 (length bytes))
      written (((prefixed ++ sig_bytes sig) ++ le_bytes 2 0) ++ bytes))
    else written (write_field out sig bytes)

-- `for (sig, data) in &record.fields`
unfoldable pub write_fields : List ℕ → List (Signature × List ℕ) → Outcome (List ℕ)
unfolding write_record_field
write_fields body [] = written body
write_fields body ((sig, bytes) ∷ fields) = do
  refuse (same_sig sig xxxx) reserved_field_signature
  body' ← write_record_field body sig bytes
  write_fields body' fields

-- `record.form_version.unwrap_or_else(|| game.form_version())`
unfoldable pub form_version_of : Option ℕ → Game → ℕ
form_version_of none game = Game.form_version game
form_version_of (some version) game = version

unfoldable pub write_record : List ℕ → Record → Game → Outcome (List ℕ)
write_record out r game = do
  refuse (not (bit_and r.flags flag_compressed == 0)) (compressed_record_unsupported r.sig)
  body ← write_fields [] r.fields
  refuse (leb 0x1_0000_0000 (length body)) (record_too_long (length body))
  written (
      write_record_header out r.sig (length body) r.flags r.form_id
        (form_version_of r.form_version game)
      ++ body)

-- `for record in &group.records`
unfoldable pub write_records : List ℕ → Signature → List Record → Game → Outcome (List ℕ)
write_records out label [] game = written out
write_records out label (r ∷ records) game = do
  refuse (not (same_sig r.sig label)) (record_type_mismatch label r.sig)
  out' ← write_record out r game
  write_records out' label records game

-- `out[at..at + 4].copy_from_slice(&bytes)`
abbrev pub patch : List ℕ → ℕ → List ℕ → List ℕ
patch out at bytes = take at out ++ (bytes ++ drop (at + 4) out)

-- The header of a group, with 0 for its size.
unfoldable pub group_header : List ℕ → Signature → List ℕ
group_header out label =
    ((((((out ++ sig_bytes grup) ++ le_bytes 4 0) ++ sig_bytes label) ++ le_bytes 4 0)
        ++ le_bytes 2 0)
      ++ le_bytes 2 0)
    ++ le_bytes 4 0

unfoldable pub write_group : List ℕ → Group → Game → Outcome (List ℕ)
write_group out g game = do
  refuse (is_nesting_required g.label) (nested_group_required g.label)
  let start = length out
  let size_pos = start + 4
  out' ← write_records (group_header out g.label) g.label g.records game
  let group_size = length out' - start
  refuse (leb 0x1_0000_0000 group_size) (group_too_long group_size)
  written (patch out' size_pos (le_bytes 4 group_size))
