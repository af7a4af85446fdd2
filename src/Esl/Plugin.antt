-- ===== src/Esl/Plugin.antt =====
-- crates/esl-writer/src/plugin.rs: the plugin builder and the carrier plugin.
pub mod Layout
pub mod Written
pub mod Total
pub mod Carrier
use rust_crates.Prelude.{
  ℕ, ◌+◌, ◌%◌, Bool, true, false, Option, none, some, List, [], ◌∷◌, ◌++◌, bit_or, min,
}
use rust_crates.Prelude.{leb, if◌then◌else◌, length, le_bytes}
use rust_crates.Esl.Error.{
  Signature, Outcome, written, ◌>>=◌, ◌>>◌, refuse, record_too_long, too_many_records,
}
use Prim.Native.String.{String}
use rust_crates.Esl.Game.{Game}
use rust_crates.Esl.Game
use rust_crates.Esl.Write.{
  tes4, cnam, snam, mast, data_sig, flag_master, write_field, write_hedr, write_record_header,
  write_string_field,
}
use rust_crates.Esl.Content.{Group, record_count, write_group}

pub record Plugin : Type 0 where
  pub game : Game
  pub is_master : Bool
  pub is_light : Bool
  pub author : Option (List ℕ)
  pub description : Option (List ℕ)
  pub masters : List (List ℕ)
  pub next_object_id : ℕ
  pub groups : List Group

unfoldable pub new : Game → Plugin
new game = record {
  game = game;
  is_master = true;
  is_light = true;
  author = none;
  description = none;
  masters = [];
  next_object_id = 1;
  groups = [];
}

unfoldable pub with_author : List ℕ → Plugin → Plugin
with_author author p = record p { author = some author }

unfoldable pub with_description : List ℕ → Plugin → Plugin
with_description description p = record p { description = some description }

unfoldable pub add_master : List ℕ → Plugin → Plugin
add_master name p = record p { masters = p.masters ++ (name ∷ []) }

unfoldable pub light : Bool → Plugin → Plugin
light on p = record p { is_light = on }

unfoldable pub master_flag : Bool → Plugin → Plugin
master_flag on p = record p { is_master = on }

unfoldable pub with_next_object_id : ℕ → Plugin → Plugin
with_next_object_id id p = record p { next_object_id = id }

unfoldable pub add_group : Group → Plugin → Plugin
add_group g p = record p { groups = p.groups ++ (g ∷ []) }

unfoldable pub flags : Plugin → ℕ
flags p =
    let with_master = if p.is_master then bit_or 0 flag_master else 0 in
    if p.is_light then bit_or with_master (Game.light_flag p.game) else with_master

-- The loop of `num_records`; `saturating_add` stops at the largest `usize`.
unfoldable pub add_counts : ℕ → List Group → ℕ
add_counts count [] = count
add_counts count (g ∷ groups) =
    add_counts (min (count + record_count g) 0xffff_ffff_ffff_ffff) groups

unfoldable pub num_records : Plugin → Outcome ℕ
unfolding add_counts
num_records p = do
  let count = add_counts (length p.groups) p.groups
  refuse (leb 0x1_0000_0000 count) (too_many_records count)
  written count

-- `if let Some(value) = …`
unfoldable pub write_optional : List ℕ → Signature → String → Option (List ℕ) → Outcome (List ℕ)
write_optional fields sig field none = written fields
write_optional fields sig field (some value) = write_string_field fields sig field value

-- `for master in &self.masters`
unfoldable pub write_masters : List ℕ → List (List ℕ) → Game → Outcome (List ℕ)
write_masters fields [] game = written fields
write_masters fields (master ∷ masters) game = do
  fields' ← write_string_field fields mast "master" master
  write_masters
      (if Game.masters_have_data game then write_field fields' data_sig (le_bytes 8 0) else fields')
      masters game

-- `for group in &self.groups`
unfoldable pub write_groups : List ℕ → List Group → Game → Outcome (List ℕ)
write_groups out [] game = written out
write_groups out (g ∷ groups) game = do out' ← write_group out g game; write_groups out' groups game

-- The fields of the `TES4` record.
unfoldable pub header_fields : Plugin → Outcome (List ℕ)
header_fields p = do
  count ← num_records p
  let fields = write_hedr [] (Game.hedr_version p.game) count p.next_object_id
  with_cnam ← write_optional fields cnam "author" p.author
  with_snam ← write_optional with_cnam snam "description" p.description
  write_masters with_snam p.masters p.game

unfoldable pub to_bytes : Plugin → Outcome (List ℕ)
unfolding header_fields
to_bytes p = do
  fields ← header_fields p
  refuse (leb 0x1_0000_0000 (length fields)) (record_too_long (length fields))
  let out = write_record_header [] tes4 (length fields) (flags p) 0 (Game.form_version p.game)
  write_groups (out ++ fields) p.groups p.game

unfoldable pub carrier_plugin : Game → List ℕ
carrier_plugin game =
    let fields = write_hedr [] (Game.hedr_version game) 0 1 in
    write_record_header [] tes4 (length fields % 0x1_0000_0000)
      (bit_or flag_master (Game.light_flag game)) 0 (Game.form_version game)
    ++ fields
