-- ===== src/Esl/Reader/Plugins.antt =====
-- Reading a whole plugin back.
use rust_crates.Prelude.{
  ℕ, ◌<◌, ◌≡◌, refl, sym, ap, ◌∙◌, true, false, Bool, Option, none, some, List, [], ◌∷◌, ◌++◌, map,
  arith, bit_and, bit_or, Bool-cases, inl, inr,
}
use rust_crates.Prelude.{All, ◌==◌, if◌then◌else◌, length, length-append, le_bytes, length-le_bytes}
use rust_crates.Esl.Error.{Signature, written}
use rust_crates.Esl.Game.{Game, skyrim_se, fallout4, starfield}
use rust_crates.Esl.Game
use rust_crates.Esl.Write.{same_sig, cnam, snam, mast, xxxx}
use rust_crates.Esl.Content.{Group, form_version_of}
use rust_crates.Esl.Layout.{group_layout, groups_layout, IsField, IsRecord, IsGroup}
use rust_crates.Esl.Plugin.{Plugin, flags, to_bytes}
use rust_crates.Esl.Plugin.Layout.{
  encoded_text, IsText, IsOptionalText, text_field, optional_field, data_field, master_fields,
  hedr_payload, tes4_record, plugin_layout, IsPlugin,
}
use rust_crates.Esl.Plugin.Total.{to_bytes-IsPlugin_iff}
use rust_crates.Esl.Reader.{read_group, read_groups, read_plugin}
use rust_crates.Esl.Reader.Fields.{read_many_lem}
use rust_crates.Esl.Reader.RoundTrip.{
  IsSized, record_view, group_view, read_record_lem, IsSizedGroup, read_group_lem,
}

All-append-fields :
    (xs ys : List (Signature × List ℕ)) → All IsField xs → All IsField ys → All IsField (xs ++ ys)
All-append-fields [] ys h k = k
All-append-fields (x ∷ xs) ys (p, ps) k = (p, All-append-fields xs ys ps k)

text_field-IsField :
    (sig : Signature) (value : List ℕ)
    → same_sig sig xxxx ≡ false
    → IsText value
    → IsField (text_field sig value)
unfolding text_field
text_field-IsField sig value plain h = record {
  unreserved = plain;
  sized = omega (arith, length-append (encoded_text value) (0 ∷ []), h.sized);
}

optional_field-IsField :
    (sig : Signature) (value : Option (List ℕ))
    → same_sig sig xxxx ≡ false
    → IsOptionalText value
    → All IsField (optional_field sig value)
unfolding optional_field IsOptionalText
optional_field-IsField sig none plain h = tt
optional_field-IsField sig (some value) plain h = (text_field-IsField sig value plain h, tt)

data_field-IsField : (game : Game) → All IsField (data_field game)
unfolding data_field same_sig
data_field-IsField game = elim (Bool-cases (Game.masters_have_data game)) [
  | inl paired ↦
      rw paired ((record { unreserved = refl; sized = omega (arith, length-le_bytes 8 0) }, tt))
  | inr alone ↦ rw alone tt
]

master_fields-IsField :
    (masters : List (List ℕ)) (game : Game)
    → All IsText masters
    → All IsField (master_fields masters game)
unfolding master_fields same_sig
master_fields-IsField [] game h = tt
master_fields-IsField (master ∷ masters) game (t, ts) = (
  text_field-IsField mast master refl t,
  All-append-fields (data_field game) (master_fields masters game) (data_field-IsField game)
      (master_fields-IsField masters game ts),
)

flags-small :
    (game : Game) (master light : Bool)
    → (let with_master = if master then bit_or 0 1 else 0 in
        let all = if light then bit_or with_master (Game.light_flag game) else with_master in
        (all < 0x1_0000_0000) × ((bit_and all 0x4_0000 == 0) ≡ true))
unfolding Game.light_flag
flags-small skyrim_se true true = (omega arith, refl)
flags-small skyrim_se true false = (omega arith, refl)
flags-small skyrim_se false true = (omega arith, refl)
flags-small skyrim_se false false = (omega arith, refl)
flags-small fallout4 true true = (omega arith, refl)
flags-small fallout4 true false = (omega arith, refl)
flags-small fallout4 false true = (omega arith, refl)
flags-small fallout4 false false = (omega arith, refl)
flags-small starfield true true = (omega arith, refl)
flags-small starfield true false = (omega arith, refl)
flags-small starfield false true = (omega arith, refl)
flags-small starfield false false = (omega arith, refl)

pub form_version-small : (game : Game) → Game.form_version game < 0x1_0000
unfolding Game.form_version
form_version-small skyrim_se = omega arith
form_version-small fallout4 = omega arith
form_version-small starfield = omega arith

tes4_record-IsRecord :
    (p : Plugin) → IsPlugin p → IsRecord (tes4_record p) × IsSized (tes4_record p)
unfolding tes4_record flags form_version_of same_sig
tes4_record-IsRecord p h =
    let (small, plain) = flags-small p.game p.is_master p.is_light in
    (
      record {
        uncompressed = plain;
        all_fields = (
          record { unreserved = refl; sized = unfold hedr_payload le_bytes in omega arith },
          All-append-fields _ _ (optional_field-IsField cnam p.author refl h.header.author_text) (
              All-append-fields _ _
                (optional_field-IsField snam p.description refl h.header.description_text)
                (master_fields-IsField p.masters p.game h.header.master_texts)),
        );
        sized = h.sized;
      },
      record {
        flags_word = small;
        id_word = omega arith;
        version_word = λ game. form_version-small p.game;
      },
    )

group_layout-size : (game : Game) (g : Group) → 0 < length (group_layout g game)
unfolding group_layout
group_layout-size game g = omega arith

both :
    (game : Game) (groups : List Group)
    → All (IsGroup game) groups
    → All IsSizedGroup groups
    → All (λ g. IsGroup game g × IsSizedGroup g) groups
both game [] h s = tt
both game (g ∷ groups) (v, vs) (s, ss) = ((v, s), both game groups vs ss)

read_plugin_lem :
    (p : Plugin)
    → IsPlugin p
    → All IsSizedGroup p.groups
    → read_plugin (plugin_layout p) ≡ some (tes4_record p, map (group_view p.game) p.groups)
unfolding read_plugin read_groups plugin_layout groups_layout
read_plugin_lem p h s =
    let rest : List ℕ = groups_layout p.groups p.game in
    let groups : read_groups rest ≡ some (map (group_view p.game) p.groups) =
      read_many_lem (λ g. IsGroup p.game g × IsSizedGroup g) read_group (λ g. group_layout g p.game)
        (group_view p.game) (λ l. groups_layout l p.game) refl (λ g l. refl) (read_group_lem p.game)
        (group_layout-size p.game) p.groups (length rest) (both p.game p.groups h.all_groups s)
        (omega arith) in
    rw (read_record_lem p.game (tes4_record p) rest (tes4_record-IsRecord p h), groups)
      (unfold record_view form_version_of tes4_record in refl)

-- What `to_bytes` writes is read back, where the numbers of the records have the widths of their types:
-- the `TES4` record with the flags, the counts and the texts of the plugin, and then each group with its
-- records and their fields, in their order. Records without a form version have the game's.
pub to_bytes-read_plugin :
    (p : Plugin) (bytes : List ℕ)
    → to_bytes p ≡ written bytes
    → All IsSizedGroup p.groups
    → read_plugin bytes ≡ some (tes4_record p, map (group_view p.game) p.groups)
to_bytes-read_plugin p bytes h s =
    let (valid, same) = (to_bytes-IsPlugin_iff p bytes).0 h in
    ap read_plugin (sym same) ∙ read_plugin_lem p valid s
