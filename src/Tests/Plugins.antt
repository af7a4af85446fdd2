-- ===== src/Tests/Plugins.antt =====
-- Plugins with a text, a master and a group of one record.
use rust_crates.Prelude.{ℕ, ◌≡◌, ◌↔◌, refl, none, some, true, List, [], ◌∷◌, ◌++◌, map, arith}
use rust_crates.Prelude.{le_bytes}
use rust_crates.Esl.Error.{Signature, written}
use rust_crates.Esl.Game.{Game, fallout4}
use rust_crates.Esl.Game
use rust_crates.Esl.Win1252.{encode_win1252}
use rust_crates.Esl.Win1252.CodePage.{decode_win1252, encode_win1252-decode_win1252}
use rust_crates.Esl.Write.{
  signature, same_sig, contains_nul, write_field, write_hedr, write_string_field,
  write_record_header,
}
use rust_crates.Esl.Content.{
  Record, Group, record_count, form_version_of, is_nesting_required, group_header, write_fields,
  write_record, write_records, write_group,
}
use rust_crates.Esl.Layout.{IsGroup, group_layout}
use rust_crates.Esl.Layout.Groups.{write_group-IsGroup_iff}
use rust_crates.Esl.Plugin.{
  Plugin, new, flags, add_counts, num_records, write_optional, write_masters, write_groups,
  to_bytes, carrier_plugin,
}
use rust_crates.Esl.Plugin.Layout.{IsPlugin, tes4_record, plugin_layout}
use rust_crates.Esl.Plugin.Total.{to_bytes-IsPlugin_iff}
use rust_crates.Esl.Plugin.Carrier.{to_bytes-new}
use rust_crates.Esl.Reader.{read_plugin}
use rust_crates.Esl.Reader.RoundTrip.{IsSized, IsSizedGroup, group_view}
use rust_crates.Esl.Reader.Plugins.{form_version-small, to_bytes-read_plugin}

abbrev kywd : Signature
kywd = signature b'K' b'Y' b'W' b'D'

abbrev edid : Signature
edid = signature b'E' b'D' b'I' b'D'

abbrev keyword : Record
keyword = record {
  sig = kywd;
  form_id = 5;
  flags = 0;
  form_version = none;
  fields = (edid, b'h' ∷ b'i' ∷ 0 ∷ []) ∷ [];
}

abbrev keywords : Group
keywords = record { label = kywd; records = keyword ∷ [] }

-- By the author `A€`, with the master `M`.
abbrev sample : Plugin
sample = record {
  game = fallout4;
  is_master = true;
  is_light = true;
  author = some (b'A' ∷ 0x20ac ∷ []);
  description = none;
  masters = (b'M' ∷ []) ∷ [];
  next_object_id = 0x800;
  groups = keywords ∷ [];
}

abbrev sample_bytes : List ℕ
sample_bytes =
    84 ∷ 69 ∷ 83 ∷ 52 ∷ 49 ∷ 0 ∷ 0 ∷ 0 ∷ 1 ∷ 2 ∷ 0 ∷ 0 ∷ 0 ∷ 0 ∷ 0 ∷ 0 ∷ 0 ∷ 0 ∷ 0 ∷ 0 ∷ 131 ∷ 0 ∷ 0
    ∷ 0 ∷ 72 ∷ 69 ∷ 68 ∷ 82 ∷ 12 ∷ 0 ∷ 0 ∷ 0 ∷ 128 ∷ 63 ∷ 2 ∷ 0 ∷ 0 ∷ 0 ∷ 0 ∷ 8 ∷ 0 ∷ 0 ∷ 67 ∷ 78
    ∷ 65 ∷ 77 ∷ 3 ∷ 0 ∷ 65 ∷ 128 ∷ 0 ∷ 77 ∷ 65 ∷ 83 ∷ 84 ∷ 2 ∷ 0 ∷ 77 ∷ 0 ∷ 68 ∷ 65 ∷ 84 ∷ 65 ∷ 8
    ∷ 0 ∷ 0 ∷ 0 ∷ 0 ∷ 0 ∷ 0 ∷ 0 ∷ 0 ∷ 0 ∷ 71 ∷ 82 ∷ 85 ∷ 80 ∷ 57 ∷ 0 ∷ 0 ∷ 0 ∷ 75 ∷ 89 ∷ 87 ∷ 68 ∷ 0
    ∷ 0 ∷ 0 ∷ 0 ∷ 0 ∷ 0 ∷ 0 ∷ 0 ∷ 0 ∷ 0 ∷ 0 ∷ 0 ∷ 75 ∷ 89 ∷ 87 ∷ 68 ∷ 9 ∷ 0 ∷ 0 ∷ 0 ∷ 0 ∷ 0 ∷ 0 ∷ 0
    ∷ 5 ∷ 0 ∷ 0 ∷ 0 ∷ 0 ∷ 0 ∷ 0 ∷ 0 ∷ 131 ∷ 0 ∷ 0 ∷ 0 ∷ 69 ∷ 68 ∷ 73 ∷ 68 ∷ 3 ∷ 0 ∷ 104 ∷ 105 ∷ 0
    ∷ []

sample-written : to_bytes sample ≡ written sample_bytes
unfolding to_bytes num_records write_optional write_masters write_groups write_group write_records
    write_record write_record_header write_fields write_string_field write_hedr write_field
    record_count add_counts flags Game.hedr_version Game.light_flag Game.form_version
    Game.masters_have_data le_bytes encode_win1252 contains_nul is_nesting_required same_sig
    group_header form_version_of
sample-written = refl

keyword-IsSized : IsSized keyword
unfolding form_version_of
keyword-IsSized = record {
  flags_word = omega arith;
  id_word = omega arith;
  version_word = λ game. form_version-small game;
}

to_bytes-IsPlugin_iff_example :
    (to_bytes sample ≡ written sample_bytes)
    ↔ (IsPlugin sample × (plugin_layout sample ≡ sample_bytes))
to_bytes-IsPlugin_iff_example = to_bytes-IsPlugin_iff sample sample_bytes

to_bytes-read_plugin_example :
    read_plugin sample_bytes ≡ some (tes4_record sample, map (group_view fallout4) (keywords ∷ []))
unfolding IsSizedGroup
to_bytes-read_plugin_example =
    to_bytes-read_plugin sample sample_bytes sample-written ((keyword-IsSized, tt), tt)

write_group-IsGroup_iff_example :
    (write_group [] keywords fallout4 ≡ written (group_layout keywords fallout4)) ↔ (
      IsGroup fallout4 keywords
      × ([] ++ group_layout keywords fallout4 ≡ group_layout keywords fallout4))
write_group-IsGroup_iff_example =
    write_group-IsGroup_iff [] (group_layout keywords fallout4) keywords fallout4

to_bytes-new_example : to_bytes (new fallout4) ≡ written (carrier_plugin fallout4)
to_bytes-new_example = to_bytes-new fallout4

encode_win1252-decode_win1252_example :
    (encode_win1252 (b'A' ∷ 0x20ac ∷ []) "author" ≡ written (b'A' ∷ 0x80 ∷ []))
    ↔ (decode_win1252 (b'A' ∷ 0x80 ∷ []) ≡ some (b'A' ∷ 0x20ac ∷ []))
encode_win1252-decode_win1252_example =
    encode_win1252-decode_win1252 (b'A' ∷ 0x20ac ∷ []) (b'A' ∷ 0x80 ∷ []) "author"
