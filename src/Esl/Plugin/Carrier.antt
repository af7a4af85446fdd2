-- ===== src/Esl/Plugin/Carrier.antt =====
-- The carrier plugin is the plugin without content.
use rust_crates.Prelude.{◌≡◌, refl, le_bytes}
use rust_crates.Esl.Error.{written}
use rust_crates.Esl.Game.{Game, skyrim_se, fallout4, starfield}
use rust_crates.Esl.Game
use rust_crates.Esl.Write.{write_hedr, write_field, write_record_header}
use rust_crates.Esl.Plugin.{
  new, flags, num_records, write_optional, write_masters, write_groups, to_bytes, carrier_plugin,
}

-- For each game `carrier_plugin` gives the bytes that the builder writes for a new plugin.
pub to_bytes-new : (game : Game) → to_bytes (new game) ≡ written (carrier_plugin game)
unfolding new flags num_records write_optional write_masters write_groups to_bytes carrier_plugin
    write_hedr write_field write_record_header le_bytes Game.hedr_version Game.light_flag
    Game.form_version
to_bytes-new skyrim_se = refl
to_bytes-new fallout4 = refl
to_bytes-new starfield = refl
