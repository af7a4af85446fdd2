-- ===== src/Esl/Game.antt =====
-- crates/esl-writer/src/game.rs: the target game and its constants.
use rust_crates.Prelude.{ℕ, Bool, true, false}

pub data Game : Type 0 where
  skyrim_se fallout4 starfield : Game

-- An `f32` by its bits: 1.71, 1.0 and 0.96.
unfoldable pub hedr_version : Game → ℕ
hedr_version skyrim_se = 0x3fda_e148
hedr_version fallout4 = 0x3f80_0000
hedr_version starfield = 0x3f75_c28f

unfoldable pub light_flag : Game → ℕ
light_flag skyrim_se = 0x200
light_flag fallout4 = 0x200
light_flag starfield = 0x100

unfoldable pub form_version : Game → ℕ
form_version skyrim_se = 44
form_version fallout4 = 131
form_version starfield = 552

unfoldable pub masters_have_data : Game → Bool
masters_have_data starfield = false
masters_have_data _ = true
