-- ===== src/Esl.antt =====
-- crates/esl-writer/src: the writer of light-master plugins.
pub mod Error
pub mod Game
pub mod Win1252
pub mod Write
pub mod Content
pub mod Layout
pub mod Plugin
pub mod Reader
