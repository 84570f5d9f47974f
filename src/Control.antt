-- ===== src/Control.antt =====
-- The control API of crates/control-api/src/lib.rs.
pub mod Text
pub mod Params
pub mod Store
pub mod Types
pub mod Controller
pub mod Preset
pub mod Rest
pub mod Tests
