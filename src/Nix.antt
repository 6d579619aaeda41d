-- ===== src/Nix.antt =====
-- crates/drv-thru/src/nix.rs: store paths.
pub mod StorePath
pub mod Commands
pub mod Queries
pub mod Trust
