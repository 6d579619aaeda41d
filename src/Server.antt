-- ===== src/Server.antt =====
-- crates/drv-thru/src/server: the build server, one module per file.
pub mod Start
pub mod Session
pub mod Auth
pub mod Build
pub mod Connection
pub mod Status
pub mod OutputCache
