-- ===== src/ClientCache.antt =====
-- crates/drv-thru/src/client_cache/: how a client takes signed outputs into its store. The parts are
-- the HTTP requests of Nix, the files of the local cache and the tasks that fetch them.
pub mod Http
pub mod Files
pub mod LocalServer
pub mod Mirror
pub mod Served
pub mod Builder
pub mod Import
mod Tests
