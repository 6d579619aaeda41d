-- ===== src/Cli.antt =====
-- crates/drv-thru/src/cli/: what the commands compute; the definitions of arguments and the printing
-- are clap and terminal I/O.
pub mod Tickets
