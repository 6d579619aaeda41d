-- ===== src/ClientStatus.antt =====
-- crates/drv-thru/src/client_status.rs: the status line of a client. The ticker and the readers and
-- writers that count their bytes call the operations of ClientStatus/Line.
pub mod Width
pub mod Line
mod Tests
