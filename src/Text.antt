-- ===== src/Text.antt =====
-- Texts of the source as lists of code points, with what the source calls of Rust's `str` and
-- `char`: lengths in bytes, prefixes and suffixes, splitting, lines, trimming and numbers.
mod Defs
mod Lines
mod Number
pub mod Trim
pub mod Decimal
pub mod Prefix
pub mod Splitting
unfoldable pub use Defs.*
unfoldable pub use Lines.*
unfoldable pub use Number.*
