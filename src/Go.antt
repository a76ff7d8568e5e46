-- ===== src/Go.antt =====
-- What the programs use of Go's standard library, as functions on byte strings.
pub mod Io
pub mod Binary
pub mod Text
pub mod Fields
pub mod Decimal
pub mod Reader
pub mod Writer
pub mod HostPort
