-- ===== src/Go.antt =====
-- What the program uses of Go's standard library.
pub mod Strconv
pub mod Decimal
pub mod Strings
pub mod Maps
