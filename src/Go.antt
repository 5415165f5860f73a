-- ===== src/Go.antt =====
-- The functions of Go's standard library that the program's pure code calls, over texts.
pub mod Floats
pub mod Errors
pub mod Steps
pub mod Strings
pub mod Strconv
pub mod Unicode
pub mod Ints
pub mod Json
