-- ===== src/Go.antt =====
-- What the modelled packages use of the Go language and its standard library.
pub mod Strings
pub mod Strconv
pub mod Path
pub mod Maps
pub mod Text
