-- ===== src/Go.antt =====
-- What the program uses of Go's standard library on strings and addresses, in so far as it is modelled.
pub mod Strings
pub mod Strconv
pub mod Net
pub mod Trim
pub mod Digits
