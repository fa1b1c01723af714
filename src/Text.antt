-- ===== src/Text.antt =====
-- Go strings as lists of code points, and the parts of Go's `strings`, `unicode` and `utf8`
-- packages that the program uses. A string is taken to be valid UTF-8.
pub mod Basic
pub mod Space
pub mod Trim
pub mod Case
pub mod Utf8
pub mod Path
pub mod Number
