-- ===== src/Strings.antt =====
-- What the program uses of Go's packages strings, path/filepath, encoding/hex and strconv.
pub mod Hex
pub mod Split
pub mod Search
pub mod Trim
pub mod FilePath
