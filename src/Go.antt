-- ===== src/Go.antt =====
-- What the program uses of Go's standard library, on byte strings: `strconv`, `strings`, `path`,
-- `base64`, and the shape of regular expression that pkg/iptables/iptables.go compiles.
pub mod Strconv
pub mod Strings
pub mod Lines
pub mod Pathname
pub mod Base64
pub mod Hex
