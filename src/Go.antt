-- ===== src/Go.antt =====
-- What the program uses of Go's own library: encoding/base64 and strings.
pub mod Base64
pub mod Strings
