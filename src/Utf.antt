-- ===== src/Utf.antt =====
-- Go's text encodings, as far as cmd/rdpgw/protocol/utf16.go uses them: `[]rune(s)` and
-- `utf8.EncodeRune` of the standard library, and DecodeUTF16 and EncodeUTF16 over them.
pub mod Utf8
pub mod Utf16
pub mod RoundTrip
