-- ===== src/Examples/Codings.antt =====
-- Texts, and the registry of connections.
use home_rdp_gateway.Base.{◌≡◌, some, [], ◌∷◌, arith}
use home_rdp_gateway.Utf.Utf8.{encode_runes}
use home_rdp_gateway.Utf.Utf16.{trim_nul, encode_utf16, decode_utf16}
use home_rdp_gateway.Utf.RoundTrip.{decode_utf16-encode_utf16}

-- "é€" and a NUL.
decode_utf16-encode_utf16_example :
    decode_utf16 (encode_utf16 (encode_runes (233 ∷ 8364 ∷ 0 ∷ [])))
    ≡ some (encode_runes (trim_nul (233 ∷ 8364 ∷ 0 ∷ [])))
decode_utf16-encode_utf16_example = decode_utf16-encode_utf16 (233 ∷ 8364 ∷ 0 ∷ []) (ground arith)
