-- ===== src/Protocol/Client/Requests.antt =====
-- What the client asks is what the gateway reads.
use home_rdp_gateway.Base.{
  ℕ, ◌+◌, ◌*◌, ◌/◌, ◌%◌, ◌<◌, ◌≡◌, ◌≢◌, refl, sym, ap, ◌∙◌, true, List, [], ◌∷◌, ltb, length, arith,
  append-nil,
}
use home_rdp_gateway.Wire.{Bytes, read_slice, read_some}
use home_rdp_gateway.Wire.Laws.{read_slice_append, read_some_append}
use home_rdp_gateway.Utf.Utf8.{encode_runes}
use home_rdp_gateway.Utf.Utf16.{encode_utf16, trim_nul}
use home_rdp_gateway.Utf.RoundTrip.{AreBasic, encode_runes-ne-nil, decode_utf16-encode_utf16}
use home_rdp_gateway.Protocol.Requests
use home_rdp_gateway.Protocol.Requests.{decoded}
use home_rdp_gateway.Protocol.Client.Defs.{
  ClientConfig, tunnel_request_body, tunnel_auth_request_body, channel_request_body,
}

-- A text of the client as the gateway will read it: code points of the Basic Multilingual Plane, whose
-- encoding has a length that fits a uint16.
pub record IsSendable (cs : List ℕ) : Type 0 where
  pub basic : AreBasic cs
  pub short : length (encode_utf16 (encode_runes cs)) < 65536

decoded-encode :
    (cs : List ℕ)
    → AreBasic cs
    → decoded (encode_utf16 (encode_runes cs)) ≡ encode_runes (trim_nul cs)
unfolding decoded
decoded-encode cs h = rw (decode_utf16-encode_utf16 cs h, decoded)

sized : (b : Bytes) → length b < 65536 → length b % 256 + 256 * (length b / 256 % 256) ≡ length b
sized b h = omega arith

sized_port : (n : ℕ) → n < 65536 → n % 256 + 256 * (n / 256 % 256) ≡ n
sized_port n h = omega arith

slice_of : (b : Bytes) (n : ℕ) → n ≡ length b → read_slice n b ≡ b
slice_of b n h = ap (read_slice n) (sym (append-nil b)) ∙ read_slice_append b [] n (sym h) refl

some_of : (b : Bytes) (n : ℕ) → n ≡ length b → read_some n b ≡ b
some_of b n h = ap (read_some n) (sym (append-nil b)) ∙ read_some_append b [] n (sym h) refl

-- Where the client's name can be sent (code points of the Basic Multilingual Plane, less than 65536
-- bytes in UTF-16), the gateway reads it as it is, less a trailing NUL.
pub tunnel_auth_request-body :
    (c : ClientConfig) (cs : List ℕ)
    → c.name ≡ encode_runes cs
    → IsSendable cs
    → Requests.tunnel_auth_request (tunnel_auth_request_body c) ≡ encode_runes (trim_nul cs)
unfolding Requests.tunnel_auth_request tunnel_auth_request_body
tunnel_auth_request-body c cs e ok =
    rw (e, slice_of (encode_utf16 (encode_runes cs)) _ (sized _ ok.short))
      (decoded-encode cs ok.basic)

-- Where the client's server can be sent and the port has 16 bits, the gateway reads the server, less a
-- trailing NUL, and the port.
pub channel_request-body :
    (c : ClientConfig) (cs : List ℕ)
    → c.server ≡ encode_runes cs
    → IsSendable cs
    → c.port < 65536
    → Requests.channel_request (channel_request_body c) ≡ (encode_runes (trim_nul cs), c.port)
unfolding Requests.channel_request channel_request_body
channel_request-body c cs e ok hp = rw (
  e,
  slice_of (encode_utf16 (encode_runes cs)) _ (sized _ ok.short),
  decoded-encode cs ok.basic,
  sized_port c.port hp,
)

has_first : (s : Bytes) → s ≢ [] → ltb 0 (length s) ≡ true
has_first s h = ground arith

-- Where the client's token can be sent, the gateway reads it, less a trailing NUL, and the client's
-- capabilities; where the token is "", no cookie is sent and the gateway reads "".
pub tunnel_request-body :
    (c : ClientConfig) (cs : List ℕ)
    → c.paa_token ≡ encode_runes cs
    → IsSendable cs
    → Requests.tunnel_request (tunnel_request_body c) ≡ (2, encode_runes (trim_nul cs))
unfolding Requests.tunnel_request tunnel_request_body
tunnel_request-body c [] e ok = rw e (unfold encode_runes trim_nul in refl)
tunnel_request-body c (x ∷ cs) e ok = rw (
  e,
  has_first (encode_runes (x ∷ cs)) (encode_runes-ne-nil x cs),
  some_of (encode_utf16 (encode_runes (x ∷ cs))) _ (sized _ ok.short),
  decoded-encode (x ∷ cs) ok.basic,
)
