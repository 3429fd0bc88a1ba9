-- ===== src/Protocol/Requests.antt =====
-- How the gateway reads the client's packets: cmd/rdpgw/protocol/process.go, and `receive` of
-- common.go.
use home_rdp_gateway.Base.{ℕ, none, some, [], ◌==◌, drop, if◌then◌else◌}
use home_rdp_gateway.Base.Texts.{Text}
use home_rdp_gateway.Wire.{Bytes, read_u8, read_u16, read_u32, read_slice, read_some}
use home_rdp_gateway.Utf.Utf16.{decode_utf16}
use home_rdp_gateway.Protocol.Field

-- The string that DecodeUTF16 returns, "" beside an error.
unfoldable pub decoded : Bytes → Text
unfolding decode_utf16
decoded b = elim (decode_utf16 b) [ none ↦ [] | some s ↦ s ]

pub record HandshakeRequest : Type 0 where
  pub major : ℕ
  pub minor : ℕ
  pub version : ℕ
  pub ext_auth : ℕ

unfoldable pub handshake_request : Bytes → HandshakeRequest
handshake_request input =
    let (major, r1) = read_u8 input in
    let (minor, r2) = read_u8 r1 in
    let (version, r3) = read_u16 r2 in
    let (ext_auth, r4) = read_u16 r3 in
    record { major = major; minor = minor; version = version; ext_auth = ext_auth }

-- The capabilities and the cookie; the cookie is "" unless the packet says that it holds one.
unfoldable pub tunnel_request : Bytes → ℕ × Text
tunnel_request input =
    let (caps, r1) = read_u32 input in
    let (fields, r2) = read_u16 r1 in
    let r3 = drop 2 r2 in
    let (size, r4) = read_u16 r3 in
    (caps, if fields == Field.paa_cookie then decoded (read_some size r4) else [])

unfoldable pub tunnel_auth_request : Bytes → Text
tunnel_auth_request input = let (size, r1) = read_u16 input in decoded (read_slice size r1)

-- The server and the port.
unfoldable pub channel_request : Bytes → Text × ℕ
channel_request input =
    let (resources_size, r1) = read_u8 input in
    let (alternative, r2) = read_u8 r1 in
    let (port, r3) = read_u16 r2 in
    let (protocol, r4) = read_u16 r3 in
    let (name_size, r5) = read_u16 r4 in (decoded (read_slice name_size r5), port)

-- What `receive` writes to the remote desktop server.
unfoldable pub payload : Bytes → Bytes
payload input = let (cblen, r1) = read_u16 input in read_slice cblen r1
