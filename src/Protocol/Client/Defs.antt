-- ===== src/Protocol/Client/Defs.antt =====
-- The requests that the client sends, how it reads the answers, and the switch of ConnectAndForward.
use Prim.Native.Nat.{bit_or, bit_and}
use home_rdp_gateway.Base.{
  ℕ, ◌^◌, Bool, ◌&&◌, none, some, List, [], ◌∷◌, ◌++◌, ◌==◌, ltb, length, drop, if◌then◌else◌,
}
use home_rdp_gateway.Base.Texts.{Text}
use home_rdp_gateway.Wire.{Bytes, put_u8, put_u16, put_u32, read_u8, read_u16, read_u32}
use home_rdp_gateway.Utf.Utf16.{encode_utf16}
use home_rdp_gateway.Protocol.PktType
use home_rdp_gateway.Protocol.Field
use home_rdp_gateway.Protocol.Packet.{create_packet}
use home_rdp_gateway.Protocol.Reader.{Message}
use home_rdp_gateway.Protocol.Requests.{payload}

pub record ClientConfig : Type 0 where
  pub smart_card_auth : Bool
  pub paa_token : Text
  pub ntlm_auth : Bool
  pub server : Text
  pub port : ℕ
  pub name : Text

abbrev has_token : ClientConfig → Bool
has_token c = ltb 0 (length c.paa_token)

abbrev pub client_caps : ClientConfig → ℕ
client_caps c =
    bit_or
      (bit_or (if c.smart_card_auth then Field.extended_auth_sc else 0)
        (if has_token c then Field.extended_auth_paa else 0))
      (if c.ntlm_auth then Field.extended_auth_ntlm else 0)

unfoldable pub handshake_request_body : ClientConfig → Bytes
handshake_request_body c = put_u8 0 ++ (put_u8 0 ++ (put_u16 0 ++ put_u16 (client_caps c)))

unfoldable pub handshake_request : ClientConfig → Bytes
unfolding handshake_request_body
handshake_request c = create_packet PktType.handshake_request (handshake_request_body c)

unfoldable pub tunnel_request_body : ClientConfig → Bytes
tunnel_request_body c =
    let token = encode_utf16 c.paa_token in
    put_u32 Field.capability_idle_timeout
    ++ (put_u16 (if has_token c then Field.paa_cookie else 0)
        ++ (put_u16 0 ++ (if has_token c then put_u16 (length token) ++ token else [])))

unfoldable pub tunnel_request : ClientConfig → Bytes
unfolding tunnel_request_body
tunnel_request c = create_packet PktType.tunnel_create (tunnel_request_body c)

unfoldable pub tunnel_auth_request_body : ClientConfig → Bytes
tunnel_auth_request_body c = let name = encode_utf16 c.name in put_u16 (length name) ++ name

unfoldable pub tunnel_auth_request : ClientConfig → Bytes
unfolding tunnel_auth_request_body
tunnel_auth_request c = create_packet PktType.tunnel_auth (tunnel_auth_request_body c)

unfoldable pub channel_request_body : ClientConfig → Bytes
channel_request_body c =
    let server = encode_utf16 c.server in
    put_u8 1 ++ (put_u8 0 ++ (put_u16 c.port ++ (put_u16 3 ++ (put_u16 (length server) ++ server))))

unfoldable pub channel_request : ClientConfig → Bytes
unfolding channel_request_body
channel_request c = create_packet PktType.channel_create (channel_request_body c)

-- What the client makes of an answer: its values, or the error code in it.
pub data Reply {ℓ} (A : Type ℓ) : Type ℓ where
  accepted : A → Reply A
  failed : ℕ → Reply A

-- A field that is read only if its bit is set.
abbrev read_if : ℕ → ℕ → Bytes → ℕ × Bytes
read_if fields bit r = if bit_and fields bit == bit then read_u32 r else (0, r)

-- The error code is an int32: above zero only below 2 ^ 31.
unfoldable pub handshake_response : Bytes → Reply ℕ
handshake_response input =
    let (code, r1) = read_u32 input in
    let (major, r2) = read_u8 r1 in
    let (minor, r3) = read_u8 r2 in
    let (version, r4) = read_u16 r3 in
    let (caps, r5) = read_u16 r4 in
    if ltb 0 code && ltb code (2 ^ 31) then failed code else accepted caps

-- The tunnel id and the capabilities.
unfoldable pub tunnel_response : Bytes → Reply (ℕ × ℕ)
tunnel_response input =
    let (version, r1) = read_u16 input in
    let (code, r2) = read_u32 r1 in
    let (fields, r3) = read_u16 r2 in
    let (id, r4) = read_if fields Field.tunnel_id (drop 2 r3) in
    let (caps, r5) = read_if fields Field.tunnel_caps r4 in
    if code == 0 then accepted (id, caps) else failed code

-- The redirection flags and the timeout.
unfoldable pub tunnel_auth_response : Bytes → Reply (ℕ × ℕ)
tunnel_auth_response input =
    let (code, r1) = read_u32 input in
    let (fields, r2) = read_u16 r1 in
    let (flags, r3) = read_if fields Field.redir_flags (drop 2 r2) in
    let (timeout, r4) = read_if fields Field.idle_timeout r3 in
    if ltb 0 code then failed code else accepted (flags, timeout)

unfoldable pub channel_response : Bytes → Reply ℕ
channel_response input =
    let (code, r1) = read_u32 input in
    let (fields, r2) = read_u16 r1 in
    let (id, r3) = read_if fields Field.channel_id (drop 2 r2) in
    if ltb 0 code then failed code else accepted id

-- The client, what it has put on its transport, and what it has written to its local connection.
pub record Client : Type 0 where
  pub config : ClientConfig
  pub sent : List Bytes
  pub local : List Bytes

abbrev pub send : Client → Bytes → Client
send c pkt = record c { sent = c.sent ++ pkt ∷ [] }

-- Goes on, or returns the error code of an answer.
pub data ClientStep : Type 0 where
  next : Client → ClientStep
  stop : Client → ℕ → ClientStep

abbrev on_reply {ℓ} : {A : Type ℓ} → Client → Reply A → Client → ClientStep
on_reply c (failed code) c' = stop c code
on_reply c (accepted a) c' = next c'

unfoldable pub start : ClientConfig → Client
unfolding handshake_request
start config = record { config = config; sent = handshake_request config ∷ []; local = [] }

unfoldable pub handle : Client → Message → ClientStep
handle c m = elim m.err [
  | some e ↦ next c
  | none ↦
      if m.packet_type == PktType.handshake_response
      then on_reply c (handshake_response m.msg) (send c (tunnel_request c.config))
      else if m.packet_type == PktType.tunnel_response
      then on_reply c (tunnel_response m.msg) (send c (tunnel_auth_request c.config))
      else if m.packet_type == PktType.tunnel_auth_response
      then on_reply c (tunnel_auth_response m.msg) (send c (channel_request c.config))
      else if m.packet_type == PktType.channel_response
      then on_reply c (channel_response m.msg) c
      else if m.packet_type == PktType.data_packet
      then next (record c { local = c.local ++ payload m.msg ∷ [] })
      else next c
]
