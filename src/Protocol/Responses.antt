-- ===== src/Protocol/Responses.antt =====
-- The packets that the gateway answers with: cmd/rdpgw/protocol/process.go.
use Prim.Native.Nat.{bit_or, bit_and}
use home_rdp_gateway.Base.{ℕ, Bool, ◌&&◌, ◌++◌, ◌==◌, ltb, if◌then◌else◌}
use home_rdp_gateway.Wire.{Bytes, put_u8, put_u16, put_u32}
use home_rdp_gateway.Protocol.PktType
use home_rdp_gateway.Protocol.Field
use home_rdp_gateway.Protocol.Packet.{create_packet}
use home_rdp_gateway.Base.Integers.{ℤ, pos, negsuc}
use home_rdp_gateway.Protocol.Gateway.{RedirectFlags, Gateway}

unfoldable pub handshake_body : ℕ → ℕ → ℕ → ℕ → Bytes
handshake_body major minor caps code =
    put_u32 code ++ (put_u8 major ++ (put_u8 minor ++ (put_u16 0 ++ put_u16 caps)))

unfoldable pub handshake_response : ℕ → ℕ → ℕ → ℕ → Bytes
unfolding handshake_body
handshake_response major minor caps code =
    create_packet PktType.handshake_response (handshake_body major minor caps code)

-- What matchAuth refuses: the client's capabilities match none of the server's, or it has none.
pub data AuthError : Type 0 where
  no_matching_capability capability_required : AuthError

pub data AuthResult : Type 0 where
  caps : ℕ → AuthResult
  refused : AuthError → AuthResult

abbrev pub server_caps : Gateway → ℕ
server_caps gw =
    bit_or (if gw.smart_card_auth then Field.extended_auth_sc else 0)
      (if gw.token_auth then Field.extended_auth_paa else 0)

unfoldable pub match_auth : Gateway → ℕ → AuthResult
match_auth gw client =
    if bit_and (server_caps gw) client == 0 && ltb 0 client
    then refused no_matching_capability
    else if ltb 0 (server_caps gw) && client == 0
    then refused capability_required
    else caps (server_caps gw)

abbrev pub tunnel_number : ℕ
tunnel_number = 10

unfoldable pub tunnel_body : ℕ → Bytes
tunnel_body code =
    put_u16 0
    ++ (put_u32 code
        ++ (put_u16 (bit_or Field.tunnel_id Field.tunnel_caps)
            ++ (put_u16 0 ++ (put_u32 tunnel_number ++ put_u32 Field.capability_idle_timeout))))

unfoldable pub tunnel_response : ℕ → Bytes
unfolding tunnel_body
tunnel_response code = create_packet PktType.tunnel_response (tunnel_body code)

abbrev set_unless : Bool → ℕ → ℕ → ℕ
set_unless allowed bit redir = if allowed then redir else bit_or redir bit

unfoldable pub make_redirect_flags : RedirectFlags → ℕ
make_redirect_flags flags =
    if flags.disable_all
    then Field.redir_disable_all
    else if flags.enable_all
    then Field.redir_enable_all
    else set_unless flags.printer Field.redir_disable_printer (
        set_unless flags.pnp Field.redir_disable_pnp (
          set_unless flags.drive Field.redir_disable_drive (
            set_unless flags.clipboard Field.redir_disable_clipboard
              (set_unless flags.port Field.redir_disable_port 0))))

abbrev pub clamp : ℤ → ℕ
clamp (pos n) = n
clamp (negsuc n) = 0

-- `if p.gw.IdleTimeout < 0 { p.gw.IdleTimeout = 0 }`.
unfoldable pub clamp_idle_timeout : Gateway → Gateway
clamp_idle_timeout gw = record gw { idle_timeout = pos (clamp gw.idle_timeout) }

unfoldable pub tunnel_auth_body : Gateway → ℕ → Bytes
tunnel_auth_body gw code =
    put_u32 code
    ++ (put_u16 (bit_or Field.redir_flags Field.idle_timeout)
        ++ (put_u16 0
            ++ (put_u32 (make_redirect_flags gw.redirect_flags)
                ++ put_u32 (clamp gw.idle_timeout))))

-- The gateway after the call, and the packet.
unfoldable pub tunnel_auth_response : Gateway → ℕ → Gateway × Bytes
unfolding clamp_idle_timeout tunnel_auth_body
tunnel_auth_response gw code =
    let gw' = clamp_idle_timeout gw in
    (gw', create_packet PktType.tunnel_auth_response (tunnel_auth_body gw' code))

unfoldable pub channel_body : ℕ → Bytes
channel_body code = put_u32 code ++ (put_u16 Field.channel_id ++ (put_u16 0 ++ put_u32 1))

unfoldable pub channel_response : ℕ → Bytes
unfolding channel_body
channel_response code = create_packet PktType.channel_response (channel_body code)

unfoldable pub channel_close_response : ℕ → Bytes
unfolding channel_body
channel_close_response code = create_packet PktType.close_channel_response (channel_body code)
