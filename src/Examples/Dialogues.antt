-- ===== src/Examples/Dialogues.antt =====
-- A client and the gateway.
use home_rdp_gateway.Base.{ℕ, ◌≡◌, refl, none, true, some, [], ◌∷◌, ◌++◌, arith}
use home_rdp_gateway.Utf.Utf8.{encode_rune, encode_runes, runes_from, decode_rune}
use home_rdp_gateway.Utf.Utf16.{trim_nul, encode_utf16, encode_all, encode_unit, put_units}
use home_rdp_gateway.Go.Strconv.{itoa}
use home_rdp_gateway.Go.Net.{join_host_port}
use home_rdp_gateway.Protocol.ServerState
use home_rdp_gateway.Protocol.ErrorCode
use home_rdp_gateway.Protocol.Requests
use home_rdp_gateway.Protocol.Field
use home_rdp_gateway.Protocol.Responses
use home_rdp_gateway.Protocol.Responses.{match_auth}
use home_rdp_gateway.Protocol.Reader.Reassembly.{messages}
use home_rdp_gateway.Protocol.Gateway.{Processor, Gateway}
use home_rdp_gateway.Base.Assoc.{lookup}
use home_rdp_gateway.Identity.User.{get_attribute}
use home_rdp_gateway.Security.Tokens.{check_paa_cookie, check_session}
use home_rdp_gateway.Security.Sessions.{build_gateway}
use home_rdp_gateway.Examples.Tokens.{user, open_one, know_one, caps}
use home_rdp_gateway.Protocol.Processor.{next, new_processor, handle_all}
use home_rdp_gateway.Protocol.Client.Defs.{channel_request_body}
use home_rdp_gateway.Protocol.Client.Requests.{IsSendable, channel_request-body}
use home_rdp_gateway.Protocol.Client.Dialogue.{Spells, Agrees, opening, opening-channel_create}
use home_rdp_gateway.Examples.Setting.{client, dial_all, tunnel_of}

k_fits : IsSendable (b'k' ∷ [])
unfolding encode_rune encode_runes encode_utf16 encode_all encode_unit put_units runes_from
    decode_rune
k_fits = record { basic = (ground arith, tt); short = omega arith }

h_fits : IsSendable (b'h' ∷ [])
unfolding encode_rune encode_runes encode_utf16 encode_all encode_unit put_units runes_from
    decode_rune
h_fits = record { basic = (ground arith, tt); short = omega arith }

nothing_fits : IsSendable []
unfolding encode_runes encode_utf16 encode_all put_units runes_from
nothing_fits = record { basic = tt; short = omega arith }

channel_request-body_example :
    Requests.channel_request (channel_request_body client)
    ≡ (encode_runes (trim_nul (b'h' ∷ [])), 9)
unfolding encode_runes encode_rune
channel_request-body_example = channel_request-body client (b'h' ∷ []) refl h_fits (omega arith)

client_spelled : Spells client (b'k' ∷ []) [] (b'h' ∷ [])
unfolding encode_runes encode_rune
client_spelled = record {
  token = refl;
  name = refl;
  server = refl;
  token_fits = k_fits;
  name_fits = nothing_fits;
  server_fits = h_fits;
  port_fits = omega arith;
}

-- The gateway for tokens, as it is built for this client.
abbrev token_gateway : Gateway
token_gateway = build_gateway open_one know_one true user none [] caps true

token_gateway-Agrees :
    Agrees dial_all token_gateway (tunnel_of []).info client (b'k' ∷ []) [] (b'h' ∷ []) 2
unfolding encode_runes encode_rune trim_nul match_auth join_host_port itoa build_gateway
    check_paa_cookie check_session get_attribute lookup
token_gateway-Agrees = record {
  negotiated = refl;
  cookie_ok = refl;
  name_ok = tt;
  host_ok = refl;
  reachable = refl;
}

opening-channel_create_example :
    (p : Processor) × (handle_all dial_all
        (new_processor token_gateway (tunnel_of []))
        (messages (opening client))
      ≡ next p)
    × (p.state ≡ ServerState.channel_create)
    × (p.tunnel.rwc
        ≡ some (record {
          peer = join_host_port (encode_runes (trim_nul (b'h' ∷ []))) (itoa 9);
          written = [];
        }))
    × (p.tunnel.sent
        ≡ ((([] ++ Responses.handshake_response 0 0 2 ErrorCode.success ∷ [])
              ++ Responses.tunnel_response ErrorCode.success ∷ [])
            ++ (Responses.tunnel_auth_response token_gateway ErrorCode.success).1 ∷ [])
          ++ Responses.channel_response ErrorCode.success ∷ [])
opening-channel_create_example =
    opening-channel_create dial_all token_gateway (tunnel_of []) client (b'k' ∷ []) [] (b'h' ∷ []) 2
      client_spelled token_gateway-Agrees

abbrev paa : ℕ
paa = Field.extended_auth_paa
