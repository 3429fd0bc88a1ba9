-- ===== src/Examples/Sessions.antt =====
-- Sessions of the gateway.
use home_rdp_gateway.Base.{ℕ, ◌≡◌, ◌≢◌, refl, true, none, some, List, [], ◌∷◌, arith}
use home_rdp_gateway.Base.Outcome.{returns, out_of_fuel}
use home_rdp_gateway.Go.Strconv.{itoa}
use home_rdp_gateway.Go.Net.{join_host_port}
use home_rdp_gateway.Utf.Utf16.{decode_utf16}
use home_rdp_gateway.Protocol.ServerState
use home_rdp_gateway.Protocol.PktType
use home_rdp_gateway.Protocol.Packet.{create_packet, read_header}
use home_rdp_gateway.Protocol.Reader.{
  Message, resume, gather, get_ptr, handle_msg_frame, message_loop, read_message,
}
use home_rdp_gateway.Base.Integers.{pos}
use home_rdp_gateway.Protocol.Gateway.{Processor, Conn, write}
use home_rdp_gateway.Protocol.Requests.{
  decoded, handshake_request, tunnel_request, tunnel_auth_request, channel_request,
}
use home_rdp_gateway.Protocol.Responses.{
  handshake_response, match_auth, tunnel_response, make_redirect_flags, tunnel_auth_response,
  channel_response,
}
use home_rdp_gateway.Protocol.Processor.{
  crash, read_error, new_processor, run_check, on_handshake, on_tunnel_create, on_tunnel_auth,
  requested_host, on_channel_create, on_data, dispatch, handle, handle_all, take_in, tunnel_read,
  proceed, react, process,
}
use home_rdp_gateway.Protocol.Processor.Authorization.{Accepted, AcceptedFor}
use home_rdp_gateway.Protocol.Processor.Order.{Advances, dispatch-Advances}
use home_rdp_gateway.Protocol.Processor.Session.{process-connected, handle_all-ne-crash}
use home_rdp_gateway.Protocol.Processor.Termination.{process-ne-out_of_fuel}
use home_rdp_gateway.Examples.Setting.{info, gateway, dial_all, tunnel_of, opening_frames}

abbrev rounds : ℕ
rounds = 60

abbrev opened_conn : Conn
opened_conn = record { peer = b'h' ∷ b':' ∷ b'9' ∷ []; written = [] }

-- The sessions end authorized, with the answers of the gateway and the tunnel as the checks set it.
abbrev last : Processor
last = record {
  gw = record gateway { idle_timeout = pos 0 };
  state = ServerState.channel_create;
  tunnel = record (tunnel_of []) {
    info = record info { target_server = opened_conn.peer; user_name = b'u' ∷ [] };
    sent =
        (2 ∷ 0 ∷ 0 ∷ 0 ∷ 18 ∷ 0 ∷ 0 ∷ 0 ∷ 0 ∷ 0 ∷ 0 ∷ 0 ∷ 0 ∷ 0 ∷ 0 ∷ 0 ∷ 2 ∷ 0 ∷ [])
        ∷ (5 ∷ 0 ∷ 0 ∷ 0 ∷ 26 ∷ 0 ∷ 0 ∷ 0 ∷ 0 ∷ 0 ∷ 0 ∷ 0 ∷ 0 ∷ 0 ∷ 3 ∷ 0 ∷ 0 ∷ 0 ∷ 10 ∷ 0 ∷ 0 ∷ 0
            ∷ 2 ∷ 0 ∷ 0 ∷ 0 ∷ [])
        ∷ (7 ∷ 0 ∷ 0 ∷ 0 ∷ 24 ∷ 0 ∷ 0 ∷ 0 ∷ 0 ∷ 0 ∷ 0 ∷ 0 ∷ 3 ∷ 0 ∷ 0 ∷ 0 ∷ 21 ∷ 0 ∷ 0 ∷ 0 ∷ 0 ∷ 0
            ∷ 0 ∷ 0 ∷ [])
        ∷ (9 ∷ 0 ∷ 0 ∷ 0 ∷ 20 ∷ 0 ∷ 0 ∷ 0 ∷ 0 ∷ 0 ∷ 0 ∷ 0 ∷ 1 ∷ 0 ∷ 0 ∷ 0 ∷ 1 ∷ 0 ∷ 0 ∷ 0 ∷ [])
        ∷ [];
    rwc = some opened_conn;
    bytes_received = 62;
  };
}

opening_ends :
    process dial_all rounds (new_processor gateway (tunnel_of opening_frames))
    ≡ returns (last, some read_error)
unfolding new_processor process tunnel_read take_in read_message message_loop handle_msg_frame
    resume gather get_ptr read_header react proceed handle_all handle dispatch on_handshake
    on_tunnel_create on_tunnel_auth on_channel_create on_data run_check requested_host match_auth
    handshake_request tunnel_request tunnel_auth_request channel_request decoded decode_utf16
    join_host_port itoa write handshake_response tunnel_response tunnel_auth_response
    channel_response create_packet make_redirect_flags
opening_ends = refl

process-connected_example :
    Accepted gateway.check_paa_cookie
    × Accepted gateway.check_client_name
    × AcceptedFor gateway.check_host opened_conn.peer
    × (dial_all opened_conn.peer ≡ true)
process-connected_example =
    process-connected dial_all gateway (tunnel_of opening_frames) rounds last (some read_error)
      opened_conn refl opening_ends refl

process-ne-out_of_fuel_example :
    process dial_all 100 (new_processor gateway (tunnel_of opening_frames)) ≢ out_of_fuel
unfolding new_processor
process-ne-out_of_fuel_example =
    process-ne-out_of_fuel dial_all 100 (new_processor gateway (tunnel_of opening_frames))
      (omega arith, (omega arith, (omega arith, (omega arith, (omega arith, tt))))) (omega arith)

-- Data before a channel, and a close of a channel that is not there.
abbrev early : List Message
early =
    record { packet_type = PktType.data_packet; length = 9; msg = 0 ∷ []; err = none }
    ∷ record { packet_type = PktType.close_channel; length = 8; msg = []; err = none }
    ∷ []

handle_all-ne-crash_example :
    handle_all dial_all (new_processor gateway (tunnel_of [])) early ≢ crash
handle_all-ne-crash_example = handle_all-ne-crash dial_all gateway (tunnel_of []) early refl

dispatch-Advances_example :
    Advances PktType.tunnel_auth ServerState.channel_create
      (dispatch dial_all last PktType.tunnel_auth (0 ∷ 0 ∷ []))
dispatch-Advances_example =
    dispatch-Advances dial_all last PktType.tunnel_auth (0 ∷ 0 ∷ []) (omega arith)
