-- ===== src/Examples/Tokens.antt =====
-- Tokens, and sessions of the gateway for tokens.
use home_rdp_gateway.Base.{
  sym, ap, ◌∙◌, inl, inr, Bool-cases, ◌&&◌, ◌≡◌, ◌↔◌, refl, Bool, true, false, Option, none, some,
  [], ◌∷◌, if◌then◌else◌, arith,
}
use home_rdp_gateway.Base.Outcome.{returns}
use home_rdp_gateway.Base.Texts.{Text, text_eq, text_eq_sound, codes}
use home_rdp_gateway.Base.Assoc.{lookup}
use home_rdp_gateway.Go.Strings.{is_empty}
use home_rdp_gateway.Go.Strconv.{itoa}
use home_rdp_gateway.Go.Net.{join_host_port}
use home_rdp_gateway.Utf.Utf16.{decode_utf16}
use home_rdp_gateway.Identity.User.{
  User, text, get_attribute, text_attribute, attr_access_token, attr_client_ip,
}
use home_rdp_gateway.Protocol.ServerState
use home_rdp_gateway.Protocol.Packet.{create_packet, read_header}
use home_rdp_gateway.Protocol.Reader.{
  resume, gather, get_ptr, handle_msg_frame, message_loop, read_message,
}
use home_rdp_gateway.Base.Integers.{pos, negsuc}
use home_rdp_gateway.Protocol.Gateway.{Processor, Conn, write}
use home_rdp_gateway.Protocol.Requests.{
  decoded, handshake_request, tunnel_request, tunnel_auth_request, channel_request,
}
use home_rdp_gateway.Protocol.Responses.{
  handshake_response, match_auth, tunnel_response, make_redirect_flags, tunnel_auth_response,
  channel_response,
}
use home_rdp_gateway.Protocol.Processor.{
  read_error, new_processor, run_check, on_handshake, on_tunnel_create, on_tunnel_auth,
  requested_host, on_channel_create, on_data, dispatch, handle, handle_all, take_in, tunnel_read,
  proceed, react, process,
}
use home_rdp_gateway.Security.Tokens.{
  CustomClaims, check_paa_cookie, check_session, paa_claims, generate_paa_token,
}
use home_rdp_gateway.Security.TokenRoundTrip.{Opens, generate-check}
use home_rdp_gateway.Security.Sessions.{Caps, build_gateway, IsGranted, process-IsGranted}
use home_rdp_gateway.Examples.Setting.{info, no_flags, dial_all, tunnel_of, opening_frames}

abbrev pub user : User
user = record {
  authenticated = true;
  domain = [];
  user_name = codes "u";
  display_name = [];
  email = [];
  auth_time = 0;
  session_id = codes "id";
  expiry = 0;
  attributes =
      (attr_access_token, text (codes "a")) ∷ (attr_client_ip, text (codes "10.0.0.1")) ∷ [];
  group_membership = [];
}

-- A library with one token: "k" stands for the claims for the server "h:9".
abbrev one_claims : CustomClaims
one_claims = record {
  remote_server = codes "h:9";
  client_ip = codes "10.0.0.1";
  access_token = codes "a";
  auth_source = codes "oidc";
  user_name = codes "u";
}

abbrev pub open_one : Text → Option CustomClaims
open_one t = if text_eq t (codes "k") then some one_claims else none

abbrev pub know_one : Text → Option Text
know_one access = if text_eq access (codes "a") then some (codes "u") else none

abbrev pub caps : Caps
caps = record { smart_card_auth = false; redirect_flags = no_flags; idle_timeout = negsuc 4 }

abbrev opened_conn : Conn
opened_conn = record { peer = codes "h:9"; written = [] }

abbrev last : Processor
last = record {
  gw = record {
    check_paa_cookie = some (check_paa_cookie open_one know_one);
    check_client_name = none;
    check_host = some (check_session true user none);
    redirect_flags = no_flags;
    idle_timeout = pos 0;
    smart_card_auth = false;
    token_auth = true;
  };
  state = ServerState.channel_create;
  tunnel = record (tunnel_of []) {
    info = record info {
      target_server = opened_conn.peer;
      remote_addr = codes "10.0.0.1";
      user_name = codes "u";
    };
    sent =
        (2 ∷ 0 ∷ 0 ∷ 0 ∷ 18 ∷ 0 ∷ 0 ∷ 0 ∷ 0 ∷ 0 ∷ 0 ∷ 0 ∷ 0 ∷ 0 ∷ 0 ∷ 0 ∷ 2 ∷ 0 ∷ [])
        ∷ (5 ∷ 0 ∷ 0 ∷ 0 ∷ 26 ∷ 0 ∷ 0 ∷ 0 ∷ 0 ∷ 0 ∷ 0 ∷ 0 ∷ 0 ∷ 0 ∷ 3 ∷ 0 ∷ 0 ∷ 0 ∷ 10 ∷ 0 ∷ 0 ∷ 0
            ∷ 2 ∷ 0 ∷ 0 ∷ 0 ∷ [])
        ∷ (7 ∷ 0 ∷ 0 ∷ 0 ∷ 24 ∷ 0 ∷ 0 ∷ 0 ∷ 0 ∷ 0 ∷ 0 ∷ 0 ∷ 3 ∷ 0 ∷ 0 ∷ 0 ∷ 21 ∷ 0 ∷ 0 ∷ 0 ∷ 0 ∷ 0
            ∷ 0 ∷ 0 ∷ [])
        ∷ (9 ∷ 0 ∷ 0 ∷ 0 ∷ 20 ∷ 0 ∷ 0 ∷ 0 ∷ 0 ∷ 0 ∷ 0 ∷ 0 ∷ 1 ∷ 0 ∷ 0 ∷ 0 ∷ 1 ∷ 0 ∷ 0 ∷ 0 ∷ [])
        ∷ [];
    rwc = some opened_conn;
    bytes_received = 62;
  };
}

opening_ends :
    process dial_all 60 (
      new_processor
        (build_gateway open_one know_one true user none [] caps true)
        (tunnel_of opening_frames))
    ≡ returns (last, some read_error)
unfolding new_processor process tunnel_read take_in read_message message_loop handle_msg_frame
    resume gather get_ptr read_header react proceed handle_all handle dispatch on_handshake
    on_tunnel_create on_tunnel_auth on_channel_create on_data run_check requested_host match_auth
    handshake_request tunnel_request tunnel_auth_request channel_request decoded decode_utf16
    join_host_port itoa write handshake_response tunnel_response tunnel_auth_response
    channel_response create_packet make_redirect_flags build_gateway check_paa_cookie check_session
    get_attribute lookup
opening_ends = refl

process-IsGranted_example :
    IsGranted open_one know_one true user none [] opening_frames opened_conn.peer
process-IsGranted_example =
    process-IsGranted open_one know_one true user none [] caps dial_all (tunnel_of opening_frames)
      60 last (some read_error) opened_conn refl opening_ends refl

abbrev same_claims : CustomClaims → CustomClaims → Bool
same_claims c d =
    text_eq c.remote_server d.remote_server
    && text_eq c.client_ip d.client_ip
    && text_eq c.access_token d.access_token
    && text_eq c.auth_source d.auth_source
    && text_eq c.user_name d.user_name

same_claims_sound : (c d : CustomClaims) → same_claims c d ≡ true → c ≡ d
same_claims_sound c d h =
    let a = text_eq_sound c.remote_server d.remote_server (ground arith) in
    let b = text_eq_sound c.client_ip d.client_ip (ground arith) in
    let e = text_eq_sound c.access_token d.access_token (ground arith) in
    let f = text_eq_sound c.auth_source d.auth_source (ground arith) in
    let g = text_eq_sound c.user_name d.user_name (ground arith) in
    λ i. record {
      remote_server = a i;
      client_ip = b i;
      access_token = e i;
      auth_source = f i;
      user_name = g i;
    }

abbrev seal_one : CustomClaims → Option Text
seal_one c = if same_claims c one_claims then some (codes "k") else none

seal_one-some :
    (c : CustomClaims) (t : Text) → seal_one c ≡ some t → (c ≡ one_claims) × (t ≡ codes "k")
seal_one-some c t h = elim (Bool-cases (same_claims c one_claims)) [
  | inl e ↦
      let same : some (codes "k") ≡ some t = rw e at h in (same_claims_sound c one_claims e, cc)
  | inr e ↦ let bad : none ≡ some t = rw e at h in cc
]

one-Opens : Opens seal_one open_one
one-Opens = record {
  opens = λ c t h. let (a, b) = seal_one-some c t h in ap open_one b ∙ ap some (sym a);
  filled = λ c t h. ap is_empty (seal_one-some c t h).1;
}

generate-check_example :
    let r = check_paa_cookie open_one know_one (codes "k") info in
    (r.0 ≡ true)
    × (r.1 ≡ record info {
      target_server = codes "h:9";
      remote_addr = text_attribute attr_client_ip user;
      user_name = codes "u";
    })
    × (((check_session true user none (codes "x:9") r.1).0 ≡ true) ↔ (codes "h:9" ≡ codes "x:9"))
unfolding generate_paa_token paa_claims text_attribute get_attribute lookup
generate-check_example =
    generate-check seal_one open_one know_one 32 32 user (codes "u") (codes "h:9") (codes "k")
      (codes "u") (codes "x:9") true info one-Opens refl refl
