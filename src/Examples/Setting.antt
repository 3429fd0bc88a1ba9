-- ===== src/Examples/Setting.antt =====
-- A gateway, a client and a transport for the examples.
use home_rdp_gateway.Base.{true, false, none, some, List, [], ◌∷◌, Bool, length}
use home_rdp_gateway.Base.Texts.{Text, text_eq}
use home_rdp_gateway.Wire.{Bytes}
use home_rdp_gateway.Transport.{Received}
use home_rdp_gateway.Base.Integers.{negsuc}
use home_rdp_gateway.Protocol.Gateway.{Gateway, Tunnel, TunnelInfo, Check, RedirectFlags}
use home_rdp_gateway.Protocol.Client.Defs.{ClientConfig}

abbrev pub info : TunnelInfo
info = record { id = []; rdg_id = []; target_server = []; remote_addr = []; user_name = [] }

-- The cookie must be "k", as a client whose token is "k" sends it.
abbrev pub check_cookie : Check
check_cookie cookie i = (text_eq cookie (b'k' ∷ []), record i { user_name = b'u' ∷ [] })

-- The only host is "h:9".
abbrev pub check_host : Check
check_host host i = (text_eq host (b'h' ∷ b':' ∷ b'9' ∷ []), i)

abbrev pub no_flags : RedirectFlags
no_flags = record {
  clipboard = true;
  port = false;
  drive = false;
  printer = true;
  pnp = false;
  disable_all = false;
  enable_all = false;
}

abbrev pub gateway : Gateway
gateway = record {
  check_paa_cookie = some check_cookie;
  check_client_name = none;
  check_host = some check_host;
  redirect_flags = no_flags;
  idle_timeout = negsuc 4;
  smart_card_auth = false;
  token_auth = true;
}

abbrev pub dial_all : Text → Bool
dial_all host = true

abbrev pub frame : Bytes → Received
frame bytes = record { size = length bytes; bytes = bytes; failed = false }

abbrev pub tunnel_of : List Received → Tunnel
tunnel_of frames = record {
  info = info;
  transport_in = frames;
  write_results = [];
  sent = [];
  rwc = none;
  bytes_sent = 0;
  bytes_received = 0;
}

-- The packets of a client with the token "k", the name "" and the server "h" at port 9; the second is
-- cut in two.
abbrev pub opening_frames : List Received
opening_frames =
    frame (1 ∷ 0 ∷ 0 ∷ 0 ∷ 14 ∷ 0 ∷ 0 ∷ 0 ∷ 0 ∷ 0 ∷ 0 ∷ 0 ∷ 2 ∷ 0 ∷ [])
    ∷ frame (4 ∷ 0 ∷ 0 ∷ 0 ∷ 20 ∷ 0 ∷ 0 ∷ 0 ∷ 2 ∷ 0 ∷ [])
    ∷ frame (0 ∷ 0 ∷ 1 ∷ 0 ∷ 0 ∷ 0 ∷ 2 ∷ 0 ∷ b'k' ∷ 0 ∷ [])
    ∷ frame (6 ∷ 0 ∷ 0 ∷ 0 ∷ 10 ∷ 0 ∷ 0 ∷ 0 ∷ 0 ∷ 0 ∷ [])
    ∷ frame (8 ∷ 0 ∷ 0 ∷ 0 ∷ 18 ∷ 0 ∷ 0 ∷ 0 ∷ 1 ∷ 0 ∷ 9 ∷ 0 ∷ 3 ∷ 0 ∷ 2 ∷ 0 ∷ b'h' ∷ 0 ∷ [])
    ∷ []

abbrev pub client : ClientConfig
client = record {
  smart_card_auth = false;
  paa_token = b'k' ∷ [];
  ntlm_auth = false;
  server = b'h' ∷ [];
  port = 9;
  name = [];
}
