-- ===== src/Protocol/Client/Dialogue.antt =====
-- The four requests of a client, answered by a gateway that accepts them.
use home_rdp_gateway.Base.{
  ℕ, ◌<◌, ◌≡◌, refl, ap, ◌∙◌, Bool, true, Option, none, some, List, [], ◌∷◌, ◌++◌, ◌==◌, arith,
  ==_iff,
}
use mathlib.Core.Path.{ap₂}
use home_rdp_gateway.Base.Texts.{Text}
use home_rdp_gateway.Wire.{Bytes}
use home_rdp_gateway.Utf.Utf8.{encode_runes}
use home_rdp_gateway.Utf.Utf16.{trim_nul}
use home_rdp_gateway.Go.Strconv.{itoa}
use home_rdp_gateway.Go.Net.{join_host_port}
use home_rdp_gateway.Protocol.PktType
use home_rdp_gateway.Protocol.ServerState
use home_rdp_gateway.Protocol.ErrorCode
use home_rdp_gateway.Protocol.Reader.{Message}
use home_rdp_gateway.Protocol.Reader.Reassembly.{Packets, messages}
use home_rdp_gateway.Protocol.Gateway.{Processor, Check, Gateway, Tunnel, TunnelInfo, write}
use home_rdp_gateway.Protocol.Requests
use home_rdp_gateway.Protocol.Responses
use home_rdp_gateway.Protocol.Responses.{caps, match_auth}
use home_rdp_gateway.Protocol.Processor.{
  next, new_processor, respond, connect, answer_auth, run_check, on_handshake, on_tunnel_create,
  on_tunnel_auth, on_channel_create, handle, dispatch, handle_all, requested_host,
}
use home_rdp_gateway.Protocol.Processor.Authorization.{write-rwc}
use home_rdp_gateway.Protocol.Processor.Tracking.{write-info}
use home_rdp_gateway.Protocol.Client.Defs.{
  ClientConfig, client_caps, handshake_request_body, tunnel_request_body, tunnel_auth_request_body,
  channel_request_body,
}
use home_rdp_gateway.Protocol.Client.Requests.{
  IsSendable, tunnel_request-body, tunnel_auth_request-body, channel_request-body,
}

write-sent : (t : Tunnel) (pkt : Bytes) → (write t pkt).sent ≡ t.sent ++ pkt ∷ []
unfolding write
write-sent t pkt = ground arith

-- A check accepts an argument where the fields of the tunnel are these; a check that is nil accepts.
abbrev pub Accepts : Option Check → Text → TunnelInfo → Type 0
Accepts none arg info = Unit
Accepts (some check) arg info = (check arg info).0 ≡ true

-- The fields that a check leaves.
abbrev pub checked : Option Check → Text → TunnelInfo → TunnelInfo
checked none arg info = info
checked (some check) arg info = (check arg info).1

run_check-Accepts :
    (c : Option Check) (arg : Text) (p : Processor)
    → Accepts c arg p.tunnel.info
    → ((run_check c arg p).0 ≡ true)
      × ((run_check c arg p).1.state ≡ p.state)
      × ((run_check c arg p).1.gw ≡ p.gw)
      × ((run_check c arg p).1.tunnel.sent ≡ p.tunnel.sent)
      × ((run_check c arg p).1.tunnel.info ≡ checked c arg p.tunnel.info)
unfolding run_check
run_check-Accepts none arg p ok = (refl, refl, refl, refl, refl)
run_check-Accepts (some check) arg p ok = (ok, refl, refl, refl, refl)

client_caps-lt : (c : ClientConfig) → client_caps c < 65536
client_caps-lt c = ground arith

handshake_request-body :
    (c : ClientConfig)
    → let r = Requests.handshake_request (handshake_request_body c) in
      (r.major ≡ 0) × (r.minor ≡ 0) × (r.ext_auth ≡ client_caps c)
unfolding Requests.handshake_request handshake_request_body
handshake_request-body c = (refl, refl, omega (arith, client_caps-lt c))

requested_host-body :
    (c : ClientConfig) (cs : List ℕ)
    → c.server ≡ encode_runes cs
    → IsSendable cs
    → c.port < 65536
    → requested_host (channel_request_body c)
      ≡ join_host_port (encode_runes (trim_nul cs)) (itoa c.port)
unfolding requested_host
requested_host-body c cs e ok h = rw (channel_request-body c cs e ok h)

on_handshake-Answers :
    (p : Processor) (c : ClientConfig) (k : ℕ)
    → p.state ≡ ServerState.initialized
    → match_auth p.gw (client_caps c) ≡ caps k
    → (p' : Processor) × (on_handshake p (handshake_request_body c) ≡ next p')
      × (p'.state ≡ ServerState.handshake)
      × (p'.tunnel.sent
          ≡ p.tunnel.sent ++ Responses.handshake_response 0 0 k ErrorCode.success ∷ [])
      × (p'.gw ≡ p.gw)
      × (p'.tunnel.info ≡ p.tunnel.info)
unfolding on_handshake
on_handshake-Answers p c k e m =
    let here : (p.state == ServerState.initialized) ≡ true = (==_iff _ _).1 e in
    let (major, minor, asked) = handshake_request-body c in
    (
      record (respond p (Responses.handshake_response 0 0 k ErrorCode.success)) {
        state = ServerState.handshake;
      },
      rw (here, asked, m, major, minor),
      refl,
      write-sent p.tunnel _,
      refl,
      write-info p.tunnel _,
    )

on_tunnel_create-Answers :
    (p : Processor) (msg : Bytes)
    → p.state ≡ ServerState.handshake
    → Accepts p.gw.check_paa_cookie (Requests.tunnel_request msg).1 p.tunnel.info
    → (p' : Processor) × (on_tunnel_create p msg ≡ next p')
      × (p'.state ≡ ServerState.tunnel_create)
      × (p'.tunnel.sent ≡ p.tunnel.sent ++ Responses.tunnel_response ErrorCode.success ∷ [])
      × (p'.gw ≡ p.gw)
      × (p'.tunnel.info
          ≡ checked p.gw.check_paa_cookie (Requests.tunnel_request msg).1 p.tunnel.info)
unfolding on_tunnel_create
on_tunnel_create-Answers p msg e ok =
    let here : (p.state == ServerState.handshake) ≡ true = (==_iff _ _).1 e in
    let (accepted, _, same, kept, left) =
      run_check-Accepts p.gw.check_paa_cookie (Requests.tunnel_request msg).1 p ok in
    (
      record (respond (run_check p.gw.check_paa_cookie (Requests.tunnel_request msg).1 p).1
          (Responses.tunnel_response ErrorCode.success)) { state = ServerState.tunnel_create },
      rw (here, accepted),
      refl,
      write-sent _ _
          ∙ ap (λ (l : List Bytes). l ++ Responses.tunnel_response ErrorCode.success ∷ []) kept,
      same,
      write-info _ _ ∙ left,
    )

on_tunnel_auth-Answers :
    (p : Processor) (msg : Bytes)
    → p.state ≡ ServerState.tunnel_create
    → Accepts p.gw.check_client_name (Requests.tunnel_auth_request msg) p.tunnel.info
    → (p' : Processor) × (on_tunnel_auth p msg ≡ next p')
      × (p'.state ≡ ServerState.tunnel_authorize)
      × (p'.tunnel.sent
          ≡ p.tunnel.sent ++ (Responses.tunnel_auth_response p.gw ErrorCode.success).1 ∷ [])
      × (p'.gw.check_host ≡ p.gw.check_host)
      × (p'.tunnel.info
          ≡ checked p.gw.check_client_name (Requests.tunnel_auth_request msg) p.tunnel.info)
unfolding on_tunnel_auth
on_tunnel_auth-Answers p msg e ok =
    let here : (p.state == ServerState.tunnel_create) ≡ true = (==_iff _ _).1 e in
    let (accepted, _, same, kept, left) =
      run_check-Accepts p.gw.check_client_name (Requests.tunnel_auth_request msg) p ok in
    (
      record (answer_auth (run_check p.gw.check_client_name (Requests.tunnel_auth_request msg) p).1
          ErrorCode.success) { state = ServerState.tunnel_authorize },
      rw (here, accepted),
      refl,
      write-sent _ _
          ∙ ap₂
              (λ (l : List Bytes) (g : Gateway).
                l ++ (Responses.tunnel_auth_response g ErrorCode.success).1 ∷ [])
              kept same,
      unfold Responses.tunnel_auth_response in ap (λ (g : Gateway). g.check_host) same,
      unfold Responses.tunnel_auth_response in write-info _ _ ∙ left,
    )

on_channel_create-Answers :
    (dial : Text → Bool) (p : Processor) (msg : Bytes)
    → p.state ≡ ServerState.tunnel_authorize
    → Accepts p.gw.check_host (requested_host msg) p.tunnel.info
    → dial (requested_host msg) ≡ true
    → (p' : Processor) × (on_channel_create dial p msg ≡ next p')
      × (p'.state ≡ ServerState.channel_create)
      × (p'.tunnel.sent ≡ p.tunnel.sent ++ Responses.channel_response ErrorCode.success ∷ [])
      × (p'.tunnel.rwc ≡ some (record { peer = requested_host msg; written = [] }))
unfolding on_channel_create
on_channel_create-Answers dial p msg e ok reached =
    let here : (p.state == ServerState.tunnel_authorize) ≡ true = (==_iff _ _).1 e in
    let (accepted, _, same, kept, left) =
      run_check-Accepts p.gw.check_host (requested_host msg) p ok in
    (
      record (respond
          (connect (run_check p.gw.check_host (requested_host msg) p).1 (requested_host msg))
          (Responses.channel_response ErrorCode.success)) { state = ServerState.channel_create },
      rw (here, accepted, reached),
      refl,
      write-sent _ _
          ∙ ap (λ (l : List Bytes). l ++ Responses.channel_response ErrorCode.success ∷ []) kept,
      write-rwc _ _,
    )

-- The packets with which a client opens a session.
abbrev pub opening : ClientConfig → Packets
opening c =
    (PktType.handshake_request, handshake_request_body c)
    ∷ (PktType.tunnel_create, tunnel_request_body c)
    ∷ (PktType.tunnel_auth, tunnel_auth_request_body c)
    ∷ (PktType.channel_create, channel_request_body c)
    ∷ []

-- What the gateway must agree to for a client whose token, name and server are the code points `ts`,
-- `ns` and `cs`, when the fields of its tunnel are `info`; `k` are the capabilities that are negotiated. Each check is
-- asked with the fields that the one before it left.
pub record Agrees (dial : Text → Bool) (gw : Gateway) (info : TunnelInfo) (c : ClientConfig)
    (ts ns cs : List ℕ) (k : ℕ) : Type 0 where
  pub negotiated : match_auth gw (client_caps c) ≡ caps k
  pub cookie_ok : Accepts gw.check_paa_cookie (encode_runes (trim_nul ts)) info
  pub name_ok :
      Accepts gw.check_client_name
        (encode_runes (trim_nul ns))
        (checked gw.check_paa_cookie (encode_runes (trim_nul ts)) info)
  pub host_ok : Accepts gw.check_host (join_host_port (encode_runes (trim_nul cs)) (itoa c.port)) (
      checked gw.check_client_name
        (encode_runes (trim_nul ns))
        (checked gw.check_paa_cookie (encode_runes (trim_nul ts)) info))
  pub reachable : dial (join_host_port (encode_runes (trim_nul cs)) (itoa c.port)) ≡ true

-- The client's texts and how they are spelled in code points.
pub record Spells (c : ClientConfig) (ts ns cs : List ℕ) : Type 0 where
  pub token : c.paa_token ≡ encode_runes ts
  pub name : c.name ≡ encode_runes ns
  pub server : c.server ≡ encode_runes cs
  pub token_fits : IsSendable ts
  pub name_fits : IsSendable ns
  pub server_fits : IsSendable cs
  pub port_fits : c.port < 65536

handle_all-next :
    (dial : Text → Bool) (p p' : Processor) (m : Message) (ms : List Message)
    → handle dial p m ≡ next p'
    → handle_all dial p (m ∷ ms) ≡ handle_all dial p' ms
unfolding handle_all
handle_all-next dial p p' m ms e = rw (e, handle_all)

handle_all-opening :
    (dial : Text → Bool) (p1 p2 p3 p4 p : Processor) (c : ClientConfig)
    → on_handshake p (handshake_request_body c) ≡ next p1
    → on_tunnel_create p1 (tunnel_request_body c) ≡ next p2
    → on_tunnel_auth p2 (tunnel_auth_request_body c) ≡ next p3
    → on_channel_create dial p3 (channel_request_body c) ≡ next p4
    → handle_all dial p (messages (opening c)) ≡ next p4
unfolding handle dispatch
handle_all-opening dial p1 p2 p3 p4 p c e1 e2 e3 e4 =
    handle_all-next dial p p1 _ _ e1
    ∙ (handle_all-next dial p1 p2 _ _ e2
        ∙ (handle_all-next dial p2 p3 _ _ e3
            ∙ (handle_all-next dial p3 p4 _ _ e4 ∙ unfold handle_all in refl)))

sent_in_order :
    (s0 s1 s2 s3 s4 : List Bytes) (a b c d : Bytes)
    → s1 ≡ s0 ++ a ∷ []
    → s2 ≡ s1 ++ b ∷ []
    → s3 ≡ s2 ++ c ∷ []
    → s4 ≡ s3 ++ d ∷ []
    → s4 ≡ (((s0 ++ a ∷ []) ++ b ∷ []) ++ c ∷ []) ++ d ∷ []
sent_in_order s0 s1 s2 s3 s4 a b c d e1 e2 e3 e4 = cc

-- A gateway that agrees to what a client asks for, each check with the tunnel fields that the one before it left, and that
-- can reach the server, takes in one go the four requests of a client whose texts its messages can hold: the channel is created, its connection leads to the server and port that the
-- client named, and the four answers are the ones for success, with the capabilities that were
-- negotiated and the redirection flags and timeout of the gateway.
pub opening-channel_create :
    (dial : Text → Bool) (gw : Gateway) (t : Tunnel) (c : ClientConfig) (ts ns cs : List ℕ) (k : ℕ)
    → Spells c ts ns cs
    → Agrees dial gw t.info c ts ns cs k
    → (p : Processor) × (handle_all dial (new_processor gw t) (messages (opening c)) ≡ next p)
      × (p.state ≡ ServerState.channel_create)
      × (p.tunnel.rwc
          ≡ some (record {
            peer = join_host_port (encode_runes (trim_nul cs)) (itoa c.port);
            written = [];
          }))
      × (p.tunnel.sent
          ≡ (((t.sent ++ Responses.handshake_response 0 0 k ErrorCode.success ∷ [])
                ++ Responses.tunnel_response ErrorCode.success ∷ [])
              ++ (Responses.tunnel_auth_response gw ErrorCode.success).1 ∷ [])
            ++ Responses.channel_response ErrorCode.success ∷ [])
unfolding new_processor
opening-channel_create dial gw t c ts ns cs k sp ag =
    let p = new_processor gw t in
    let token = ap (λ (r : ℕ × Text). r.1) (tunnel_request-body c ts sp.token sp.token_fits) in
    let name = tunnel_auth_request-body c ns sp.name sp.name_fits in
    let host = requested_host-body c cs sp.server sp.server_fits sp.port_fits in
    let (p1, e1, s1, o1, g1, i1) = on_handshake-Answers p c k refl ag.negotiated in
    let (p2, e2, s2, o2, g2, j2) =
      on_tunnel_create-Answers p1 (tunnel_request_body c) s1 (rw (g1, token, i1) ag.cookie_ok) in
    let i2 : p2.tunnel.info ≡ checked gw.check_paa_cookie (encode_runes (trim_nul ts)) t.info =
      j2 ∙ rw (g1, token, i1) refl in
    let g12 : p2.gw ≡ gw = g2 ∙ g1 in
    let (p3, e3, s3, o3, g3, j3) =
      on_tunnel_auth-Answers p2 (tunnel_auth_request_body c) s2 (rw (g12, name, i2) ag.name_ok) in
    let i3 =
      j3
      ∙ ap₂
          (λ (g : Gateway) (i : TunnelInfo).
            checked g.check_client_name (Requests.tunnel_auth_request (tunnel_auth_request_body c))
              i)
          g12 i2 in
    let h3 : p3.gw.check_host ≡ gw.check_host = g3 ∙ ap (λ (g : Gateway). g.check_host) g12 in
    let (p4, e4, s4, o4, r4) =
      on_channel_create-Answers dial p3 (channel_request_body c) s3
        (rw (h3, host, i3, name) ag.host_ok) (rw host ag.reachable) in
    (
      p4,
      handle_all-opening dial p1 p2 p3 p4 p c e1 e2 e3 e4,
      s4,
      r4 ∙ ap (λ (x : Text). some (record { peer = x; written = [] })) host,
      sent_in_order _ _ _ _ _ _ _ _ _ o1 o2
          (o3
            ∙ ap
                (λ (g : Gateway).
                  p2.tunnel.sent ++ (Responses.tunnel_auth_response g ErrorCode.success).1 ∷ [])
                g12)
          o4,
    )
