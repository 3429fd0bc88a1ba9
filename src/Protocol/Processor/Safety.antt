-- ===== src/Protocol/Processor/Safety.antt =====
-- Every packet keeps a session authorized, and none makes Process write to a connection that is nil.
use home_rdp_gateway.Base.{
  ℕ, ◌<◌, ◌≤◌, ◌≡◌, refl, sym, ◌∙◌, ◌⊎◌, inl, inr, Bool, true, Option, none, some, List, [], ◌∷◌,
  ◌++◌, ◌==◌, ltb, arith, Bool-cases, ==_iff,
}
use mathlib.Core.Path.{subst}
use home_rdp_gateway.Base.Texts.{Text}
use home_rdp_gateway.Wire.{Bytes}
use home_rdp_gateway.Protocol.ServerState
use home_rdp_gateway.Protocol.ErrorCode
use home_rdp_gateway.Protocol.Reader.{Message}
use home_rdp_gateway.Protocol.Gateway.{Processor, Check, Gateway, Tunnel, Conn, write}
use home_rdp_gateway.Protocol.Requests.{
  tunnel_request, tunnel_auth_request, handshake_request, payload,
}
use home_rdp_gateway.Protocol.Responses.{
  AuthResult, caps, refused, AuthError, match_auth, tunnel_auth_response,
}
use home_rdp_gateway.Protocol.Processor.Authorization.{
  Accepted, AcceptedFor, IsConnected, IsCleared, IsAuthorized, SameChecks, Safe, to_handshake,
  to_tunnel_create, to_tunnel_authorize, to_channel_create, to_later, write-rwc, run_check_same,
  run_check-AcceptedFor, AcceptedFor-Accepted,
}
use home_rdp_gateway.Protocol.Processor.Cases.{dispatch_cases, handle_all_cases}
use home_rdp_gateway.Protocol.Processor.Defs.{
  run_check, on_handshake, on_tunnel_create, on_tunnel_auth, on_channel_create, receive, on_data,
  on_keepalive, on_close_channel, dispatch, handle_all, requested_host, answer_auth,
}

pub AuthResult-cases :
    (r : AuthResult) → ((c : ℕ) × (r ≡ caps c)) ⊎ ((e : AuthError) × (r ≡ refused e))
AuthResult-cases (caps c) = inl (c, refl)
AuthResult-cases (refused e) = inr (e, refl)

module _ (dial : Text → Bool) (gw : Gateway) where
  -- A write to the client leaves the connection.
  written :
      (s : ℕ) (t : Tunnel) (pkt : Bytes)
      → IsCleared dial gw s t.rwc
      → IsCleared dial gw s (write t pkt).rwc
  written s t pkt c = rw (write-rwc t pkt) c

  -- After a check the session is what it was.
  checked :
      (p : Processor) (c : Option Check) (arg : Text)
      → IsAuthorized dial gw p
      → IsAuthorized dial gw (run_check c arg p).1
  checked p c arg a =
      let (s, g, r) = run_check_same c arg p in
      (
        subst (SameChecks gw) (sym g) a.0,
        subst (λ x. IsCleared dial gw x (run_check c arg p).1.tunnel.rwc) (sym s)
            (subst (IsCleared dial gw p.state) (sym r) a.1),
      )

  -- The same, for the state that a test has shown.
  checked_at :
      (s : ℕ) (p : Processor) (c : Option Check) (arg : Text)
      → (p.state == s) ≡ true
      → IsAuthorized dial gw p
      → IsCleared dial gw s (run_check c arg p).1.tunnel.rwc
  checked_at s p c arg here a =
      subst (λ x. IsCleared dial gw x (run_check c arg p).1.tunnel.rwc)
        ((run_check_same c arg p).0 ∙ (==_iff _ _).0 here) (checked p c arg a).1

  on_handshake-Safe :
      (p : Processor) (msg : Bytes) → IsAuthorized dial gw p → Safe dial gw (on_handshake p msg)
  unfolding on_handshake
  on_handshake-Safe p msg (same, c) = elim (Bool-cases (p.state == ServerState.initialized)) [
    | inr other ↦ rw other (same, written p.state p.tunnel _ c)
    | inl first ↦
        let start = subst (λ s. IsCleared dial gw s p.tunnel.rwc) ((==_iff _ _).0 first) c in
        elim (AuthResult-cases (match_auth p.gw (handshake_request msg).ext_auth)) [
          | inl (k, e) ↦
              rw (first, e)
                (same, written ServerState.handshake p.tunnel _ (to_handshake dial gw _ start))
          | inr (x, e) ↦ rw (first, e) (same, written p.state p.tunnel _ c)
        ]
  ]

  on_tunnel_create-Safe :
      (p : Processor) (msg : Bytes) → IsAuthorized dial gw p → Safe dial gw (on_tunnel_create p msg)
  unfolding on_tunnel_create
  on_tunnel_create-Safe p msg a =
      let arg = (tunnel_request msg).1 in
      let check = p.gw.check_paa_cookie in
      let (same, c) = checked p check arg a in
      elim (Bool-cases (p.state == ServerState.handshake)) [
        | inr other ↦ rw other (a.0, written p.state p.tunnel _ a.1)
        | inl here ↦ elim (Bool-cases (run_check check arg p).0) [
          | inr no_cookie ↦ rw (here, no_cookie) (same, written _ _ _ c)
          | inl ok ↦
              let passed : Accepted gw.check_paa_cookie =
                subst Accepted a.0.0
                  (AcceptedFor-Accepted check arg (run_check-AcceptedFor check arg p ok)) in
              rw (here, ok)
                (
                  same,
                  written _ _ _ (
                      to_tunnel_create dial gw _
                        (checked_at ServerState.handshake p check arg here a) passed),
                )
        ]
      ]

  -- The answer to a tunnel authorization keeps the checks of the gateway.
  answered :
      (p : Processor) (code : ℕ) (s : ℕ)
      → SameChecks gw p.gw
      → IsCleared dial gw s p.tunnel.rwc
      → SameChecks gw (answer_auth p code).gw × IsCleared dial gw s (answer_auth p code).tunnel.rwc
  unfolding tunnel_auth_response
  answered p code s same c = (same, written s p.tunnel _ c)

  on_tunnel_auth-Safe :
      (p : Processor) (msg : Bytes) → IsAuthorized dial gw p → Safe dial gw (on_tunnel_auth p msg)
  unfolding on_tunnel_auth
  on_tunnel_auth-Safe p msg a =
      let arg = tunnel_auth_request msg in
      let check = p.gw.check_client_name in
      let (same, c) = checked p check arg a in
      elim (Bool-cases (p.state == ServerState.tunnel_create)) [
        | inr other ↦ rw other (answered p ErrorCode.internal_error p.state a.0 a.1)
        | inl here ↦ elim (Bool-cases (run_check check arg p).0) [
          | inr unknown ↦
              rw (here, unknown)
                (answered (run_check check arg p).1 ErrorCode.access_denied _ same c)
          | inl ok ↦
              let passed : Accepted gw.check_client_name =
                subst Accepted a.0.1
                  (AcceptedFor-Accepted check arg (run_check-AcceptedFor check arg p ok)) in
              rw (here, ok)
                (answered (run_check check arg p).1 ErrorCode.success ServerState.tunnel_authorize
                  same
                  (to_tunnel_authorize dial gw _
                    (checked_at ServerState.tunnel_create p check arg here a) passed))
        ]
      ]

  -- A connection that could not be made leaves none.
  unconnected :
      (s : ℕ) (rwc : Option Conn)
      → s < ServerState.channel_create
      → IsCleared dial gw s rwc
      → IsCleared dial gw s none
  unconnected s rwc early c = subst (IsCleared dial gw s) (c.unconnected early) c

  on_channel_create-Safe :
      (p : Processor) (msg : Bytes)
      → IsAuthorized dial gw p
      → Safe dial gw (on_channel_create dial p msg)
  unfolding on_channel_create
  on_channel_create-Safe p msg a =
      let arg = requested_host msg in
      let check = p.gw.check_host in
      let (same, c) = checked p check arg a in
      elim (Bool-cases (p.state == ServerState.tunnel_authorize)) [
        | inr other ↦ rw other (a.0, written p.state p.tunnel _ a.1)
        | inl here ↦
            let state : (run_check check arg p).1.state ≡ ServerState.tunnel_authorize =
              (run_check_same check arg p).0 ∙ (==_iff _ _).0 here in
            elim (Bool-cases (run_check check arg p).0) [
              | inr denied ↦ rw (here, denied) (same, written _ _ _ c)
              | inl ok ↦ elim (Bool-cases (dial arg)) [
                | inr unreachable ↦
                    rw (here, ok, unreachable)
                      (same, written _ _ _ (unconnected _ _ (omega arith) c))
                | inl reached ↦
                    let passed : IsConnected dial gw (some (record { peer = arg; written = [] })) =
                      record {
                        conn = record { peer = arg; written = [] };
                        open_conn = refl;
                        host_accepted =
                            subst (λ k. AcceptedFor k arg) a.0.2
                              (run_check-AcceptedFor check arg p ok);
                        dialled = reached;
                      } in
                    rw (here, ok, reached)
                      (
                        same,
                        written _ _ _ (
                            to_channel_create dial gw _ _
                              (checked_at ServerState.tunnel_authorize p check arg here a) passed),
                      )
              ]
            ]
      ]

  on_data-Safe :
      (p : Processor) (msg : Bytes) → IsAuthorized dial gw p → Safe dial gw (on_data p msg)
  unfolding on_data receive
  on_data-Safe p msg (same, c) = elim (Bool-cases (ltb p.state ServerState.channel_create)) [
    | inl early ↦ rw early (same, c)
    | inr ready ↦
        let k = c.host (ground arith) in
        rw (ready, k.open_conn)
          (
            same,
            to_later dial gw _ p.state ServerState.opened _ (ground arith) (omega arith) c (record {
              conn = record { peer = k.conn.peer; written = k.conn.written ++ payload msg ∷ [] };
              open_conn = refl;
              host_accepted = k.host_accepted;
              dialled = k.dialled;
            }),
          )
  ]

  on_keepalive-Safe : (p : Processor) → IsAuthorized dial gw p → Safe dial gw (on_keepalive p)
  unfolding on_keepalive
  on_keepalive-Safe p a = elim (Bool-cases (ltb p.state ServerState.channel_create)) [
    | inl early ↦ rw early a
    | inr ready ↦ rw ready a
  ]

  on_close_channel-Safe :
      (p : Processor) → IsAuthorized dial gw p → Safe dial gw (on_close_channel p)
  unfolding on_close_channel
  on_close_channel-Safe p (same, c) = elim (Bool-cases (p.state == ServerState.opened)) [
    | inr other ↦ rw other (same, c)
    | inl here ↦
        let open_state : p.state ≡ ServerState.opened = (==_iff _ _).0 here in
        let late : ServerState.channel_create ≤ p.state = omega arith in
        rw here (
          same,
          written ServerState.closed p.tunnel _ (
              to_later dial gw p.tunnel.rwc p.state ServerState.closed p.tunnel.rwc late
                (omega arith) c (c.host late)),
        )
  ]

  dispatch-Safe :
      (p : Processor) (pt : ℕ) (msg : Bytes)
      → IsAuthorized dial gw p
      → Safe dial gw (dispatch dial p pt msg)
  dispatch-Safe p pt msg a =
      dispatch_cases (λ t s. Safe dial gw s) dial p msg (on_handshake-Safe p msg a)
        (on_tunnel_create-Safe p msg a) (on_tunnel_auth-Safe p msg a)
        (on_channel_create-Safe p msg a) (on_data-Safe p msg a) (on_keepalive-Safe p a)
        (on_close_channel-Safe p a) (λ t. a) pt

  pub handle_all-Safe :
      (ms : List Message) (p : Processor)
      → IsAuthorized dial gw p
      → Safe dial gw (handle_all dial p ms)
  handle_all-Safe = handle_all_cases (Safe dial gw) dial dispatch-Safe
