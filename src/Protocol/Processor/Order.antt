-- ===== src/Protocol/Processor/Order.antt =====
-- The order in which a session goes through its states.
use home_rdp_gateway.Base.{ℕ, zero, suc, ◌≤◌, ◌≡◌, refl, ◌⊎◌, inl, Bool, Option, none, some, arith}
use home_rdp_gateway.Base.Texts.{Text}
use home_rdp_gateway.Wire.{Bytes}
use home_rdp_gateway.Protocol.PktType
use home_rdp_gateway.Protocol.ServerState
use home_rdp_gateway.Protocol.Gateway.{Processor, Check}
use home_rdp_gateway.Protocol.Requests.{tunnel_request, tunnel_auth_request}
use home_rdp_gateway.Protocol.Processor.Cases.{dispatch_cases}
use home_rdp_gateway.Protocol.Processor.Defs.{
  Step, next, stop, crash, run_check, on_handshake, on_tunnel_create, on_tunnel_auth,
  on_channel_create, receive, on_data, on_keepalive, on_close_channel, dispatch, requested_host,
}

-- The packet that leads out of a state.
abbrev pub awaited : ℕ → ℕ
awaited zero = PktType.handshake_request
awaited (suc zero) = PktType.tunnel_create
awaited (suc (suc zero)) = PktType.tunnel_auth
awaited (suc (suc (suc zero))) = PktType.channel_create
awaited (suc (suc (suc (suc s)))) = PktType.data_packet

-- The state stays, or moves up by one on the packet that it awaits; only a return leaves `opened`.
abbrev pub Advances : ℕ → ℕ → Step → Type 0
Advances pt s (next p) =
    ((p.state ≡ s) ⊎ ((p.state ≡ suc s) × (pt ≡ awaited s))) × (p.state ≤ ServerState.opened)
Advances pt s (stop p none) = (s ≡ ServerState.opened) × (p.state ≡ ServerState.closed)
Advances pt s (stop p (some e)) = p.state ≡ s
Advances pt s crash = Unit

run_check-state :
    (c : Option Check) (arg : Text) (p : Processor) → (run_check c arg p).1.state ≡ p.state
unfolding run_check
run_check-state none arg p = refl
run_check-state (some check) arg p = refl

on_handshake-Advances :
    (p : Processor) (msg : Bytes)
    → p.state ≤ ServerState.opened
    → Advances PktType.handshake_request p.state (on_handshake p msg)
unfolding on_handshake
on_handshake-Advances p msg h = ground arith

on_tunnel_create-Advances :
    (p : Processor) (msg : Bytes)
    → p.state ≤ ServerState.opened
    → Advances PktType.tunnel_create p.state (on_tunnel_create p msg)
unfolding on_tunnel_create
on_tunnel_create-Advances p msg h =
    ground (arith, run_check-state p.gw.check_paa_cookie (tunnel_request msg).1 p)

on_tunnel_auth-Advances :
    (p : Processor) (msg : Bytes)
    → p.state ≤ ServerState.opened
    → Advances PktType.tunnel_auth p.state (on_tunnel_auth p msg)
unfolding on_tunnel_auth
on_tunnel_auth-Advances p msg h =
    ground (arith, run_check-state p.gw.check_client_name (tunnel_auth_request msg) p)

on_data-Advances :
    (p : Processor) (msg : Bytes)
    → p.state ≤ ServerState.opened
    → Advances PktType.data_packet p.state (on_data p msg)
unfolding on_data receive
on_data-Advances p msg h = ground arith

on_keepalive-Advances :
    (p : Processor)
    → p.state ≤ ServerState.opened
    → Advances PktType.keepalive p.state (on_keepalive p)
unfolding on_keepalive
on_keepalive-Advances p h = ground arith

on_close_channel-Advances :
    (p : Processor)
    → p.state ≤ ServerState.opened
    → Advances PktType.close_channel p.state (on_close_channel p)
unfolding on_close_channel
on_close_channel-Advances p h = ground arith

module _ (dial : Text → Bool) where
  on_channel_create-Advances :
      (p : Processor) (msg : Bytes)
      → p.state ≤ ServerState.opened
      → Advances PktType.channel_create p.state (on_channel_create dial p msg)
  unfolding on_channel_create
  on_channel_create-Advances p msg h =
      ground (arith, run_check-state p.gw.check_host (requested_host msg) p)

  -- Whatever packet comes, the session stays in its state, or goes to the next state on the very packet
  -- that its state awaits, or ends: with no error only by leaving `opened` for `closed`, with an error
  -- in the state it was in.
  pub dispatch-Advances :
      (p : Processor) (pt : ℕ) (msg : Bytes)
      → p.state ≤ ServerState.opened
      → Advances pt p.state (dispatch dial p pt msg)
  dispatch-Advances p pt msg h =
      dispatch_cases (λ t s. Advances t p.state s) dial p msg (on_handshake-Advances p msg h)
        (on_tunnel_create-Advances p msg h) (on_tunnel_auth-Advances p msg h)
        (on_channel_create-Advances p msg h) (on_data-Advances p msg h) (on_keepalive-Advances p h)
        (on_close_channel-Advances p h) (λ t. (inl refl, h)) pt
