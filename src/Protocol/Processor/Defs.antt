-- ===== src/Protocol/Processor/Defs.antt =====
-- Processor.Process, a function for each case of its switch.
use home_rdp_gateway.Base.{
  ℕ, zero, suc, ◌+◌, Bool, true, Option, none, some, List, [], ◌∷◌, ◌++◌, ◌==◌, ltb, if◌then◌else◌,
}
use home_rdp_gateway.Base.Outcome.{Outcome, returns, panics, out_of_fuel, ◌>>=◌}
use home_rdp_gateway.Base.Texts.{Text}
use home_rdp_gateway.Wire.{Bytes}
use home_rdp_gateway.Go.Strconv.{itoa}
use home_rdp_gateway.Go.Net.{join_host_port}
use home_rdp_gateway.Transport.{Received}
use home_rdp_gateway.Protocol.PktType
use home_rdp_gateway.Protocol.ServerState
use home_rdp_gateway.Protocol.ErrorCode
use home_rdp_gateway.Protocol.Reader.{Message, read_message, weight}
use home_rdp_gateway.Protocol.Gateway.{Check, Gateway, Tunnel, TunnelInfo, Processor, int64, write}
use home_rdp_gateway.Protocol.Responses.{
  AuthError, caps, refused, match_auth, handshake_response, tunnel_response, tunnel_auth_response,
  channel_response, channel_close_response,
}
use home_rdp_gateway.Protocol.Requests.{
  handshake_request, tunnel_request, tunnel_auth_request, channel_request, payload,
}

-- The errors that Process returns; `rejected` is one that names the code sent.
pub data ProcessError : Type 0 where
  rejected : ℕ → ProcessError
  auth : AuthError → ProcessError
  wrong_state dial_failed read_error : ProcessError

-- How the handling of a message ends: Process goes on, returns, or panics.
pub data Step : Type 0 where
  next : Processor → Step
  stop : Processor → Option ProcessError → Step
  crash : Step

unfoldable pub new_processor : Gateway → Tunnel → Processor
new_processor gw tunnel = record { gw = gw; state = ServerState.initialized; tunnel = tunnel }

abbrev pub respond : Processor → Bytes → Processor
respond p pkt = record p { tunnel = write p.tunnel pkt }

abbrev pub refuse : Processor → Bytes → ProcessError → Step
refuse p pkt e = stop (respond p pkt) (some e)

abbrev pub with_info : Processor → TunnelInfo → Processor
with_info p info = record p { tunnel = record (p.tunnel) { info = info } }

-- A check that is nil accepts.
unfoldable pub run_check : Option Check → Text → Processor → Bool × Processor
run_check none arg p = (true, p)
run_check (some check) arg p = let (ok, info) = check arg p.tunnel.info in (ok, with_info p info)

unfoldable pub on_handshake : Processor → Bytes → Step
on_handshake p msg =
    let r = handshake_request msg in
    if p.state == ServerState.initialized
    then elim (match_auth p.gw r.ext_auth) [
      | refused e ↦ refuse p (handshake_response 0 0 0 ErrorCode.capability_mismatch) (auth e)
      | caps c ↦ next (record (respond p (handshake_response r.major r.minor c ErrorCode.success)) {
        state = ServerState.handshake;
      })
    ]
    else refuse p (handshake_response 0 0 0 ErrorCode.internal_error)
        (rejected ErrorCode.internal_error)

unfoldable pub on_tunnel_create : Processor → Bytes → Step
on_tunnel_create p msg =
    let (ok, p') = run_check p.gw.check_paa_cookie (tunnel_request msg).1 p in
    if p.state == ServerState.handshake
    then (if ok
        then next (record (respond p' (tunnel_response ErrorCode.success)) {
          state = ServerState.tunnel_create;
        })
        else refuse p' (tunnel_response ErrorCode.cookie_authentication_access_denied)
            (rejected ErrorCode.cookie_authentication_access_denied))
    else refuse p (tunnel_response ErrorCode.internal_error) (rejected ErrorCode.internal_error)

-- The answer to a tunnel authorization also fixes a negative timeout of the gateway.
abbrev pub answer_auth : Processor → ℕ → Processor
answer_auth p code =
    let (gw, pkt) = tunnel_auth_response p.gw code in record (respond p pkt) { gw = gw }

unfoldable pub on_tunnel_auth : Processor → Bytes → Step
on_tunnel_auth p msg =
    let (ok, p') = run_check p.gw.check_client_name (tunnel_auth_request msg) p in
    if p.state == ServerState.tunnel_create
    then (if ok
        then next
            (record (answer_auth p' ErrorCode.success) { state = ServerState.tunnel_authorize })
        else stop (answer_auth p' ErrorCode.access_denied)
            (some (rejected ErrorCode.access_denied)))
    else stop (answer_auth p ErrorCode.internal_error) (some (rejected ErrorCode.internal_error))

-- The address that a channel request names.
unfoldable pub requested_host : Bytes → Text
requested_host msg = let (server, port) = channel_request msg in join_host_port server (itoa port)

abbrev pub connect : Processor → Text → Processor
connect p host = record p {
  tunnel = record (p.tunnel) {
    info = record (p.tunnel.info) { target_server = host };
    rwc = some (record { peer = host; written = [] });
  };
}

abbrev pub disconnect : Processor → Processor
disconnect p = record p { tunnel = record (p.tunnel) { rwc = none } }

module _ (dial : Text → Bool) where
  unfoldable pub on_channel_create : Processor → Bytes → Step
  on_channel_create p msg =
      let host = requested_host msg in
      let (ok, p') = run_check p.gw.check_host host p in
      if p.state == ServerState.tunnel_authorize
      then (if ok
          then (if dial host
              then next (record (respond (connect p' host) (channel_response ErrorCode.success)) {
                state = ServerState.channel_create;
              })
              else refuse (disconnect p') (channel_response ErrorCode.internal_error) dial_failed)
          else refuse p' (channel_response ErrorCode.rap_access_denied)
              (rejected ErrorCode.rap_access_denied))
      else refuse p (channel_response ErrorCode.internal_error) (rejected ErrorCode.internal_error)

-- `receive`: a write to a connection that is nil panics.
unfoldable pub receive : Processor → Bytes → Step
receive p msg = elim p.tunnel.rwc [
  | none ↦ crash
  | some conn ↦ next (record p {
    tunnel = record (p.tunnel) {
      rwc = some (record conn { written = conn.written ++ payload msg ∷ [] });
    };
  })
]

unfoldable pub on_data : Processor → Bytes → Step
on_data p msg =
    if ltb p.state ServerState.channel_create
    then stop p (some wrong_state)
    else receive (record p { state = ServerState.opened }) msg

unfoldable pub on_keepalive : Processor → Step
on_keepalive p =
    if ltb p.state ServerState.channel_create then stop p (some wrong_state) else next p

unfoldable pub on_close_channel : Processor → Step
on_close_channel p =
    if p.state == ServerState.opened
    then stop
        (record (respond p (channel_close_response ErrorCode.success)) {
          state = ServerState.closed;
        })
        none
    else stop p (some wrong_state)

module _ (dial : Text → Bool) where
  -- The switch; the last branch is `default`.
  unfoldable pub dispatch : Processor → ℕ → Bytes → Step
  dispatch p pt msg =
      if pt == PktType.handshake_request
      then on_handshake p msg
      else if pt == PktType.tunnel_create
      then on_tunnel_create p msg
      else if pt == PktType.tunnel_auth
      then on_tunnel_auth p msg
      else if pt == PktType.channel_create
      then on_channel_create dial p msg
      else if pt == PktType.data_packet
      then on_data p msg
      else if pt == PktType.keepalive
      then on_keepalive p
      else if pt == PktType.close_channel
      then on_close_channel p
      else next p

  -- A message whose read failed is passed over.
  unfoldable pub handle : Processor → Message → Step
  handle p m = elim m.err [ some e ↦ next p | none ↦ dispatch p m.packet_type m.msg ]

  -- `for _, message := range messages`.
  unfoldable pub handle_all : Processor → List Message → Step
  handle_all p [] = next p
  handle_all p (m ∷ ms) = elim (handle p m) [
    | next p' ↦ handle_all p' ms
    | stop p' e ↦ stop p' e
    | crash ↦ crash
  ]

-- Tunnel.Read: the messages, or `none` for an error, and the tunnel after it. The rounds given to
-- readMessage are enough (Reader/Progress), unless a frame is larger than its buffer.
count_received : ℕ → List Message → ℕ
count_received n [] = n
count_received n (m ∷ ms) = count_received (int64 (n + m.length)) ms

unfoldable pub take_in :
    Tunnel → Option (List Message) × List Received → Option (List Message) × Tunnel
unfolding count_received
take_in t (none, frames) = (none, record t { transport_in = frames })
take_in t (some ms, frames) = (
  some ms,
  record t { transport_in = frames; bytes_received = count_received t.bytes_received ms },
)

unfoldable pub tunnel_read : Tunnel → Outcome (Option (List Message) × Tunnel)
tunnel_read t =
    read_message (suc (weight t.transport_in)) t.transport_in >>= λ r. returns (take_in t r)

-- How a run of Process ends: with the processor and the error, `none` after a channel close.
abbrev pub Ending : Type 0
Ending = Processor × Option ProcessError

unfoldable pub proceed : (Processor → Outcome Ending) → Step → Outcome Ending
proceed again (next p) = again p
proceed again (stop p e) = returns (p, e)
proceed again crash = panics

module _ (dial : Text → Bool) where
  -- One round of Process, on what was read; `again` is the next round.
  unfoldable pub react :
      (Processor → Outcome Ending) → Processor → Option (List Message) × Tunnel → Outcome Ending
  react again p (none, t) = returns (record p { tunnel = t }, some read_error)
  react again p (some ms, t) = proceed again (handle_all dial (record p { tunnel = t }) ms)

  -- Process, on fuel: a round for each read of the tunnel.
  unfoldable pub process : ℕ → Processor → Outcome Ending
  process zero p = out_of_fuel
  process (suc fuel) p = tunnel_read p.tunnel >>= react (process fuel) p
