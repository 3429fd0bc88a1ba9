-- ===== src/Protocol/Processor/Tracking.antt =====
-- What the checks establish about the exported fields of a tunnel, carried from one check to the next and
-- to the connection that is made.
use home_rdp_gateway.Base.{
  ℕ, ◌<◌, ◌≤◌, ◌≡◌, refl, sym, inl, inr, Bool, true, Option, none, some, List, [], ◌∷◌, ◌==◌, ltb,
  arith, Bool-cases, Option-cases, ==_iff, zero, suc,
}
use mathlib.Core.Path.{subst}
use home_rdp_gateway.Base.Texts.{Text}
use home_rdp_gateway.Base.Members.{IsIn}
use home_rdp_gateway.Protocol.PktType
use home_rdp_gateway.Protocol.Processor.Termination.{KeepsTransport, handle_all-KeepsTransport}
use home_rdp_gateway.Base.Outcome.{Outcome, returns, panics, out_of_fuel, ◌>>=◌}
use home_rdp_gateway.Wire.{Bytes}
use home_rdp_gateway.Transport.{Received}
use home_rdp_gateway.Protocol.ServerState
use home_rdp_gateway.Protocol.Reader.{Message, read_message}
use home_rdp_gateway.Protocol.Gateway.{Processor, Check, Gateway, Tunnel, TunnelInfo, Conn, write}
use home_rdp_gateway.Protocol.Requests.{tunnel_request, tunnel_auth_request, handshake_request}
use home_rdp_gateway.Protocol.Responses.{match_auth, tunnel_auth_response}
use home_rdp_gateway.Protocol.Processor.Authorization.{SameChecks, write-rwc, run_check_same}
use home_rdp_gateway.Protocol.Processor.Safety.{AuthResult-cases}
use home_rdp_gateway.Protocol.Processor.Cases.{dispatch_cases, go_on}
use home_rdp_gateway.Protocol.Processor.Defs.{
  Step, next, stop, crash, ProcessError, new_processor, run_check, on_handshake, on_tunnel_create,
  on_tunnel_auth, on_channel_create, receive, on_data, on_keepalive, on_close_channel, dispatch,
  handle, handle_all, requested_host, Ending, proceed, react, process, take_in, tunnel_read,
}

-- The check accepted the argument and turned the fields `i` into `j`; a check that is nil leaves them.
abbrev pub Passes : Option Check → Text → TunnelInfo → TunnelInfo → Type 0
Passes none arg i j = j ≡ i
Passes (some check) arg i j = ((check arg i).0 ≡ true) × (j ≡ (check arg i).1)

run_check-Passes :
    (c : Option Check) (arg : Text) (p : Processor)
    → (run_check c arg p).0 ≡ true
    → Passes c arg p.tunnel.info (run_check c arg p).1.tunnel.info
unfolding run_check
run_check-Passes none arg p h = refl
run_check-Passes (some check) arg p h = (h, refl)

pub write-info : (t : Tunnel) (pkt : Bytes) → (write t pkt).info ≡ t.info
unfolding write
write-info t pkt = ground arith

-- The client sends the message: it is among those that are read from its transport, in one go or after others.
pub data IsRead (m : Message) : List Received → Type 0 where
  now :
      (n : ℕ) (frames rest : List Received) (ms : List Message)
      → read_message n frames ≡ returns (some ms, rest)
      → IsIn m ms
      → IsRead m frames
  later :
      (n : ℕ) (frames rest : List Received) (ms : List Message)
      → read_message n frames ≡ returns (some ms, rest)
      → IsRead m rest
      → IsRead m frames

-- The client sends a request for a tunnel with this cookie.
abbrev pub IsShown : List Received → Text → Type 0
IsShown frames cookie =
    (m : Message) × IsRead m frames
    × (m.packet_type ≡ PktType.tunnel_create)
    × ((tunnel_request m.msg).1 ≡ cookie)

-- `Shown` holds of the cookies that come, `Fresh` of the fields at the start, `Known` after the cookie check, and `Fit` of the address
-- that the host check accepted.
module _ (gw : Gateway) (Shown : Text → Type 0) (Fresh Known : TunnelInfo → Type 0)
    (Fit : Text → Type 0) where
  pub record Guards : Type 0 where
    pub cookie :
        (arg : Text) (i j : TunnelInfo)
        → Shown arg
        → Fresh i
        → Passes gw.check_paa_cookie arg i j
        → Known j
    pub name :
        (arg : Text) (i j : TunnelInfo) → Known i → Passes gw.check_client_name arg i j → Known j
    pub host : (arg : Text) (i j : TunnelInfo) → Known i → Passes gw.check_host arg i j → Fit arg

  abbrev pub IsFit : Option Conn → Type 0
  IsFit none = Unit
  IsFit (some conn) = Fit conn.peer

  -- What is known in a state, of the fields and the connection.
  pub record IsTracked (s : ℕ) (i : TunnelInfo) (rwc : Option Conn) : Type 0 where
    pub fresh : s < ServerState.tunnel_create → Fresh i
    pub known : ServerState.tunnel_create ≤ s → s < ServerState.channel_create → Known i
    pub fit : IsFit rwc

  abbrev Here : Processor → Type 0
  Here p = SameChecks gw p.gw × IsTracked p.state p.tunnel.info p.tunnel.rwc

  abbrev Tracks : Step → Type 0
  Tracks (next p) = Here p
  Tracks (stop p e) = IsFit p.tunnel.rwc
  Tracks crash = Unit

  written :
      (s : ℕ) (t : Tunnel) (pkt : Bytes)
      → IsTracked s t.info t.rwc
      → IsTracked s (write t pkt).info (write t pkt).rwc
  written s t pkt k = rw (write-rwc t pkt, write-info t pkt) k

  IsFit-written : (t : Tunnel) (pkt : Bytes) → IsFit t.rwc → IsFit (write t pkt).rwc
  IsFit-written t pkt k = rw (write-rwc t pkt) k

  IsFit-checked :
      (c : Option Check) (arg : Text) (p : Processor)
      → IsFit p.tunnel.rwc
      → IsFit (run_check c arg p).1.tunnel.rwc
  IsFit-checked c arg p k = rw ((run_check_same c arg p).2) k

  same_checked :
      (c : Option Check) (arg : Text) (p : Processor)
      → SameChecks gw p.gw
      → SameChecks gw (run_check c arg p).1.gw
  same_checked c arg p k = subst (SameChecks gw) (sym (run_check_same c arg p).1) k

  on_handshake-Tracks : (p : Processor) (msg : Bytes) → Here p → Tracks (on_handshake p msg)
  unfolding on_handshake
  on_handshake-Tracks p msg (same, k) = elim (Bool-cases (p.state == ServerState.initialized)) [
    | inr other ↦ rw other (IsFit-written p.tunnel _ k.fit)
    | inl first ↦
        let start : p.state ≡ ServerState.initialized = (==_iff _ _).0 first in
        elim (AuthResult-cases (match_auth p.gw (handshake_request msg).ext_auth)) [
          | inl (c, e) ↦
              rw (first, e)
                (
                  same,
                  written ServerState.handshake p.tunnel _ (record {
                    fresh = λ h. k.fresh (omega arith);
                    known = λ h h'. absurd (omega arith);
                    fit = k.fit;
                  }),
                )
          | inr (x, e) ↦ rw (first, e) (IsFit-written p.tunnel _ k.fit)
        ]
  ]

  module _ (g : Guards) where
    on_tunnel_create-Tracks :
        (p : Processor) (msg : Bytes)
        → Shown (tunnel_request msg).1
        → Here p
        → Tracks (on_tunnel_create p msg)
    unfolding on_tunnel_create
    on_tunnel_create-Tracks p msg shown (same, k) =
        let arg = (tunnel_request msg).1 in
        let check = p.gw.check_paa_cookie in
        elim (Bool-cases (p.state == ServerState.handshake)) [
          | inr other ↦ rw other (IsFit-written p.tunnel _ k.fit)
          | inl here ↦
              let state : p.state ≡ ServerState.handshake = (==_iff _ _).0 here in
              elim (Bool-cases (run_check check arg p).0) [
                | inr denied ↦
                    rw (here, denied) (IsFit-written _ _ (IsFit-checked check arg p k.fit))
                | inl ok ↦
                    let known = g.cookie arg p.tunnel.info _ shown (k.fresh (omega arith)) (
                      subst (λ c. Passes c arg p.tunnel.info (run_check check arg p).1.tunnel.info)
                        same.0 (run_check-Passes check arg p ok)) in
                    rw (here, ok)
                      (
                        same_checked check arg p same,
                        written ServerState.tunnel_create _ _ (record {
                          fresh = λ h. absurd (omega arith);
                          known = λ h h'. known;
                          fit = IsFit-checked check arg p k.fit;
                        }),
                      )
              ]
        ]

    on_tunnel_auth-Tracks : (p : Processor) (msg : Bytes) → Here p → Tracks (on_tunnel_auth p msg)
    unfolding on_tunnel_auth tunnel_auth_response
    on_tunnel_auth-Tracks p msg (same, k) =
        let arg = tunnel_auth_request msg in
        let check = p.gw.check_client_name in
        elim (Bool-cases (p.state == ServerState.tunnel_create)) [
          | inr other ↦ rw other (IsFit-written p.tunnel _ k.fit)
          | inl here ↦
              let state : p.state ≡ ServerState.tunnel_create = (==_iff _ _).0 here in
              elim (Bool-cases (run_check check arg p).0) [
                | inr denied ↦
                    rw (here, denied) (IsFit-written _ _ (IsFit-checked check arg p k.fit))
                | inl ok ↦
                    let known = g.name arg p.tunnel.info _ (k.known (omega arith) (omega arith)) (
                      subst (λ c. Passes c arg p.tunnel.info (run_check check arg p).1.tunnel.info)
                        same.1 (run_check-Passes check arg p ok)) in
                    rw (here, ok)
                      (
                        same_checked check arg p same,
                        written ServerState.tunnel_authorize _ _ (record {
                          fresh = λ h. absurd (omega arith);
                          known = λ h h'. known;
                          fit = IsFit-checked check arg p k.fit;
                        }),
                      )
              ]
        ]

    on_channel_create-Tracks :
        (dial : Text → Bool) (p : Processor) (msg : Bytes)
        → Here p
        → Tracks (on_channel_create dial p msg)
    unfolding on_channel_create
    on_channel_create-Tracks dial p msg (same, k) =
        let arg = requested_host msg in
        let check = p.gw.check_host in
        elim (Bool-cases (p.state == ServerState.tunnel_authorize)) [
          | inr other ↦ rw other (IsFit-written p.tunnel _ k.fit)
          | inl here ↦
              let state : p.state ≡ ServerState.tunnel_authorize = (==_iff _ _).0 here in
              elim (Bool-cases (run_check check arg p).0) [
                | inr denied ↦
                    rw (here, denied) (IsFit-written _ _ (IsFit-checked check arg p k.fit))
                | inl ok ↦ elim (Bool-cases (dial arg)) [
                  | inr unreachable ↦ rw (here, ok, unreachable) (IsFit-written _ _ tt)
                  | inl reached ↦
                      let fit = g.host arg p.tunnel.info _ (k.known (omega arith) (omega arith)) (
                        subst
                          (λ c. Passes c arg p.tunnel.info (run_check check arg p).1.tunnel.info)
                          same.2 (run_check-Passes check arg p ok)) in
                      rw (here, ok, reached)
                        (
                          same_checked check arg p same,
                          written ServerState.channel_create _ _ (record {
                            fresh = λ h. absurd (omega arith);
                            known = λ h h'. absurd (omega arith);
                            fit = fit;
                          }),
                        )
                ]
              ]
        ]

    on_data-Tracks : (p : Processor) (msg : Bytes) → Here p → Tracks (on_data p msg)
    unfolding on_data receive
    on_data-Tracks p msg (same, k) = elim (Bool-cases (ltb p.state ServerState.channel_create)) [
      | inl early ↦ rw early k.fit
      | inr ready ↦ elim (Option-cases p.tunnel.rwc) [
        | inl e ↦ rw (ready, e) tt
        | inr (conn, e) ↦
            rw (ready, e)
              (
                same,
                record {
                  fresh = λ h. absurd (omega arith);
                  known = λ h h'. absurd (omega arith);
                  fit = subst IsFit e k.fit;
                },
              )
      ]
    ]

    on_keepalive-Tracks : (p : Processor) → Here p → Tracks (on_keepalive p)
    unfolding on_keepalive
    on_keepalive-Tracks p (same, k) = elim (Bool-cases (ltb p.state ServerState.channel_create)) [
      | inl early ↦ rw early k.fit
      | inr ready ↦ rw ready (same, k)
    ]

    on_close_channel-Tracks : (p : Processor) → Here p → Tracks (on_close_channel p)
    unfolding on_close_channel
    on_close_channel-Tracks p (same, k) = elim (Bool-cases (p.state == ServerState.opened)) [
      | inl here ↦ rw here (IsFit-written p.tunnel _ k.fit)
      | inr other ↦ rw other k.fit
    ]

    module _ (dial : Text → Bool) where
      dispatch-Tracks :
          (p : Processor) (pt : ℕ) (msg : Bytes)
          → (pt ≡ PktType.tunnel_create → Shown (tunnel_request msg).1)
          → Here p
          → Tracks (dispatch dial p pt msg)
      dispatch-Tracks p pt msg shown h =
          dispatch_cases
            (λ t s. (t ≡ PktType.tunnel_create → Shown (tunnel_request msg).1) → Tracks s) dial p
            msg (λ w. on_handshake-Tracks p msg h) (λ w. on_tunnel_create-Tracks p msg (w refl) h)
            (λ w. on_tunnel_auth-Tracks p msg h) (λ w. on_channel_create-Tracks dial p msg h)
            (λ w. on_data-Tracks p msg h) (λ w. on_keepalive-Tracks p h)
            (λ w. on_close_channel-Tracks p h) (λ t w. h) pt shown

      handle-Tracks :
          (p : Processor) (m : Message)
          → (m.packet_type ≡ PktType.tunnel_create → Shown (tunnel_request m.msg).1)
          → Here p
          → Tracks (handle dial p m)
      unfolding handle
      handle-Tracks p m shown h = elim (Option-cases m.err) [
        | inl e ↦ rw (e, handle) (dispatch-Tracks p m.packet_type m.msg shown h)
        | inr (x, e) ↦ rw (e, handle) h
      ]

      handle_all-Tracks :
          (ms : List Message) (p : Processor)
          → ((m : Message)
              → IsIn m ms
              → m.packet_type ≡ PktType.tunnel_create
              → Shown (tunnel_request m.msg).1)
          → Here p
          → Tracks (handle_all dial p ms)
      unfolding handle_all
      handle_all-Tracks [] p shown h = h
      handle_all-Tracks (m ∷ ms) p shown h =
          go_on Tracks dial (handle dial p m) ms (handle-Tracks p m (shown m (inl refl)) h)
            (λ p' h'. handle_all-Tracks ms p' (λ n k. shown n (inr k)) h')

      abbrev EndsFit : Outcome Ending → Type 0
      EndsFit (returns (p, e)) = IsFit p.tunnel.rwc
      EndsFit panics = Unit
      EndsFit out_of_fuel = Unit

      -- The cookies that are read from a transport are shown.
      abbrev Sees : List Received → Type 0
      Sees frames =
          (m : Message)
          → IsRead m frames
          → m.packet_type ≡ PktType.tunnel_create
          → Shown (tunnel_request m.msg).1

      proceed-EndsFit :
          (again : Processor → Outcome Ending) (s : Step) (rest : List Received)
          → ((p : Processor) → Sees p.tunnel.transport_in → Here p → EndsFit (again p))
          → Sees rest
          → KeepsTransport rest s
          → Tracks s
          → EndsFit (proceed again s)
      unfolding proceed
      proceed-EndsFit again (next p) rest k sees kept h = k p (subst Sees (sym kept) sees) h
      proceed-EndsFit again (stop p e) rest k sees kept h = h
      proceed-EndsFit again crash rest k sees kept h = tt

      read-EndsFit :
          (o : Outcome (Option (List Message) × List Received)) (n : ℕ) (p : Processor)
          (again : Processor → Outcome Ending)
          → read_message n p.tunnel.transport_in ≡ o
          → ((p' : Processor) → Sees p'.tunnel.transport_in → Here p' → EndsFit (again p'))
          → Sees p.tunnel.transport_in
          → Here p
          → EndsFit ((o >>= λ r. returns (take_in p.tunnel r)) >>= react dial again p)
      unfolding react take_in
      read-EndsFit (returns (none, frames)) n p again o k sees (same, h) = h.fit
      read-EndsFit (returns (some ms, rest)) n p again o k sees (same, h) =
          let q = record p { tunnel = (take_in p.tunnel (some ms, rest)).1 } in
          proceed-EndsFit again (handle_all dial q ms) rest k
            (λ m r. sees m (later n p.tunnel.transport_in rest ms o r))
            (handle_all-KeepsTransport dial rest ms q refl)
            (handle_all-Tracks ms q (λ m r. sees m (now n p.tunnel.transport_in rest ms o r))
              (same, h))
      read-EndsFit panics n p again o k sees a = tt
      read-EndsFit out_of_fuel n p again o k sees a = tt

      process-EndsFit :
          (fuel : ℕ) (p : Processor)
          → Sees p.tunnel.transport_in
          → Here p
          → EndsFit (process dial fuel p)
      unfolding process tunnel_read
      process-EndsFit zero p sees a = tt
      process-EndsFit (suc fuel) p sees a =
          read-EndsFit (read_message _ p.tunnel.transport_in) _ p (process dial fuel) refl
            (process-EndsFit fuel) sees a

      -- A session that starts without a connection, with fresh fields, ends with none or with one that
      -- leads to a fit address.
      pub process-fit :
          (t : Tunnel) (fuel : ℕ) (p : Processor) (e : Option ProcessError) (conn : Conn)
          → t.rwc ≡ none
          → Sees t.transport_in
          → Fresh t.info
          → process dial fuel (new_processor gw t) ≡ returns (p, e)
          → p.tunnel.rwc ≡ some conn
          → Fit conn.peer
      unfolding new_processor
      process-fit t fuel p e conn unconnected sees start ended open_conn = subst IsFit open_conn (
          subst EndsFit ended (
            process-EndsFit fuel (new_processor gw t) sees (
              (refl, refl, refl),
              record {
                fresh = λ h. start;
                known = λ h h'. absurd (omega arith);
                fit = subst IsFit (sym unconnected) tt;
              },
            )))
