-- ===== src/Protocol/Processor/Session.antt =====
-- A whole session: Process from its start, over what the transport brings.
use home_rdp_gateway.Base.{
  ℕ, zero, suc, ◌≤◌, ◌≡◌, ◌≢◌, refl, sym, inl, inr, Bool, true, Option, none, some, List, ltb,
  ltb→lt, arith, Bool-cases,
}
use mathlib.Core.Path.{subst}
use home_rdp_gateway.Base.Outcome.{Outcome, returns, panics, out_of_fuel, ◌>>=◌}
use home_rdp_gateway.Base.Texts.{Text}
use home_rdp_gateway.Transport.{Received}
use home_rdp_gateway.Protocol.ServerState
use home_rdp_gateway.Protocol.Reader.{Message, read_message}
use home_rdp_gateway.Protocol.Gateway.{Processor, Gateway, Tunnel, Conn}
use home_rdp_gateway.Protocol.Processor.Authorization.{
  Accepted, AcceptedFor, IsCleared, IsAuthorized, Safe,
}
use home_rdp_gateway.Protocol.Processor.Safety.{handle_all-Safe}
use home_rdp_gateway.Protocol.Processor.Defs.{
  Step, next, stop, crash, ProcessError, new_processor, Ending, proceed, react, process, take_in,
  tunnel_read, handle_all,
}

take_in-rwc : (t : Tunnel) (r : Option (List Message) × List Received) → (take_in t r).1.rwc ≡ t.rwc
unfolding take_in
take_in-rwc t (none, frames) = refl
take_in-rwc t (some ms, frames) = refl

module _ (dial : Text → Bool) (gw : Gateway) where
  -- Where a run ends, it ends authorized.
  abbrev pub EndsSafe : Outcome Ending → Type 0
  EndsSafe (returns (p, e)) = IsAuthorized dial gw p
  EndsSafe panics = Unit
  EndsSafe out_of_fuel = Unit

  proceed-EndsSafe :
      (again : Processor → Outcome Ending) (s : Step)
      → ((p : Processor) → IsAuthorized dial gw p → EndsSafe (again p))
      → Safe dial gw s
      → EndsSafe (proceed again s)
  unfolding proceed
  proceed-EndsSafe again (next p) k h = k p h
  proceed-EndsSafe again (stop p e) k h = h
  proceed-EndsSafe again crash k h = tt

  react-EndsSafe :
      (again : Processor → Outcome Ending) (p : Processor) (r : Option (List Message) × Tunnel)
      → r.1.rwc ≡ p.tunnel.rwc
      → ((p' : Processor) → IsAuthorized dial gw p' → EndsSafe (again p'))
      → IsAuthorized dial gw p
      → EndsSafe (react dial again p r)
  unfolding react
  react-EndsSafe again p (none, t) kept k (same, c) =
      (same, subst (IsCleared dial gw p.state) (sym kept) c)
  react-EndsSafe again p (some ms, t) kept k (same, c) = proceed-EndsSafe again _ k (
      handle_all-Safe dial gw ms (record p { tunnel = t })
        (same, subst (IsCleared dial gw p.state) (sym kept) c))

  read-EndsSafe :
      (o : Outcome (Option (List Message) × List Received)) (p : Processor)
      (again : Processor → Outcome Ending)
      → ((p' : Processor) → IsAuthorized dial gw p' → EndsSafe (again p'))
      → IsAuthorized dial gw p
      → EndsSafe ((o >>= λ r. returns (take_in p.tunnel r)) >>= react dial again p)
  read-EndsSafe (returns r) p again k a =
      react-EndsSafe again p (take_in p.tunnel r) (take_in-rwc p.tunnel r) k a
  read-EndsSafe panics p again k a = tt
  read-EndsSafe out_of_fuel p again k a = tt

  process-EndsSafe :
      (fuel : ℕ) (p : Processor) → IsAuthorized dial gw p → EndsSafe (process dial fuel p)
  unfolding process tunnel_read
  process-EndsSafe zero p a = tt
  process-EndsSafe (suc fuel) p a =
      read-EndsSafe (read_message _ p.tunnel.transport_in) p (process dial fuel)
        (process-EndsSafe fuel) a

  new_processor-IsAuthorized :
      (t : Tunnel) → t.rwc ≡ none → IsAuthorized dial gw (new_processor gw t)
  unfolding new_processor
  new_processor-IsAuthorized t fresh = (
    (refl, refl, refl),
    record {
      cookie = λ h. absurd (omega arith);
      name = λ h. absurd (omega arith);
      host = λ h. absurd (omega arith);
      unconnected = λ h. fresh;
    },
  )

  -- A cleared session with a connection has passed all checks.
  connected_passed :
      (s : ℕ) (rwc : Option Conn) (conn : Conn)
      → IsCleared dial gw s rwc
      → rwc ≡ some conn
      → Accepted gw.check_paa_cookie
        × Accepted gw.check_client_name
        × AcceptedFor gw.check_host conn.peer
        × (dial conn.peer ≡ true)
  connected_passed s rwc conn c e = elim (Bool-cases (ltb s ServerState.channel_create)) [
    | inl early ↦ let gone = c.unconnected (ltb→lt _ _ early) in cc
    | inr late ↦
        let ready : ServerState.channel_create ≤ s = ground arith in
        let k = c.host ready in
        let same : k.conn ≡ conn = ground (arith, k.open_conn) in
        (
          c.cookie (omega arith),
          c.name (omega arith),
          subst (λ (x : Conn). AcceptedFor gw.check_host x.peer) same k.host_accepted,
          subst (λ (x : Conn). dial x.peer ≡ true) same k.dialled,
        )
  ]

-- Whatever a client sends, over whatever transport: if a session that started with no connection ends
-- with a connection to a remote desktop server, then the cookie check accepted a cookie, the name check
-- accepted a client name, the host check accepted the address that the connection leads to, and that
-- address was dialled. A check that is nil counts as accepting.
pub process-connected :
    (dial : Text → Bool) (gw : Gateway) (t : Tunnel) (fuel : ℕ) (p : Processor)
    (e : Option ProcessError) (conn : Conn)
    → t.rwc ≡ none
    → process dial fuel (new_processor gw t) ≡ returns (p, e)
    → p.tunnel.rwc ≡ some conn
    → Accepted gw.check_paa_cookie
      × Accepted gw.check_client_name
      × AcceptedFor gw.check_host conn.peer
      × (dial conn.peer ≡ true)
process-connected dial gw t fuel p e conn fresh ended open_conn =
    connected_passed dial gw p.state p.tunnel.rwc conn
      (subst (EndsSafe dial gw) ended (
        process-EndsSafe dial gw fuel (new_processor gw t)
          (new_processor-IsAuthorized dial gw t fresh))).1
      open_conn

-- No sequence of messages, however wrong, makes a session that starts with no connection write to a
-- connection that is nil.
pub handle_all-ne-crash :
    (dial : Text → Bool) (gw : Gateway) (t : Tunnel) (ms : List Message)
    → t.rwc ≡ none
    → handle_all dial (new_processor gw t) ms ≢ crash
handle_all-ne-crash dial gw t ms fresh = λ e.
    subst (Safe dial gw) e
      (handle_all-Safe dial gw ms (new_processor gw t) (new_processor-IsAuthorized dial gw t fresh))
