-- ===== src/Protocol/Processor/Authorization.antt =====
-- What a session has passed when it is in a state: the checks of the gateway.
use home_rdp_gateway.Base.{ℕ, ◌<◌, ◌≤◌, ◌≡◌, refl, Bool, true, Option, none, some, arith}
use home_rdp_gateway.Base.Texts.{Text}
use home_rdp_gateway.Wire.{Bytes}
use home_rdp_gateway.Protocol.ServerState
use home_rdp_gateway.Protocol.Gateway.{Processor, Check, Gateway, Tunnel, TunnelInfo, Conn, write}
use home_rdp_gateway.Protocol.Processor.Defs.{Step, next, stop, crash, run_check}

-- The check accepted the argument, in some state of the tunnel; a check that is nil accepts.
abbrev pub AcceptedFor : Option Check → Text → Type 0
AcceptedFor none arg = Unit
AcceptedFor (some check) arg = (info : TunnelInfo) × ((check arg info).0 ≡ true)

abbrev pub Accepted : Option Check → Type 0
Accepted none = Unit
Accepted (some check) = (arg : Text) × AcceptedFor (some check) arg

-- The three checks are the same.
abbrev pub SameChecks : Gateway → Gateway → Type 0
SameChecks gw g =
    (g.check_paa_cookie ≡ gw.check_paa_cookie)
    × (g.check_client_name ≡ gw.check_client_name)
    × (g.check_host ≡ gw.check_host)

module _ (dial : Text → Bool) where
  -- An open connection leads to an address that the host check accepted and that was dialled.
  pub record IsConnected (gw : Gateway) (rwc : Option Conn) : Type 0 where
    pub conn : Conn
    pub open_conn : rwc ≡ some conn
    pub host_accepted : AcceptedFor gw.check_host conn.peer
    pub dialled : dial conn.peer ≡ true

  -- Each state stands for the checks that led to it.
  pub record IsCleared (gw : Gateway) (state : ℕ) (rwc : Option Conn) : Type 0 where
    pub cookie : ServerState.tunnel_create ≤ state → Accepted gw.check_paa_cookie
    pub name : ServerState.tunnel_authorize ≤ state → Accepted gw.check_client_name
    pub host : ServerState.channel_create ≤ state → IsConnected gw rwc
    pub unconnected : state < ServerState.channel_create → rwc ≡ none

  -- A session that began with the gateway `gw` has kept its checks and is cleared for its state.
  abbrev pub IsAuthorized : Gateway → Processor → Type 0
  IsAuthorized gw p = SameChecks gw p.gw × IsCleared gw p.state p.tunnel.rwc

  abbrev pub Safe : Gateway → Step → Type 0
  Safe gw (next p) = IsAuthorized gw p
  Safe gw (stop p e) = IsAuthorized gw p
  Safe gw crash = ⊥

  module _ (gw : Gateway) (rwc : Option Conn) where
    pub to_handshake :
        IsCleared gw ServerState.initialized rwc → IsCleared gw ServerState.handshake rwc
    to_handshake c = record {
      cookie = λ h. absurd (omega arith);
      name = λ h. absurd (omega arith);
      host = λ h. absurd (omega arith);
      unconnected = λ h. c.unconnected (omega arith);
    }

    pub to_tunnel_create :
        IsCleared gw ServerState.handshake rwc
        → Accepted gw.check_paa_cookie
        → IsCleared gw ServerState.tunnel_create rwc
    to_tunnel_create c ok = record {
      cookie = λ h. ok;
      name = λ h. absurd (omega arith);
      host = λ h. absurd (omega arith);
      unconnected = λ h. c.unconnected (omega arith);
    }

    pub to_tunnel_authorize :
        IsCleared gw ServerState.tunnel_create rwc
        → Accepted gw.check_client_name
        → IsCleared gw ServerState.tunnel_authorize rwc
    to_tunnel_authorize c ok = record {
      cookie = λ h. c.cookie (omega arith);
      name = λ h. ok;
      host = λ h. absurd (omega arith);
      unconnected = λ h. c.unconnected (omega arith);
    }

    pub to_channel_create :
        (rwc' : Option Conn)
        → IsCleared gw ServerState.tunnel_authorize rwc
        → IsConnected gw rwc'
        → IsCleared gw ServerState.channel_create rwc'
    to_channel_create rwc' c ok = record {
      cookie = λ h. c.cookie (omega arith);
      name = λ h. c.name (omega arith);
      host = λ h. ok;
      unconnected = λ h. absurd (omega arith);
    }

    -- Once the channel is there, every later state is cleared with a connection to the same peer.
    pub to_later :
        (s t : ℕ) (rwc' : Option Conn)
        → ServerState.channel_create ≤ s
        → ServerState.channel_create ≤ t
        → IsCleared gw s rwc
        → IsConnected gw rwc'
        → IsCleared gw t rwc'
    to_later s t rwc' hs ht c ok = record {
      cookie = λ h. c.cookie (omega arith);
      name = λ h. c.name (omega arith);
      host = λ h. ok;
      unconnected = λ h. absurd (omega arith);
    }

pub write-rwc : (t : Tunnel) (pkt : Bytes) → (write t pkt).rwc ≡ t.rwc
unfolding write
write-rwc t pkt = ground arith

-- A check changes the exported fields of the tunnel alone.
pub run_check_same :
    (c : Option Check) (arg : Text) (p : Processor)
    → ((run_check c arg p).1.state ≡ p.state)
      × ((run_check c arg p).1.gw ≡ p.gw)
      × ((run_check c arg p).1.tunnel.rwc ≡ p.tunnel.rwc)
unfolding run_check
run_check_same none arg p = (refl, refl, refl)
run_check_same (some check) arg p = (refl, refl, refl)

pub run_check-AcceptedFor :
    (c : Option Check) (arg : Text) (p : Processor)
    → (run_check c arg p).0 ≡ true
    → AcceptedFor c arg
unfolding run_check
run_check-AcceptedFor none arg p h = tt
run_check-AcceptedFor (some check) arg p h = (p.tunnel.info, h)

pub AcceptedFor-Accepted : (c : Option Check) (arg : Text) → AcceptedFor c arg → Accepted c
AcceptedFor-Accepted none arg a = tt
AcceptedFor-Accepted (some check) arg a = (arg, a)
