-- ===== src/Protocol/Track.antt =====
-- The registry of connections, cmd/rdpgw/protocol/track.go. `none` is the nil map; a send on the
-- control channel is recorded.
use home_rdp_gateway.Base.{◌≡◌, refl, Option, none, some, List, [], ◌∷◌, if◌then◌else◌, arith}
use home_rdp_gateway.Base.Texts.{Text, text_eq, text_eq_refl}
use home_rdp_gateway.Protocol.Gateway.{Processor}

-- The registered connections by tunnel id, the latest first.
abbrev pub Connections : Type 0
Connections = Option (List (Text × Processor))

lookup : Text → List (Text × Processor) → Option Processor
lookup id [] = none
lookup id ((k, p) ∷ m) = if text_eq k id then some p else lookup id m

delete : Text → List (Text × Processor) → List (Text × Processor)
delete id [] = []
delete id ((k, p) ∷ m) = let rest = delete id m in if text_eq k id then rest else (k, p) ∷ rest

abbrev entries : Connections → List (Text × Processor)
entries none = []
entries (some m) = m

unfoldable pub register_tunnel : Text → Processor → Connections → Connections
unfolding delete
register_tunnel id p conns = some ((id, p) ∷ delete id (entries conns))

unfoldable pub remove_tunnel : Text → Connections → Connections
unfolding delete
remove_tunnel id none = none
remove_tunnel id (some m) = some (delete id m)

-- The outcome of Disconnect: the error that the connection does not exist, a send to a processor, or
-- a panic, here of the nil monitor that a missing key gives.
pub data Disconnected : Type 0 where
  not_found : Disconnected
  signalled : Processor → Disconnected
  nil_monitor : Disconnected

-- The test is `!ok`, as in the source.
unfoldable pub disconnect : Text → Connections → Disconnected
unfolding lookup
disconnect id none = not_found
disconnect id (some m) = elim (lookup id m) [ none ↦ nil_monitor | some p ↦ not_found ]

lookup-delete_self : (id : Text) (m : List (Text × Processor)) → lookup id (delete id m) ≡ none
unfolding lookup delete
lookup-delete_self id [] = refl
lookup-delete_self id ((k, p) ∷ m) = ground (arith, lookup-delete_self id m)

-- Disconnect does the opposite of what it is for: a connection that is registered is answered with
-- the error that it does not exist, and one that was removed makes the call panic.
pub disconnect_inverted :
    (id : Text) (p : Processor) (conns : Connections)
    → (disconnect id (register_tunnel id p conns) ≡ not_found)
      × (disconnect id (remove_tunnel id (register_tunnel id p conns)) ≡ nil_monitor)
unfolding disconnect register_tunnel remove_tunnel delete
disconnect_inverted id p conns = (
  rw (text_eq_refl id, disconnect),
  rw (text_eq_refl id, lookup-delete_self id (delete id (entries conns)), disconnect),
)
