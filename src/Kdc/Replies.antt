-- ===== src/Kdc/Replies.antt =====
-- What the proxy answers.
use home_rdp_gateway.Base.{
  ℕ, ◌+◌, ◌≤◌, ◌≡◌, ◌↔◌, ◌⊎◌, true, Option, some, List, [], ◌∷◌, ◌++◌, length,
}
use home_rdp_gateway.Base.Members.{IsIn}
use home_rdp_gateway.Wire.{Bytes}
use home_rdp_gateway.Kdc.{max_length, Proto, udp, tcp, Kdc, Peer, be_u32}

-- A length in four bytes, and as many bytes, no more than the limit.
abbrev pub IsFramed : Bytes → Type 0
IsFramed (a ∷ b ∷ c ∷ d ∷ payload) =
    (be_u32 a b c d ≡ length payload) × (length payload ≤ max_length)
IsFramed _ = ⊥

-- All replies arrive, and nothing else.
abbrev pub IsArrival : (List (Option Bytes) → List (Option Bytes)) → Type 0
IsArrival arrive = (rs : List (Option Bytes)) (x : Option Bytes) → IsIn x (arrive rs) ↔ IsIn x rs

module _ (network : ℕ → Kdc → Peer) (packet : Bytes) where
  -- A server replies: over UDP with a datagram, where the packet is long enough to be sent, over TCP with a
  -- length within the limit and as many bytes, whatever comes behind them.
  abbrev pub Replies : Proto → Peer → Type 0
  Replies udp peer = (4 ≤ length packet) × ((bytes : Bytes) × (peer.datagram ≡ some bytes))
  Replies tcp peer = (r : Bytes) × (rest : Bytes) × IsFramed r × (peer.stream ≡ r ++ rest)

  -- A server is reached, and replies.
  abbrev pub Serves : Proto → Peer → Type 0
  Serves proto peer = (peer.dials ≡ true) × (peer.writes ≡ true) × Replies proto peer

  -- One of the servers, counted from `i`, is reached and replies.
  abbrev pub HasReply : ℕ → List Kdc → Type 0
  HasReply i [] = ⊥
  HasReply i (kdc ∷ kdcs) = Serves kdc.proto (network i kdc) ⊎ HasReply (i + 1) kdcs
