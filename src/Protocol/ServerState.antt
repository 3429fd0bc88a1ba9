-- ===== src/Protocol/ServerState.antt =====
-- The states of a processor, cmd/rdpgw/protocol/types.go. The code compares them as numbers.
use home_rdp_gateway.Base.{ℕ}

abbrev pub initialized : ℕ
initialized = 0x0

abbrev pub handshake : ℕ
handshake = 0x1

abbrev pub tunnel_create : ℕ
tunnel_create = 0x2

abbrev pub tunnel_authorize : ℕ
tunnel_authorize = 0x3

abbrev pub channel_create : ℕ
channel_create = 0x4

abbrev pub opened : ℕ
opened = 0x5

abbrev pub closed : ℕ
closed = 0x6
