-- ===== src/Protocol/PktType.antt =====
-- The packet types of cmd/rdpgw/protocol/types.go.
use home_rdp_gateway.Base.{ℕ}

abbrev pub handshake_request : ℕ
handshake_request = 0x1

abbrev pub handshake_response : ℕ
handshake_response = 0x2

abbrev pub tunnel_create : ℕ
tunnel_create = 0x4

abbrev pub tunnel_response : ℕ
tunnel_response = 0x5

abbrev pub tunnel_auth : ℕ
tunnel_auth = 0x6

abbrev pub tunnel_auth_response : ℕ
tunnel_auth_response = 0x7

abbrev pub channel_create : ℕ
channel_create = 0x8

abbrev pub channel_response : ℕ
channel_response = 0x9

abbrev pub data_packet : ℕ
data_packet = 0xA

abbrev pub keepalive : ℕ
keepalive = 0xD

abbrev pub close_channel : ℕ
close_channel = 0x10

abbrev pub close_channel_response : ℕ
close_channel_response = 0x11
