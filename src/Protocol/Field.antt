-- ===== src/Protocol/Field.antt =====
-- The bits of cmd/rdpgw/protocol/types.go: fields present, authentication, redirection, capabilities.
use home_rdp_gateway.Base.{ℕ}

abbrev pub tunnel_id : ℕ
tunnel_id = 0x01

abbrev pub tunnel_caps : ℕ
tunnel_caps = 0x02

abbrev pub extended_auth_sc : ℕ
extended_auth_sc = 0x1

abbrev pub extended_auth_paa : ℕ
extended_auth_paa = 0x02

abbrev pub extended_auth_ntlm : ℕ
extended_auth_ntlm = 0x04

abbrev pub redir_flags : ℕ
redir_flags = 0x01

abbrev pub idle_timeout : ℕ
idle_timeout = 0x02

abbrev pub redir_enable_all : ℕ
redir_enable_all = 0x80000000

abbrev pub redir_disable_all : ℕ
redir_disable_all = 0x40000000

abbrev pub redir_disable_drive : ℕ
redir_disable_drive = 0x01

abbrev pub redir_disable_printer : ℕ
redir_disable_printer = 0x02

abbrev pub redir_disable_port : ℕ
redir_disable_port = 0x04

abbrev pub redir_disable_clipboard : ℕ
redir_disable_clipboard = 0x08

abbrev pub redir_disable_pnp : ℕ
redir_disable_pnp = 0x10

abbrev pub channel_id : ℕ
channel_id = 0x01

abbrev pub paa_cookie : ℕ
paa_cookie = 0x1

abbrev pub capability_idle_timeout : ℕ
capability_idle_timeout = 0x2
