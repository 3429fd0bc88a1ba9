-- ===== src/Protocol/Client/Replies.antt =====
-- What the gateway answers and what the client makes of it.
use home_rdp_gateway.Base.{ℕ, ◌^◌, ◌<◌, ◌≤◌, ◌≡◌, ◌==◌, if◌then◌else◌, arith}
use home_rdp_gateway.Protocol.Gateway.{Gateway, RedirectFlags}
use home_rdp_gateway.Protocol.Responses
use home_rdp_gateway.Protocol.Responses.{make_redirect_flags, clamp}
use home_rdp_gateway.Protocol.Client.Defs.{
  accepted, failed, handshake_response, tunnel_response, tunnel_auth_response, channel_response,
}

-- The client reads the code, the tunnel id and the capabilities of a tunnel response as they were sent.
pub tunnel_response-tunnel_body :
    (code : ℕ)
    → code < 2 ^ 32
    → tunnel_response (Responses.tunnel_body code)
      ≡ (if code == 0 then accepted (10, 2) else failed code)
unfolding tunnel_response Responses.tunnel_body
tunnel_response-tunnel_body code h = ground arith

-- The client reads the code and the channel id of a channel response as they were sent.
pub channel_response-channel_body :
    (code : ℕ)
    → code < 2 ^ 32
    → channel_response (Responses.channel_body code)
      ≡ (if code == 0 then accepted 1 else failed code)
unfolding channel_response Responses.channel_body
channel_response-channel_body code h = ground arith

-- A handshake response with a code below 2 ^ 31 is read as it was sent.
pub handshake_response-handshake_body :
    (major minor caps code : ℕ)
    → caps < 65536
    → code < 2 ^ 31
    → handshake_response (Responses.handshake_body major minor caps code)
      ≡ (if code == 0 then accepted caps else failed code)
unfolding handshake_response Responses.handshake_body
handshake_response-handshake_body major minor caps code hc h = ground arith

-- An error code with its highest bit set, as all of the E_PROXY codes that the gateway sends in a
-- handshake response have it, is taken for success by the client.
pub handshake_response-high_code :
    (major minor caps code : ℕ)
    → caps < 65536
    → 2 ^ 31 ≤ code
    → code < 2 ^ 32
    → handshake_response (Responses.handshake_body major minor caps code) ≡ accepted caps
unfolding handshake_response Responses.handshake_body
handshake_response-high_code major minor caps code hc lo hi = ground arith

make_redirect_flags-lt : (flags : RedirectFlags) → make_redirect_flags flags < 2 ^ 32
unfolding make_redirect_flags
make_redirect_flags-lt flags = ground arith

-- The client reads the redirection flags and the idle timeout of the gateway, a negative timeout as 0.
pub tunnel_auth_response-tunnel_auth_body :
    (gw : Gateway) (code : ℕ)
    → code < 2 ^ 32
    → clamp gw.idle_timeout < 2 ^ 32
    → tunnel_auth_response (Responses.tunnel_auth_body gw code) ≡ (
        if code == 0
        then accepted (make_redirect_flags gw.redirect_flags, clamp gw.idle_timeout)
        else failed code)
unfolding tunnel_auth_response Responses.tunnel_auth_body
tunnel_auth_response-tunnel_auth_body gw code h ht =
    ground (arith, make_redirect_flags-lt gw.redirect_flags)
