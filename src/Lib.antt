-- ===== src/Lib.antt =====
-- HomeRDP Gateway: a gateway that carries remote desktop sessions over HTTP (cmd/rdpgw).
--
-- A client opens a transport (websocket, or a pair of legacy HTTP channels), over which packets with a
-- header of eight bytes travel. Frames of a transport do not respect the bounds of packets: the packet
-- reader puts packets together again. A processor takes the packets of a session through a state
-- machine: handshake, tunnel creation with a cookie, tunnel authorization with a client name, channel
-- creation with a host, data. Three checks, which package security provides, decide on cookie, name and
-- host; main builds one gateway for sessions with tokens, which OpenID users download, and one for
-- sessions of users that basic authentication, NTLM or Kerberos let in. Requests pass a middleware that
-- finds the identity and the address of the client, behind proxies that are trusted. The dashboard keeps
-- the entries that users see, with the templates uploaded for them, the icons, and the users of direct
-- authentication in JSON files; administrators change them over HTTP, and each change of a user rewrites
-- the configuration of the helper. A user whom the OpenID provider signs in downloads an RDP file for an
-- entry, which names the gateway, the host and a token. The KDC proxy carries Kerberos
-- requests to the servers of a realm. A helper process (cmd/auth) checks passwords and NTLM messages.
--
-- Files:
--   Base        tests and conditionals on numbers, lists, texts, outcomes, lists with keys
--   Wire        the little-endian integers of encoding/binary
--   Go          functions of packages strings, strconv and net
--   Utf         cmd/rdpgw/protocol/utf16.go, over the UTF-8 of Go strings
--   Transport   ReadPacket and WritePacket of cmd/rdpgw/transport
--   Protocol    cmd/rdpgw/protocol: PktType, ServerState, ErrorCode and Field for the constants of
--               types.go and errors.go; Packet for createPacket and readHeader; Reader for
--               packet_reader.go, handleMsgFrame and readMessage; Gateway for the types; Responses,
--               Requests and Negotiation for the packets of process.go; Processor for Process; Track for
--               track.go; Client for client.go
--   Dashboard   cmd/rdpgw/dashboard: EntryIcon for entry_icon.go, File for fileutil.go, AuthUsers for
--               auth_users.go, Entry for entry.go, Store for store.go, Icons for icon_store.go
--   Identity    cmd/rdpgw/identity: User for user.go and the names of identity.go, Groups on its groups
--   Security    cmd/rdpgw/security: HostTemplate for host_template.go, with what it gives in Rendered, Hosts for CheckHost of basic.go
--               and cmd/rdpgw/dashboard/hosts.go, Tokens for jwt.go, Sessions for buildGateway of
--               cmd/rdpgw/main.go, whose checks meet the state machine of Protocol there
--   Web         cmd/rdpgw/web: TrustedProxy for trusted_proxy.go; Middleware for context.go, session.go,
--               header.go, authz.go and basic.go; Access, Untrusted and Administrators on what they let through;
--               InternalDns for internal_dns.go; Oidc for oidc.go, with Transactions, Claims and Callback;
--               Admin for admin_handlers.go: Origin for the test of the origin, AuthUsers, Entries and
--               EntryHandlers for the handlers, which meet the stores of Dashboard and, in Helper, the users that
--               Auth loads; Download for dashboard_download.go and the redirection policy of web.go
--   Rdp         cmd/rdpgw/rdp: Parser for koanf/parsers/rdp/rdp.go, Settings and Builder for rdp.go
--   Auth        cmd/auth: Users for database/config.go, Service for Authenticate of auth.go, Ntlm for
--               ntlm/ntlm.go, with the order of its messages in NtlmOrder; SocketMode for the modes
--   Kdc         cmd/rdpgw/kdcproxy/proxy.go
--   Examples    runs on concrete inputs
--
-- Bytes are numbers, byte slices and strings are lists of them. The incoming transport of a tunnel is
-- the list of what its ReadPacket is going to report; behind the end it reports an error. The checks
-- and the dial are functions: a check may change the exported fields of the tunnel, which is how
-- package security passes on the user. A panic of the code is the outcome `panics` or the step `crash`.
-- Texts of the dashboard and of the host check are lists of code points. What the operating system answers in a call of a
-- store is a parameter of the call: the time, the step of a write that fails, a failing stat or remove.
-- Whether net.ParseIP reads a text is a parameter of the validation of an entry; for trusted proxies the
-- addresses and networks of package net are parameters. So are the libraries that sign, encrypt and open
-- tokens, the OpenID provider, the decoder of images, bcrypt, go-ntlm, the coding of the
-- KDC proxy's messages and its connections, JSON, multipart forms, net/url, strings.EqualFold, and the reading of an
-- RDP file by koanf and mapstructure. The session of a request is what
-- the session library answers. A time is a number. Calls of the helper and of a store are one after the
-- other; the cache of NTLM contexts may lose a context between two calls.
-- strings.ToLower is that of ASCII letters. The names of headers are in canonical form. The file that the administration
-- writes for the helper is YAML, which a library writes and config.LoadFile reads: the names and passwords are taken to
-- come back as they were. When an uploaded template cannot be written or closed, the removal of what was written
-- is taken to succeed.
-- A slice that shares memory with another is modelled by its bytes; nothing writes to a shared part
-- that is read again.
--
-- The loops of readMessage and of Process run on fuel. Each round of readMessage uses up a byte or a
-- frame, so that one more round than the bytes and the frames of the transport is enough where no
-- frame is larger than the buffer of 65536 bytes; Tunnel.Read is modelled with that number. Process has
-- a round for each read of its tunnel, and the same number is enough. The loop of handleMsgFrame is
-- recursion on the frames that are left. Counters of bytes wrap at 2 ^ 64; a size that a packet
-- reports is below 2 ^ 32 and fits the int of a 64-bit machine.
--
-- A handler of the administration, and a callback of the OpenID provider, is one step: what other requests do
-- between two of its calls is left out, except that the clock moves on within a callback.
--
-- Not modelled: the goroutine that copies from the server to the client, logging, metrics, the HTTP
-- handlers of the gateway, the web pages, Kerberos, user tokens, the download by host, the
-- configuration, and the socket and the gRPC code of the helper.
pub mod Base
pub mod Wire
pub mod Go
pub mod Utf
pub mod Transport
pub mod Protocol
pub mod Dashboard
pub mod Identity
pub mod Security
pub mod Web
pub mod Rdp
pub mod Auth
pub mod Kdc
mod Examples
