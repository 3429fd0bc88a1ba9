-- ===== src/Kdc.antt =====
-- cmd/rdpgw/kdcproxy/proxy.go: requests of Kerberos clients, forwarded to the servers of their realm. The
-- ASN.1 coding and the configuration of the realms are libraries, and parameters here; so is what happens
-- on the connections to the servers.
pub mod Places
pub mod Replies
use home_rdp_gateway.Base.{
  ℕ, zero, suc, ◌+◌, ◌*◌, ◌/◌, ◌%◌, Bool, true, false, not, ◌&&◌, ◌||◌, ◌==◌, ltb, leb, Option,
  none, some, List, [], ◌∷◌, ◌++◌, length, take, drop, if◌then◌else◌,
}
use home_rdp_gateway.Base.Texts.{Text}
use home_rdp_gateway.Wire.{Bytes}
use home_rdp_gateway.Go.Strings.{is_empty}

abbrev pub max_length : ℕ
max_length = 131072

pub record KdcProxyMsg : Type 0 where
  pub message : Bytes
  pub realm : Text
  pub flags : ℕ

pub data Proto : Type 0 where
  udp tcp : Proto

pub record Kdc : Type 0 where
  pub realm : Text
  pub host : Text
  pub proto : Proto

-- What happens on the connection to a server: whether the dial and the write succeed, the datagram that a
-- read gives, none for an error, and the bytes of the stream up to its end or the deadline.
pub record Peer : Type 0 where
  pub dials : Bool
  pub writes : Bool
  pub datagram : Option Bytes
  pub stream : Bytes

-- `binary.BigEndian.PutUint32` and `binary.BigEndian.Uint32`.
abbrev pub be_put_u32 : ℕ → Bytes
be_put_u32 n = n / 16777216 % 256 ∷ n / 65536 % 256 ∷ n / 256 % 256 ∷ n % 256 ∷ []

abbrev pub be_u32 : ℕ → ℕ → ℕ → ℕ → ℕ
be_u32 a b c d = 16777216 * a + 65536 * b + 256 * c + d

-- A datagram, cut at the size of the buffer, behind its length.
abbrev pub frame_datagram : Option Bytes → Option Bytes
frame_datagram none = none
frame_datagram (some bytes) =
    let read = take max_length bytes in some (be_put_u32 (length read) ++ read)

-- A length and as many bytes.
abbrev pub take_frame : Bytes → Option Bytes
take_frame (a ∷ b ∷ c ∷ d ∷ rest) =
    let n = be_u32 a b c d in
    if ltb max_length n
    then none
    else if ltb (length rest) n
    then none
    else some (a ∷ b ∷ c ∷ d ∷ take n rest)
take_frame _ = none

-- What awaitReply puts in the channel, none for nil.
unfoldable pub await_reply : Proto → Peer → Option Bytes
await_reply udp peer = frame_datagram peer.datagram
await_reply tcp peer = take_frame peer.stream

-- What is written to a server; none for a packet that is too short for UDP.
unfoldable pub written_to : Proto → Bytes → Option Bytes
written_to tcp packet = some packet
written_to udp packet = if ltb (length packet) 4 then none else some (drop 4 packet)

-- Whether the request reaches the server, so that its reply is awaited.
unfoldable pub starts_at : Bytes → Kdc → Peer → Bool
starts_at packet kdc peer =
    peer.dials && (elim (written_to kdc.proto packet) [ none ↦ false | some bytes ↦ peer.writes ])

module _ (network : ℕ → Kdc → Peer) where
  -- The loop over the servers, from the index `i`: what the started connections reply.
  unfoldable pub start_all : Bytes → ℕ → List Kdc → List (Option Bytes)
  start_all packet i [] = []
  start_all packet i (kdc ∷ kdcs) =
      let rest = start_all packet (i + 1) kdcs in
      if starts_at packet kdc (network i kdc)
      then await_reply kdc.proto (network i kdc) ∷ rest
      else rest

-- What GetKDCs gives for a realm: their number and their places.
pub record Servers : Type 0 where
  pub count : ℕ
  pub at : ℕ → Option Text

abbrev pub one_kdc : Text → Proto → Option Text → List Kdc
one_kdc realm proto none = []
one_kdc realm proto (some host) = record { realm = realm; host = host; proto = proto } ∷ []

-- The servers at the places from 0 to `n`.
abbrev pub collect : Text → Proto → (ℕ → Option Text) → ℕ → List Kdc
collect realm proto at zero = one_kdc realm proto (at zero)
collect realm proto at (suc n) = collect realm proto at n ++ one_kdc realm proto (at (suc n))

pub data ForwardError : Type 0 where
  no_udp no_tcp no_kdcs no_connections no_replies : ForwardError

pub data Forwarded : Type 0 where
  reply : Bytes → Forwarded
  failed : ForwardError → Forwarded

-- The first reply that is not nil.
abbrev pub first_reply : List (Option Bytes) → Forwarded
first_reply [] = failed no_replies
first_reply (none ∷ replies) = first_reply replies
first_reply (some bytes ∷ replies) = reply bytes

-- The configuration: the default realm, and the servers of a realm for TCP or not.
pub record Krb5Config : Type 0 where
  pub default_realm : Text
  pub get_kdcs : Text → Bool → Option Servers

-- The merged servers of a realm.
unfoldable pub kdcs_of : Krb5Config → Text → Servers → Servers → List Kdc
kdcs_of config realm udp_servers tcp_servers =
    collect realm udp udp_servers.at udp_servers.count
    ++ collect realm tcp tcp_servers.at tcp_servers.count

-- `arrive` is the order in which the replies come.
module _ (network : ℕ → Kdc → Peer) (arrive : List (Option Bytes) → List (Option Bytes)) where
  unfoldable pub await_all : List (Option Bytes) → Forwarded
  await_all [] = failed no_connections
  await_all (r ∷ rs) = first_reply (arrive (r ∷ rs))

  unfoldable pub ask : List Kdc → Bytes → Forwarded
  ask [] packet = failed no_kdcs
  ask (kdc ∷ kdcs) packet = await_all (start_all network packet 0 (kdc ∷ kdcs))

  unfoldable pub forward : Krb5Config → Text → Bytes → Forwarded
  forward config named packet =
      let realm = if is_empty named then config.default_realm else named in
      elim (config.get_kdcs realm false) [
        | none ↦ failed no_udp
        | some u ↦ elim (config.get_kdcs realm true) [
          | none ↦ failed no_tcp
          | some t ↦
              if t.count + u.count == 0
              then failed no_kdcs
              else ask (kdcs_of config realm u t) packet
        ]
      ]

pub data Status : Type 0 where
  method_not_allowed length_required too_large server_error bad_request unavailable : Status

pub data Response : Type 0 where
  kerberos : Bytes → Response
  error : Status → Response

-- A request: whether its method is POST, its length, none where it does not say, and its body.
pub record Request : Type 0 where
  pub is_post : Bool
  pub content_length : Option ℕ
  pub body : Bytes

-- The ASN.1 library: a message and what is left behind it, none for an error.
pub record Asn1 : Type 0 where
  pub unmarshal : Bytes → Option (KdcProxyMsg × Bytes)
  pub marshal : KdcProxyMsg → Option Bytes

abbrev pub without_rest : Option (KdcProxyMsg × Bytes) → Option KdcProxyMsg
without_rest none = none
without_rest (some (msg, [])) = some msg
without_rest (some (msg, b ∷ rest)) = none

unfoldable pub decode : Asn1 → Bytes → Option KdcProxyMsg
decode asn1 bytes = without_rest (asn1.unmarshal bytes)

unfoldable pub encode : Asn1 → Bytes → Option Bytes
encode asn1 bytes = asn1.marshal (record { message = bytes; realm = []; flags = 0 })

-- The end of Handler. An encoding error is answered, and nothing is written behind it.
unfoldable pub answer : Asn1 → Forwarded → Response
answer asn1 (failed e) = error unavailable
answer asn1 (reply bytes) = elim (encode asn1 bytes) [
  | none ↦ error server_error
  | some coded ↦ kerberos coded
]

unfoldable pub handler :
    (ℕ → Kdc → Peer)
    → (List (Option Bytes) → List (Option Bytes))
    → Asn1
    → Krb5Config
    → Request
    → Response
handler network arrive asn1 config r =
    if not r.is_post then error method_not_allowed else elim r.content_length [
      | none ↦ error length_required
      | some n ↦
          if ltb max_length n
          then error too_large
          else if ltb (length r.body) n
          then error server_error
          else elim (decode asn1 (take n r.body)) [
            | none ↦ error bad_request
            | some msg ↦ answer asn1 (forward network arrive config msg.realm msg.message)
          ]
    ]
