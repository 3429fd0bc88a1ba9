-- ===== src/Examples/Realms.antt =====
-- A request to the servers of a realm.
use home_rdp_gateway.Base.{ℕ, true, Option, some, List, [], ◌∷◌}
use home_rdp_gateway.Base.Texts.{codes}
use home_rdp_gateway.Wire.{Bytes}
use home_rdp_gateway.Kdc.{Kdc, Peer, udp, Krb5Config, Servers}

-- Each server answers with one byte.
abbrev network : ℕ → Kdc → Peer
network i kdc = record {
  dials = true;
  writes = true;
  datagram = some (7 ∷ []);
  stream = 0 ∷ 0 ∷ 0 ∷ 1 ∷ 7 ∷ [];
}

abbrev in_order : List (Option Bytes) → List (Option Bytes)
in_order replies = replies

abbrev servers : Servers
servers = record { count = 1; at = λ n. some (codes "kdc") }

abbrev krb5_config : Krb5Config
krb5_config = record { default_realm = codes "R"; get_kdcs = λ realm over_tcp. some servers }

abbrev first_kdc : Kdc
first_kdc = record { realm = codes "R"; host = codes "kdc"; proto = udp }
