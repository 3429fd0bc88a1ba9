-- ===== src/Protocol/Packet.antt =====
-- createPacket and readHeader of cmd/rdpgw/protocol/common.go.
pub mod Laws
use home_rdp_gateway.Base.{
  ℕ, zero, suc, ◌+◌, ◌-◌, Bool, Option, none, some, List, [], ◌∷◌, ◌++◌, length, take, drop, ltb,
  if◌then◌else◌,
}
use home_rdp_gateway.Base.Outcome.{Outcome, returns, panics}
use home_rdp_gateway.Wire.{Bytes, put_u16, put_u32, read_u16, read_u32}

unfoldable pub create_packet : ℕ → Bytes → Bytes
create_packet pkt_type body =
    let size = length body + 8 in put_u16 pkt_type ++ (put_u16 0 ++ (put_u32 size ++ body))

pub data HeaderError : Type 0 where
  header_too_short data_incomplete : HeaderError

pub record Header : Type 0 where
  pub packet_type : ℕ
  pub size : ℕ
  pub packet : Bytes
  pub err : Option HeaderError

-- `data[8:size]` panics where the size that the packet reports is below 8.
unfoldable pub read_header : Bytes → Outcome Header
read_header input =
    let pt = (read_u16 input).0 in
    let sz = (read_u32 (drop 4 input)).0 in
    if ltb (length input) 8
    then returns (record { packet_type = 0; size = 0; packet = []; err = some header_too_short })
    else if ltb (length input) sz
    then returns
        (record { packet_type = pt; size = sz; packet = drop 8 input; err = some data_incomplete })
    else if ltb sz 8
    then panics
    else returns
        (record { packet_type = pt; size = sz; packet = take (sz - 8) (drop 8 input); err = none })
