-- ===== src/Protocol/Reader/Increment.antt =====
-- `packet.incrementPtr(int(sz) - index)` in handleMsgFrame never moves the pointer back.
use home_rdp_gateway.Base.{◌≤◌, ◌≡◌, ◌++◌, none, length, arith}
use home_rdp_gateway.Base.Outcome.{returns}
use home_rdp_gateway.Wire.{Bytes}
use home_rdp_gateway.Protocol.Packet.{Header, read_header}
use home_rdp_gateway.Protocol.Packet.Laws.{IsFragment, size_of_prefix}

-- Once readHeader has asked for more, the size that it reports in the end covers all that was there.
pub index-le-size :
    (pre bytes : Bytes) (h : Header)
    → IsFragment (read_header pre)
    → read_header (pre ++ bytes) ≡ returns h
    → h.err ≡ none
    → length pre ≤ h.size
unfolding read_header
index-le-size pre bytes h (h0, x, e0, q0) e q = ground (arith, size_of_prefix pre bytes)
