-- ===== src/Protocol/Reader/Hazards.antt =====
-- Two inputs that a client can send and readMessage does not survive.
use home_rdp_gateway.Base.{
  ℕ, zero, suc, ◌≤◌, ◌<◌, ◌≡◌, refl, false, some, List, [], ◌∷◌, ◌++◌, length, drop, arith, lt→ltb,
  le→ltb,
}
use home_rdp_gateway.Base.Outcome.{returns, panics, out_of_fuel}
use home_rdp_gateway.Wire.{Bytes, read_u16, read_u32}
use home_rdp_gateway.Transport.{Received}
use home_rdp_gateway.Protocol.Packet.{Header, data_incomplete, read_header}
use home_rdp_gateway.Protocol.Reader.Defs.{
  PacketReader, Message, message_of, fragment_exceeded, max_fragment_size, resume, gather,
  handle_msg_frame, message_loop, read_message,
}

-- The size that the header of a text reports.
abbrev pub reported_size : Bytes → ℕ
reported_size input = (read_u32 (drop 4 input)).0

read_header_small :
    (input : Bytes) → 8 ≤ length input → reported_size input < 8 → read_header input ≡ panics
unfolding read_header
read_header_small input wide small = ground arith

-- A frame of at least eight bytes whose header reports a size below eight makes readMessage panic.
pub read_message_small_size :
    (fuel : ℕ) (f : Received) (fs : List Received)
    → f.failed ≡ false
    → f.size ≡ length f.bytes
    → 8 ≤ length f.bytes
    → reported_size f.bytes < 8
    → read_message (suc fuel) (f ∷ fs) ≡ panics
unfolding read_message message_loop handle_msg_frame resume
read_message_small_size fuel f fs good honest wide small = rw (
  good,
  honest,
  lt→ltb 0 (length f.bytes) (omega arith),
  le→ltb (length f.bytes) 0 (omega arith),
  read_header_small f.bytes wide small,
)

abbrev large_header : Bytes → Header
large_header input = record {
  packet_type = (read_u16 input).0;
  size = reported_size input;
  packet = drop 8 input;
  err = some data_incomplete;
}

read_header_large :
    (input : Bytes)
    → 8 ≤ length input
    → length input < reported_size input
    → read_header input ≡ returns (large_header input)
unfolding read_header
read_header_large input wide large = rw (le→ltb _ _ wide, lt→ltb _ _ large)

gather_large :
    (frames : List Received) (h : Header) (cur : Bytes) (p : PacketReader)
    → max_fragment_size < length cur
    → gather frames [] h cur p ≡ returns (message_of h (some fragment_exceeded), p)
unfolding gather
gather_large [] h cur p over = rw (lt→ltb _ _ over)
gather_large (f ∷ fs) h cur p over = rw (lt→ltb _ _ over)

abbrev at_start : List Received → ℕ → Bytes → PacketReader
at_start fs n pkt = record { transport = fs; size = n; pkt = pkt; read_ptr = 0 }

-- The message is refused and the reader is where it was.
handle_msg_frame_large :
    (fs : List Received) (n : ℕ) (pkt : Bytes)
    → max_fragment_size < length pkt
    → length pkt < reported_size pkt
    → handle_msg_frame (at_start fs n pkt)
      ≡ returns (message_of (large_header pkt) (some fragment_exceeded), at_start fs n pkt)
unfolding handle_msg_frame resume
handle_msg_frame_large fs n pkt over large =
    rw (le→ltb (length pkt) 0 (omega arith), read_header_large pkt (omega arith) large)
      (gather_large fs (large_header pkt) pkt (at_start fs n pkt) over)

message_loop_large :
    (fuel : ℕ) (fs : List Received) (n : ℕ) (pkt : Bytes) (acc : List Message)
    → 0 < n
    → max_fragment_size < length pkt
    → length pkt < reported_size pkt
    → message_loop fuel (at_start fs n pkt) acc ≡ out_of_fuel
unfolding message_loop
message_loop_large zero fs n pkt acc more over large = refl
message_loop_large (suc fuel) fs n pkt acc more over large =
    rw (lt→ltb 0 n more, handle_msg_frame_large fs n pkt over large)
      (message_loop_large fuel fs n pkt
        (acc ++ message_of (large_header pkt) (some fragment_exceeded) ∷ []) more over large)

-- On a frame of more than 65536 bytes whose header reports more than the frame has, readMessage never
-- ends: no number of rounds is enough.
pub read_message_large_frame :
    (fuel : ℕ) (f : Received) (fs : List Received)
    → f.failed ≡ false
    → f.size ≡ length f.bytes
    → max_fragment_size < length f.bytes
    → length f.bytes < reported_size f.bytes
    → read_message fuel (f ∷ fs) ≡ out_of_fuel
unfolding read_message
read_message_large_frame fuel f fs good honest over large =
    rw (good, message_loop_large fuel fs f.size f.bytes [] (omega arith) over large)
