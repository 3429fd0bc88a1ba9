-- ===== src/Protocol/Reader/Defs.antt =====
-- The packet reader and the defragmenting loops over it. A transport is the list of what its
-- ReadPacket is going to report; after the last of them it reports an error.
use home_rdp_gateway.Base.{
  ℕ, zero, suc, ◌+◌, ◌-◌, Bool, true, false, Option, none, some, List, [], ◌∷◌, ◌++◌, length, drop,
  ltb, if◌then◌else◌,
}
use home_rdp_gateway.Base.Outcome.{Outcome, returns, panics, out_of_fuel, ◌>>=◌}
use home_rdp_gateway.Wire.{Bytes}
use home_rdp_gateway.Transport.{Received}
use home_rdp_gateway.Protocol.Packet.{Header, read_header}

abbrev pub max_fragment_size : ℕ
max_fragment_size = 65536

pub record PacketReader : Type 0 where
  pub transport : List Received
  pub size : ℕ
  pub pkt : Bytes
  pub read_ptr : ℕ

pub data MessageError : Type 0 where
  fragment_exceeded read_failed : MessageError

-- `message`, with the error of its read.
pub record Message : Type 0 where
  pub packet_type : ℕ
  pub length : ℕ
  pub msg : Bytes
  pub err : Option MessageError

abbrev pub has_more_data : PacketReader → Bool
has_more_data p = ltb p.read_ptr p.size

-- `t.pkt[t.readPtr:]` panics behind the end.
unfoldable pub get_ptr : PacketReader → Outcome Bytes
get_ptr p = if ltb (length p.pkt) p.read_ptr then panics else returns (drop p.read_ptr p.pkt)

abbrev pub increment_ptr : PacketReader → ℕ → PacketReader
increment_ptr p n = record p { read_ptr = p.read_ptr + n }

-- `packet.read()`: the reader after it, and whether it gave no error.
abbrev pub read : List Received → PacketReader × Bool
read [] = (record { transport = []; size = 0; pkt = []; read_ptr = 0 }, false)
read (f ∷ fs) = (
  record { transport = fs; size = if f.failed then 0 else f.size; pkt = f.bytes; read_ptr = 0 },
  if f.failed then false else true,
)

abbrev pub message_of : Header → Option MessageError → Message
message_of h e = record { packet_type = h.packet_type; length = h.size; msg = h.packet; err = e }

-- What handleMsgFrame does with the outcome of readHeader: on success the pointer moves by what the
-- message takes of the frame at hand, `index` of its bytes being in earlier ones; otherwise the loop
-- goes on as `again` says.
unfoldable pub resume :
    Outcome Header
    → ℕ
    → PacketReader
    → (Header → Outcome (Message × PacketReader))
    → Outcome (Message × PacketReader)
resume o index p again = do
  h ← o
  elim h.err [
    | none ↦ returns (message_of h none, increment_ptr p (h.size - index))
    | some e ↦ again h
  ]

-- The `for` loop of handleMsgFrame. `buf` is `buf[:index]`, `cur` is `packet.getPtr()`. The size that
-- is read is never below `index` (Reader/Increment), so the truncated `-` is exact.
unfoldable pub gather :
    List Received → Bytes → Header → Bytes → PacketReader → Outcome (Message × PacketReader)
gather [] buf h cur p =
    if ltb (max_fragment_size - length buf) (length cur)
    then returns (message_of h (some fragment_exceeded), p)
    else returns (message_of h (some read_failed), (read []).0)
gather (f ∷ fs) buf h cur p =
    let again : Header → Outcome (Message × PacketReader) =
      λ h'. gather fs (buf ++ cur) h' f.bytes (read (f ∷ fs)).0 in
    if ltb (max_fragment_size - length buf) (length cur)
    then returns (message_of h (some fragment_exceeded), p)
    else if f.failed
    then returns (message_of h (some read_failed), (read (f ∷ fs)).0)
    else resume (read_header ((buf ++ cur) ++ f.bytes)) (length (buf ++ cur)) (read (f ∷ fs)).0
        again

unfoldable pub handle_msg_frame : PacketReader → Outcome (Message × PacketReader)
unfolding get_ptr
handle_msg_frame p = do
  cur ← get_ptr p
  resume (read_header cur) 0 p (λ h. gather p.transport [] h cur p)

-- The `for` loop of readMessage, on fuel; `acc` holds the messages so far.
unfoldable pub message_loop :
    ℕ → PacketReader → List Message → Outcome (List Message × List Received)
message_loop zero p acc = out_of_fuel
message_loop (suc fuel) p acc =
    let rest : Outcome (List Message × List Received) =
      handle_msg_frame p >>= λ r. message_loop fuel r.1 (acc ++ r.0 ∷ []) in
    if has_more_data p then rest else returns (acc, p.transport)

-- `none` is the error of the first read; what the transport has left is in the result.
unfoldable pub read_message : ℕ → List Received → Outcome (Option (List Message) × List Received)
read_message fuel frames =
    let (p, received) = read frames in
    if received
    then (message_loop fuel p [] >>= λ r. returns (some r.0, r.1))
    else returns (none, p.transport)

-- The bytes and the frames that a transport has to give.
abbrev pub weight : List Received → ℕ
weight [] = 0
weight (f ∷ fs) = suc (f.size + weight fs)
