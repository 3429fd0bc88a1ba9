-- ===== src/Protocol/Reader/Reassembly.antt =====
-- readMessage on a stream of packets: it returns their messages, in order, and leaves the transport at
-- the start of a packet.
use home_rdp_gateway.Base.{
  ℕ, zero, suc, ◌<◌, ◌≡◌, refl, sym, ap, ◌∙◌, false, none, some, List, [], ◌∷◌, ◌++◌, length, drop,
  arith, Bool-cases, inl, inr, ltb→lt, length-append, append_assoc, append-nil, drop_all,
  length-drop,
}
use home_rdp_gateway.Base.Outcome.{Outcome, returns}
use home_rdp_gateway.Wire.{Bytes}
use home_rdp_gateway.Transport.{Received}
use home_rdp_gateway.Protocol.Packet.{create_packet}
use home_rdp_gateway.Protocol.Packet.Laws.{header_of}
use home_rdp_gateway.Protocol.Reader.Defs.{
  PacketReader, Message, message_of, has_more_data, read, message_loop, read_message,
}
use home_rdp_gateway.Protocol.Reader.Defragment.{
  AreIntact, IsIntact, IsPacket, stream, remaining, handle_msg_frame-Gives,
}

-- Packets by type and body, the bytes that they are sent as, and the messages that they are read as.
abbrev pub Packets : Type 0
Packets = List (ℕ × Bytes)

abbrev pub ArePackets : Packets → Type 0
ArePackets [] = Unit
ArePackets ((pt, body) ∷ ps) = IsPacket pt body × ArePackets ps

abbrev pub sent : Packets → Bytes
sent [] = []
sent ((pt, body) ∷ ps) = create_packet pt body ++ sent ps

abbrev pub messages : Packets → List Message
messages [] = []
messages ((pt, body) ∷ ps) = message_of (header_of pt body) none ∷ messages ps

-- The call returned the messages of the packets up to a cut, behind `acc`, and the rest of the packets
-- is what the transport still holds.
abbrev Reads : Packets → List Message → Outcome (List Message × List Received) → Type 0
Reads ps acc o =
    (now : Packets) × (later : Packets) × (frames : List Received) × (ps ≡ now ++ later)
    × (o ≡ returns (acc ++ messages now, frames))
    × (stream frames ≡ sent later)
    × AreIntact frames
    × ArePackets later

remaining-done :
    (p : PacketReader) → IsIntact p → has_more_data p ≡ false → remaining p ≡ stream p.transport
remaining-done p intact done =
    ap (λ (l : Bytes). l ++ stream p.transport)
      (drop_all p.read_ptr p.pkt (ground (arith, intact.whole)))

Reads-done :
    (p : PacketReader) (acc : List Message) (ps : Packets)
    → IsIntact p
    → ArePackets ps
    → remaining p ≡ sent ps
    → has_more_data p ≡ false
    → Reads ps acc (returns (acc, p.transport))
Reads-done p acc ps intact ok e done = (
  [],
  ps,
  p.transport,
  refl,
  ap (λ (l : List Message). returns (l, p.transport)) (sym (append-nil acc)),
  sym (remaining-done p intact done) ∙ e,
  intact.coming,
  ok,
)

Reads-cons :
    (pt : ℕ) (body : Bytes) (ps : Packets) (acc : List Message)
    (o : Outcome (List Message × List Received))
    → Reads ps (acc ++ message_of (header_of pt body) none ∷ []) o
    → Reads ((pt, body) ∷ ps) acc o
Reads-cons pt body ps acc o (now, later, frames, split, e, left, intact, ok) = (
  (pt, body) ∷ now,
  later,
  frames,
  ap (λ (l : Packets). (pt, body) ∷ l) split,
  e
      ∙ ap (λ (l : List Message). returns (l, frames))
          (append_assoc acc (message_of (header_of pt body) none ∷ []) (messages now)),
  left,
  intact,
  ok,
)

message_loop-Reads :
    (fuel : ℕ) (p : PacketReader) (acc : List Message) (ps : Packets)
    → IsIntact p
    → ArePackets ps
    → remaining p ≡ sent ps
    → length ps < fuel
    → Reads ps acc (message_loop fuel p acc)
unfolding message_loop
message_loop-Reads zero p acc ps intact ok e enough = absurd (omega arith)
message_loop-Reads (suc fuel) p acc [] intact ok e enough = elim (Bool-cases (has_more_data p)) [
  | inr done ↦ rw done (Reads-done p acc [] intact ok e done)
  | inl more ↦ absurd (
      omega (
        arith,
        ap length e,
        length-append (drop p.read_ptr p.pkt) (stream p.transport),
        length-drop p.read_ptr p.pkt,
        intact.whole,
        ltb→lt _ _ more,
      ))
]
message_loop-Reads (suc fuel) p acc ((pt, body) ∷ ps) intact ok e enough =
    elim (Bool-cases (has_more_data p)) [
      | inr done ↦ rw done (Reads-done p acc ((pt, body) ∷ ps) intact ok e done)
      | inl more ↦
          let (p', read, left, intact') =
            handle_msg_frame-Gives p pt body (sent ps) ok.0 intact e in
          let acc' = acc ++ message_of (header_of pt body) none ∷ [] in
          rw (more, read)
            (Reads-cons pt body ps acc (message_loop fuel p' acc')
              (message_loop-Reads fuel p' acc' ps intact' ok.1 left (omega arith)))
    ]

-- A transport that carries packets, cut into frames anywhere: with more rounds than packets readMessage
-- returns the messages of the packets up to some point, in order, none lost and none changed; what the
-- transport then holds carries exactly the other packets.
pub read_message-sent :
    (fuel : ℕ) (f : Received) (fs : List Received) (ps : Packets)
    → AreIntact (f ∷ fs)
    → ArePackets ps
    → stream (f ∷ fs) ≡ sent ps
    → length ps < fuel
    → (now : Packets) × (later : Packets) × (frames : List Received) × (ps ≡ now ++ later)
      × (read_message fuel (f ∷ fs) ≡ returns (some (messages now), frames))
      × (stream frames ≡ sent later)
      × AreIntact frames
unfolding read_message
read_message-sent fuel f fs ps intact ok e enough =
    let p : PacketReader = record { transport = fs; size = f.size; pkt = f.bytes; read_ptr = 0 } in
    let start : IsIntact p = record { whole = intact.1; inside = omega arith; coming = intact.2 } in
    let (now, later, frames, split, done, left, intact', _) =
      message_loop-Reads fuel p [] ps start ok e enough in
    (now, later, frames, split, rw (intact.0, done), left, intact')
