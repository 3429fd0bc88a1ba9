-- ===== src/Examples/Packets.antt =====
-- Packets and frames.
use home_rdp_gateway.Base.{
  ℕ, zero, suc, ◌≡◌, ◌≢◌, refl, ap, some, List, [], ◌∷◌, ◌++◌, length, arith, replicate,
}
use home_rdp_gateway.Base.Outcome.{returns, out_of_fuel}
use home_rdp_gateway.Wire.{Bytes}
use home_rdp_gateway.Transport.{Received}
use home_rdp_gateway.Protocol.Packet.{create_packet, read_header}
use home_rdp_gateway.Protocol.Packet.Laws.{header_of, read_header-create_packet}
use home_rdp_gateway.Protocol.Reader.{PacketReader, read_message, handle_msg_frame}
use home_rdp_gateway.Protocol.Reader.Defragment.{
  AreIntact, IsIntact, IsPacket, Gives, stream, handle_msg_frame-Gives,
}
use home_rdp_gateway.Protocol.Reader.Reassembly.{Packets, sent, messages, read_message-sent}
use home_rdp_gateway.Protocol.Reader.Progress.{read_message-ne-out_of_fuel}
use home_rdp_gateway.Protocol.Reader.Hazards.{read_message_large_frame}
use home_rdp_gateway.Examples.Setting.{frame}

abbrev body : Bytes
body = 1 ∷ 2 ∷ 3 ∷ []

read_header-create_packet_example :
    read_header (create_packet 10 body ++ 9 ∷ []) ≡ returns (header_of 10 body)
read_header-create_packet_example =
    read_header-create_packet 10 body (9 ∷ []) (omega arith) (omega arith)

abbrev front : Bytes
front = 10 ∷ 0 ∷ 0 ∷ 0 ∷ 11 ∷ 0 ∷ 0 ∷ 0 ∷ 1 ∷ []

abbrev back : Bytes
back = 2 ∷ 3 ∷ []

abbrev reader : PacketReader
reader = record { transport = frame back ∷ []; size = 9; pkt = front; read_ptr = 0 }

small-IsPacket : IsPacket 10 body
small-IsPacket = record { type_fits = omega arith; size_fits = omega arith }

reader-IsIntact : IsIntact reader
reader-IsIntact = record { whole = refl; inside = omega arith; coming = (refl, refl, tt) }

handle_msg_frame-Gives_example : Gives 10 body [] (handle_msg_frame reader)
unfolding create_packet
handle_msg_frame-Gives_example =
    handle_msg_frame-Gives reader 10 body [] small-IsPacket reader-IsIntact refl

abbrev packets : Packets
packets = (10, body) ∷ (13, []) ∷ []

abbrev keepalive_frame : Received
keepalive_frame = frame (13 ∷ 0 ∷ 0 ∷ 0 ∷ 8 ∷ 0 ∷ 0 ∷ 0 ∷ [])

read_message-sent_example :
    (now : Packets) × (later : Packets) × (frames : List Received) × (packets ≡ now ++ later)
    × (read_message 3 (frame front ∷ frame back ∷ keepalive_frame ∷ [])
        ≡ returns (some (messages now), frames))
    × (stream frames ≡ sent later)
    × AreIntact frames
unfolding create_packet
read_message-sent_example =
    read_message-sent 3 (frame front) (frame back ∷ keepalive_frame ∷ []) packets
      (refl, refl, (refl, refl, (refl, refl, tt)))
      (small-IsPacket, (record { type_fits = omega arith; size_fits = omega arith }, tt)) refl
      (omega arith)

-- A frame that reports more than it has, and nothing behind it.
read_message-ne-out_of_fuel_example : read_message 20 (frame front ∷ []) ≢ out_of_fuel
read_message-ne-out_of_fuel_example =
    read_message-ne-out_of_fuel (frame front ∷ []) 20 (omega arith, tt) (omega arith)

filler : ℕ → Bytes
filler n = replicate n 0

length-filler : (n : ℕ) → length (filler n) ≡ n
unfolding filler
length-filler zero = refl
length-filler (suc n) = ap suc (length-filler n)

-- 70008 bytes of a packet that reports 80000.
abbrev large : Bytes
large = 10 ∷ 0 ∷ 0 ∷ 0 ∷ 128 ∷ 56 ∷ 1 ∷ 0 ∷ filler 70000

read_message_large_frame_example : read_message 1000 (frame large ∷ []) ≡ out_of_fuel
read_message_large_frame_example =
    read_message_large_frame 1000 (frame large) [] refl refl (omega (arith, length-filler 70000))
      (omega (arith, length-filler 70000))
