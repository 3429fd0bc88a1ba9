-- ===== src/Protocol/Reader/Defragment.antt =====
-- Defragmentation: a packet arrives whole, however the transport cuts the stream.
use home_rdp_gateway.Base.{
  ℕ, ◌+◌, ◌-◌, ◌≤◌, ◌<◌, ◌≡◌, refl, sym, ap, ◌∙◌, false, none, List, [], ◌∷◌, ◌++◌, length, drop,
  ltb, arith, Bool-cases, inl, inr, ltb→lt, ◌≡⟨◌⟩◌, ◌∎, le→ltb, length-append, append_assoc,
  drop-append, drop_length-append, length-drop, drop-drop,
}
use home_rdp_gateway.Base.Outcome.{Outcome, returns}
use home_rdp_gateway.Wire.{Bytes}
use home_rdp_gateway.Transport.{Received, IsHonest}
use home_rdp_gateway.Protocol.Packet.{Header, create_packet, read_header}
use home_rdp_gateway.Protocol.Packet.Laws.{
  header_of, IsFragment, length-create_packet, read_header-create_packet, read_header-IsFragment,
}
use home_rdp_gateway.Protocol.Reader.Defs.{
  PacketReader, Message, message_of, max_fragment_size, increment_ptr, resume, gather,
  handle_msg_frame,
}

-- Frames that arrive without error, and the stream that they carry.
abbrev pub AreIntact : List Received → Type 0
AreIntact [] = Unit
AreIntact (f ∷ fs) = (f.failed ≡ false) × IsHonest f × AreIntact fs

abbrev pub stream : List Received → Bytes
stream [] = []
stream (f ∷ fs) = f.bytes ++ stream fs

-- What a reader has still to give.
abbrev pub remaining : PacketReader → Bytes
remaining p = drop p.read_ptr p.pkt ++ stream p.transport

pub record IsIntact (p : PacketReader) : Type 0 where
  pub whole : p.size ≡ length p.pkt
  pub inside : p.read_ptr ≤ length p.pkt
  pub coming : AreIntact p.transport

-- A packet that createPacket can make: type and size fit their fields, and the defragmentation buffer
-- holds the whole of it.
pub record IsPacket (pt : ℕ) (body : Bytes) : Type 0 where
  pub type_fits : pt < 65536
  pub size_fits : length body + 8 ≤ max_fragment_size

-- The outcome is the message of the packet, and `rest` is left in the reader.
abbrev pub Gives : ℕ → Bytes → Bytes → Outcome (Message × PacketReader) → Type 0
Gives pt body rest o =
    (p : PacketReader) × (o ≡ returns (message_of (header_of pt body) none, p))
    × (remaining p ≡ rest)
    × IsIntact p

split_prefix :
    (cs xs ys rest : Bytes)
    → xs ++ ys ≡ cs ++ rest
    → length cs ≤ length xs
    → (more : Bytes) × (xs ≡ cs ++ more) × (more ++ ys ≡ rest)
split_prefix [] xs ys rest e h = (xs, refl, e)
split_prefix (c ∷ cs) [] ys rest e h = absurd (omega arith)
split_prefix (c ∷ cs) (x ∷ xs) ys rest e h =
    let (more, same, left) = split_prefix cs xs ys rest (cc) (omega arith) in (more, cc, left)

resume-IsFragment :
    (o : Outcome Header) (index : ℕ) (p : PacketReader)
    (again : Header → Outcome (Message × PacketReader))
    (P : Outcome (Message × PacketReader) → Type 0)
    → IsFragment o
    → ((h : Header) → P (again h))
    → P (resume o index p again)
unfolding resume
resume-IsFragment o index p again P (h, x, e, q) k = rw (e, q) (k h)

-- What the last frame of a packet has left.
rest_of_frame :
    (pt : ℕ) (body pre bytes more : Bytes) (n : ℕ)
    → n + length pre ≡ length body + 8
    → pre ++ bytes ≡ create_packet pt body ++ more
    → drop n bytes ≡ more
rest_of_frame pt body pre bytes more n h e =
    let size = length-create_packet pt body in
    drop n bytes
    ≡⟨ ap (λ (k : ℕ). drop k bytes) (omega (arith, size)) ⟩
      drop (length (create_packet pt body) - length pre) bytes
    ≡⟨ sym (drop-append (length (create_packet pt body)) pre bytes (omega (arith, size))) ⟩
      drop (length (create_packet pt body)) (pre ++ bytes)
    ≡⟨ ap (drop (length (create_packet pt body))) e ⟩
      drop (length (create_packet pt body)) (create_packet pt body ++ more)
    ≡⟨ drop_length-append (create_packet pt body) more ⟩ more ∎

resume-Gives :
    (pt : ℕ) (body rest pre bytes : Bytes) (size : ℕ) (fs : List Received)
    (again : Header → Outcome (Message × PacketReader))
    → IsPacket pt body
    → size ≡ length bytes
    → AreIntact fs
    → (pre ++ bytes) ++ stream fs ≡ create_packet pt body ++ rest
    → length pre ≤ length body + 8
    → length body + 8 ≤ length (pre ++ bytes)
    → Gives pt body rest (
        resume
          (read_header (pre ++ bytes))
          (length pre)
          (record { transport = fs; size = size; pkt = bytes; read_ptr = 0 })
          again)
unfolding resume
resume-Gives pt body rest pre bytes size fs again ok honest intact e short long =
    let packet = create_packet pt body in
    let (more, same, left) =
      split_prefix packet (pre ++ bytes) (stream fs) rest e
        (omega (arith, length-create_packet pt body)) in
    let header : read_header (pre ++ bytes) ≡ returns (header_of pt body) =
      rw same (read_header-create_packet pt body more ok.type_fits (omega (arith, ok.size_fits))) in
    let moved =
      rest_of_frame pt body pre bytes more (0 + (length body + 8 - length pre)) (omega arith)
        same in
    (
      record {
        transport = fs;
        size = size;
        pkt = bytes;
        read_ptr = 0 + (length body + 8 - length pre);
      },
      rw header,
      ap (λ (l : Bytes). l ++ stream fs) moved ∙ left,
      record { whole = honest; inside = omega (arith, length-append pre bytes); coming = intact },
    )

gather-Gives :
    (frames : List Received) (buf : Bytes) (h : Header) (cur : Bytes) (p : PacketReader) (pt : ℕ)
    (body rest : Bytes)
    → IsPacket pt body
    → AreIntact frames
    → (buf ++ cur) ++ stream frames ≡ create_packet pt body ++ rest
    → length (buf ++ cur) < length body + 8
    → Gives pt body rest (gather frames buf h cur p)
unfolding gather
gather-Gives [] buf h cur p pt body rest ok intact e short = absurd (
    omega (
      arith,
      ap length e,
      length-append (buf ++ cur) [],
      length-append (create_packet pt body) rest,
      length-create_packet pt body,
    ))
gather-Gives (f ∷ fs) buf h cur p pt body rest ok intact e short =
    let room : ltb (max_fragment_size - length buf) (length cur) ≡ false =
      le→ltb _ _ (omega (arith, length-append buf cur, ok.size_fits)) in
    let joined : ((buf ++ cur) ++ f.bytes) ++ stream fs ≡ create_packet pt body ++ rest =
      append_assoc (buf ++ cur) f.bytes (stream fs) ∙ e in
    elim (Bool-cases (ltb (length ((buf ++ cur) ++ f.bytes)) (length body + 8))) [
      | inl part ↦
          rw (room, intact.0)
            (resume-IsFragment (read_header ((buf ++ cur) ++ f.bytes)) _ _ _ (Gives pt body rest)
              (read_header-IsFragment pt body rest ((buf ++ cur) ++ f.bytes) (stream fs)
                (omega (arith, ok.size_fits)) joined (ltb→lt _ _ part))
              (λ h'.
                gather-Gives fs (buf ++ cur) h' f.bytes _ pt body rest ok intact.2 joined
                  (ltb→lt _ _ part)))
      | inr long ↦
          rw (room, intact.0)
            (resume-Gives pt body rest (buf ++ cur) f.bytes f.size fs _ ok intact.1 intact.2 joined
              (omega arith) (ground arith))
    ]

-- The packet lies whole in the frame at hand.
whole-Gives :
    (p : PacketReader) (pt : ℕ) (body rest : Bytes)
    (again : Header → Outcome (Message × PacketReader))
    → IsPacket pt body
    → IsIntact p
    → remaining p ≡ create_packet pt body ++ rest
    → length body + 8 ≤ length (drop p.read_ptr p.pkt)
    → Gives pt body rest (resume (read_header (drop p.read_ptr p.pkt)) 0 p again)
unfolding resume
whole-Gives p pt body rest again ok intact e long =
    let packet = create_packet pt body in
    let cur = drop p.read_ptr p.pkt in
    let size = length-create_packet pt body in
    let (more, same, left) =
      split_prefix packet cur (stream p.transport) rest e (omega (arith, size)) in
    let header : read_header cur ≡ returns (header_of pt body) =
      rw same (read_header-create_packet pt body more ok.type_fits (omega (arith, ok.size_fits))) in
    let moved : drop (p.read_ptr + (length body + 8 - 0)) p.pkt ≡ more =
      sym (drop-drop p.read_ptr (length body + 8 - 0) p.pkt)
      ∙ rest_of_frame pt body [] cur more (length body + 8 - 0) (omega arith) same in
    (
      increment_ptr p (length body + 8 - 0),
      rw header,
      ap (λ (l : Bytes). l ++ stream p.transport) moved ∙ left,
      record {
        whole = intact.whole;
        inside = omega (arith, length-drop p.read_ptr p.pkt);
        coming = intact.coming;
      },
    )

-- Whatever is left of the frame at hand and however the transport cuts the rest of the stream: if the
-- stream begins with a packet that fits the buffer, handleMsgFrame returns the message of that packet,
-- with its type, its size and its body, and leaves the reader just behind it.
pub handle_msg_frame-Gives :
    (p : PacketReader) (pt : ℕ) (body rest : Bytes)
    → IsPacket pt body
    → IsIntact p
    → remaining p ≡ create_packet pt body ++ rest
    → Gives pt body rest (handle_msg_frame p)
unfolding handle_msg_frame
handle_msg_frame-Gives p pt body rest ok intact e =
    let cur = drop p.read_ptr p.pkt in
    let inside : ltb (length p.pkt) p.read_ptr ≡ false = le→ltb _ _ intact.inside in
    elim (Bool-cases (ltb (length cur) (length body + 8))) [
      | inl part ↦ rw inside (
          resume-IsFragment (read_header cur) 0 p _ (Gives pt body rest)
            (read_header-IsFragment pt body rest cur (stream p.transport)
              (omega (arith, ok.size_fits)) e (ltb→lt _ _ part))
            (λ h'.
              gather-Gives p.transport [] h' cur p pt body rest ok intact.coming e
                (ltb→lt _ _ part)))
      | inr long ↦ rw inside (whole-Gives p pt body rest _ ok intact e (ground arith))
    ]
