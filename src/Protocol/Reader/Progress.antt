-- ===== src/Protocol/Reader/Progress.antt =====
-- The loop of readMessage ends: each message uses up input, as long as no frame is larger than the
-- buffer of handleMsgFrame.
use home_rdp_gateway.Base.{
  ℕ, zero, suc, ◌+◌, ◌-◌, ◌≤◌, ◌<◌, ◌≡◌, ◌≢◌, refl, false, none, List, [], ◌∷◌, ◌++◌, length, drop,
  ltb, arith, ltb→lt, Bool-cases, Option-cases, inl, inr, length-drop,
}
use home_rdp_gateway.Base.Outcome.{Outcome, returns, panics, out_of_fuel, ◌>>=◌}
use home_rdp_gateway.Wire.{Bytes}
use home_rdp_gateway.Transport.{Received}
use home_rdp_gateway.Protocol.Packet.{Header, read_header}
use home_rdp_gateway.Protocol.Reader.Defs.{
  PacketReader, Message, max_fragment_size, has_more_data, resume, gather, handle_msg_frame,
  message_loop, read_message, weight,
}

-- What is left to read: the rest of the frame at hand, and the frames to come.
abbrev pub pending : PacketReader → ℕ
pending p = (p.size - p.read_ptr) + weight p.transport

-- No frame is larger than the buffer.
abbrev pub AreSmall : List Received → Type 0
AreSmall [] = Unit
AreSmall (f ∷ fs) = (length f.bytes ≤ max_fragment_size) × AreSmall fs

-- `p'` has no more left than `p`, and small frames only.
abbrev pub Within : ℕ → Outcome (Message × PacketReader) → Type 0
Within n (returns (m, p)) =
    (pending p ≤ n) × (length p.pkt ≤ max_fragment_size) × AreSmall p.transport
Within n panics = Unit
Within n out_of_fuel = ⊥

abbrev nothing : Message
nothing = record { packet_type = 0; length = 0; msg = []; err = none }

Within-resume :
    (o : Outcome Header) (n index : ℕ) (p : PacketReader)
    (again : Header → Outcome (Message × PacketReader))
    → o ≢ out_of_fuel
    → Within n (returns (nothing, p))
    → ((h : Header) → Within n (again h))
    → Within n (resume o index p again)
unfolding resume
Within-resume panics n index p again total w k = tt
Within-resume out_of_fuel n index p again total w k = total refl
Within-resume (returns h) n index p again total w k = elim (Option-cases h.err) [
  | inl e ↦ rw e (omega arith, w.1, w.2)
  | inr (e, q) ↦ rw q (k h)
]

read_header-ne-out_of_fuel : (input : Bytes) → read_header input ≢ out_of_fuel
unfolding read_header
read_header-ne-out_of_fuel input = ground arith

abbrev at_frame : List Received → ℕ → Bytes → ℕ → PacketReader
at_frame frames size pkt ptr = record { transport = frames; size = size; pkt = pkt; read_ptr = ptr }

Within-weaken : (m n : ℕ) (o : Outcome (Message × PacketReader)) → m ≤ n → Within m o → Within n o
Within-weaken m n (returns (msg, p)) h w = (omega arith, w.1, w.2)
Within-weaken m n panics h w = tt
Within-weaken m n out_of_fuel h w = w

gather-Within :
    (frames : List Received) (buf : Bytes) (h : Header) (cur : Bytes) (size : ℕ) (pkt : Bytes)
    (ptr : ℕ)
    → AreSmall frames
    → length pkt ≤ max_fragment_size
    → Within
        (pending (at_frame frames size pkt ptr))
        (gather frames buf h cur (at_frame frames size pkt ptr))
unfolding gather
gather-Within [] buf h cur size pkt ptr small fit =
    elim (Bool-cases (ltb (max_fragment_size - length buf) (length cur))) [
      | inl over ↦ rw over (omega arith, fit, tt)
      | inr room ↦ rw room (omega arith, omega arith, tt)
    ]
gather-Within (f ∷ fs) buf h cur size pkt ptr small fit =
    elim (Bool-cases (ltb (max_fragment_size - length buf) (length cur))) [
      | inl over ↦ rw over (omega arith, fit, small)
      | inr room ↦ elim (Bool-cases f.failed) [
        | inl broken ↦ rw (room, broken) (omega arith, small.0, small.1)
        | inr good ↦
            let n = (size - ptr) + weight (f ∷ fs) in
            rw (room, good)
              (Within-resume (read_header ((buf ++ cur) ++ f.bytes)) n (length (buf ++ cur))
                (at_frame fs f.size f.bytes 0) _ (read_header-ne-out_of_fuel _)
                (omega arith, small.0, small.1)
                (λ h'.
                  Within-weaken (pending (at_frame fs f.size f.bytes 0)) n _ (omega arith)
                    (gather-Within fs (buf ++ cur) h' f.bytes f.size f.bytes 0 small.1 small.0)))
      ]
    ]

-- From the start of a message at least one byte or one frame is used up.
gather-start :
    (frames : List Received) (h : Header) (cur : Bytes) (size : ℕ) (pkt : Bytes) (ptr : ℕ)
    → AreSmall frames
    → length cur ≤ max_fragment_size
    → ptr < size
    → Within
        (pending (at_frame frames size pkt ptr) - 1)
        (gather frames [] h cur (at_frame frames size pkt ptr))
unfolding gather
gather-start [] h cur size pkt ptr small fit more =
    let room : ltb max_fragment_size (length cur) ≡ false = ground arith in
    rw room (omega arith, omega arith, tt)
gather-start (f ∷ fs) h cur size pkt ptr small fit more =
    let room : ltb max_fragment_size (length cur) ≡ false = ground arith in
    let n = (size - ptr) + weight (f ∷ fs) - 1 in
    elim (Bool-cases f.failed) [
      | inl broken ↦ rw (room, broken) (omega arith, small.0, small.1)
      | inr good ↦
          rw (room, good)
            (Within-resume (read_header (cur ++ f.bytes)) n (length cur)
              (at_frame fs f.size f.bytes 0) _ (read_header-ne-out_of_fuel _)
              (omega arith, small.0, small.1)
              (λ h'.
                Within-weaken (pending (at_frame fs f.size f.bytes 0)) n _ (omega arith)
                  (gather-Within fs cur h' f.bytes f.size f.bytes 0 small.1 small.0)))
    ]

read_header_size :
    (input : Bytes) (h : Header) → read_header input ≡ returns h → h.err ≡ none → 8 ≤ h.size
unfolding read_header
read_header_size input h e q = ground arith

-- A message takes at least its header from the frame at hand.
handle-start :
    (p : PacketReader) (cur : Bytes) (o : Outcome Header)
    → read_header cur ≡ o
    → AreSmall p.transport
    → length p.pkt ≤ max_fragment_size
    → length cur ≤ max_fragment_size
    → p.read_ptr < p.size
    → Within (pending p - 1) (resume o 0 p (λ h. gather p.transport [] h cur p))
unfolding resume
handle-start p cur panics e small fit part more = tt
handle-start p cur out_of_fuel e small fit part more = read_header-ne-out_of_fuel cur e
handle-start p cur (returns h) e small fit part more = elim (Option-cases h.err) [
  | inl q ↦ let wide : 8 ≤ h.size = read_header_size cur h e q in rw q (omega arith, fit, small)
  | inr (x, q) ↦ rw q (gather-start p.transport h cur p.size p.pkt p.read_ptr small part more)
]

pub handle_msg_frame-Within :
    (p : PacketReader)
    → AreSmall p.transport
    → length p.pkt ≤ max_fragment_size
    → p.read_ptr < p.size
    → Within (pending p - 1) (handle_msg_frame p)
unfolding handle_msg_frame
handle_msg_frame-Within p small fit more = elim (Bool-cases (ltb (length p.pkt) p.read_ptr)) [
  | inl behind ↦ rw behind tt
  | inr inside ↦ rw inside (
      handle-start p (drop p.read_ptr p.pkt) _ refl small fit
        (omega (arith, length-drop p.read_ptr p.pkt)) more)
]

after :
    (n : ℕ) (o : Outcome (Message × PacketReader)) {B : Type 0}
    (k : Message × PacketReader → Outcome B)
    → Within n o
    → ((m : Message) (p : PacketReader) → Within n (returns (m, p)) → k (m, p) ≢ out_of_fuel)
    → (o >>= k) ≢ out_of_fuel
after n (returns (m, p)) k w total = total m p w
after n panics k w total = λ e. cc
after n out_of_fuel k w total = absurd w

message_loop-ne-out_of_fuel :
    (fuel : ℕ) (p : PacketReader) (acc : List Message)
    → AreSmall p.transport
    → length p.pkt ≤ max_fragment_size
    → pending p < fuel
    → message_loop fuel p acc ≢ out_of_fuel
unfolding message_loop
message_loop-ne-out_of_fuel zero p acc small fit enough = absurd (omega arith)
message_loop-ne-out_of_fuel (suc fuel) p acc small fit enough =
    elim (Bool-cases (has_more_data p)) [
      | inr done ↦ rw done (λ e. cc)
      | inl more ↦
          let ahead : p.read_ptr < p.size = ltb→lt _ _ more in
          rw more (
            after (pending p - 1) (handle_msg_frame p) _ (handle_msg_frame-Within p small fit ahead)
              (λ m p' w. message_loop-ne-out_of_fuel fuel p' (acc ++ m ∷ []) w.2 w.1 (omega arith)))
    ]

total_bind {ℓ κ} :
    {A : Type ℓ} {B : Type κ} (o : Outcome A) (g : A → B)
    → o ≢ out_of_fuel
    → (o >>= λ a. returns (g a)) ≢ out_of_fuel
total_bind (returns a) g total = λ e. cc
total_bind panics g total = λ e. cc
total_bind out_of_fuel g total = λ e. total refl

-- readMessage ends: where no frame of the transport is larger than the buffer of handleMsgFrame, as
-- many rounds as there are bytes and frames are enough, whatever the bytes are.
pub read_message-ne-out_of_fuel :
    (frames : List Received) (fuel : ℕ)
    → AreSmall frames
    → weight frames < fuel
    → read_message fuel frames ≢ out_of_fuel
unfolding read_message
read_message-ne-out_of_fuel [] fuel small enough = λ e. cc
read_message-ne-out_of_fuel (f ∷ fs) fuel small enough = elim (Bool-cases f.failed) [
  | inl broken ↦ rw broken (λ e. cc)
  | inr good ↦ rw good (
      total_bind (message_loop fuel (at_frame fs f.size f.bytes 0) []) _ (
        message_loop-ne-out_of_fuel fuel (at_frame fs f.size f.bytes 0) [] small.1 small.0
          (omega arith)))
]
