-- ===== src/Protocol/Reader/Consumption.antt =====
-- What readMessage leaves in the transport: less than there was.
use home_rdp_gateway.Base.{
  ℕ, zero, suc, ◌+◌, ◌-◌, ◌≤◌, some, List, [], ◌∷◌, ◌++◌, length, arith, Bool-cases, inl, inr,
  ltb→lt,
}
use home_rdp_gateway.Base.Outcome.{Outcome, returns, panics, out_of_fuel, ◌>>=◌}
use home_rdp_gateway.Transport.{Received}
use home_rdp_gateway.Protocol.Reader.Defs.{
  PacketReader, Message, max_fragment_size, has_more_data, handle_msg_frame, message_loop,
  read_message, weight,
}
use home_rdp_gateway.Protocol.Reader.Progress.{pending, AreSmall, Within, handle_msg_frame-Within}

abbrev pub Leaves {ℓ} : {A : Type ℓ} → ℕ → Outcome (A × List Received) → Type 0
Leaves n (returns (a, frames)) = (weight frames ≤ n) × AreSmall frames
Leaves n panics = Unit
Leaves n out_of_fuel = Unit

after-Leaves :
    (n : ℕ) (o : Outcome (Message × PacketReader)) {B : Type 0}
    (k : Message × PacketReader → Outcome (B × List Received))
    → Within (n - 1) o
    → ((m : Message) (p : PacketReader) → Within (n - 1) (returns (m, p)) → Leaves n (k (m, p)))
    → Leaves n (o >>= k)
after-Leaves n (returns (m, p)) k w h = h m p w
after-Leaves n panics k w h = tt
after-Leaves n out_of_fuel k w h = tt

weaken : (m n : ℕ) {A : Type 0} (o : Outcome (A × List Received)) → m ≤ n → Leaves m o → Leaves n o
weaken m n (returns (a, frames)) h l = (omega arith, l.1)
weaken m n panics h l = tt
weaken m n out_of_fuel h l = tt

message_loop-Leaves :
    (fuel : ℕ) (p : PacketReader) (acc : List Message)
    → AreSmall p.transport
    → length p.pkt ≤ max_fragment_size
    → Leaves (pending p) (message_loop fuel p acc)
unfolding message_loop
message_loop-Leaves zero p acc small fit = tt
message_loop-Leaves (suc fuel) p acc small fit = elim (Bool-cases (has_more_data p)) [
  | inr done ↦ rw done (omega arith, small)
  | inl more ↦ rw more (
      after-Leaves (pending p) (handle_msg_frame p) _
        (handle_msg_frame-Within p small fit (ltb→lt _ _ more))
        (λ m p' w.
          weaken (pending p') (pending p) _ (omega arith)
            (message_loop-Leaves fuel p' (acc ++ m ∷ []) w.2 w.1)))
]

wrap :
    (n : ℕ) {A B : Type 0} (o : Outcome (A × List Received)) (g : A → B)
    → Leaves n o
    → Leaves n (o >>= λ r. returns (g r.0, r.1))
wrap n (returns r) g l = l
wrap n panics g l = tt
wrap n out_of_fuel g l = tt

-- A read of a transport that has a frame leaves less than there was, and small frames only.
pub read_message-Leaves :
    (fuel : ℕ) (f : Received) (fs : List Received)
    → AreSmall (f ∷ fs)
    → Leaves (f.size + weight fs) (read_message fuel (f ∷ fs))
unfolding read_message
read_message-Leaves fuel f fs small = elim (Bool-cases f.failed) [
  | inl broken ↦ rw broken (omega arith, small.1)
  | inr good ↦
      let p : PacketReader = record {
        transport = fs;
        size = f.size;
        pkt = f.bytes;
        read_ptr = 0;
      } in
      rw good (
        wrap (f.size + weight fs) (message_loop fuel p []) some (
          weaken (pending p) (f.size + weight fs) (message_loop fuel p []) (omega arith)
            (message_loop-Leaves fuel p [] small.1 small.0)))
]
