-- ===== src/Protocol/Processor/Termination.antt =====
-- Process returns once its transport has ended.
use home_rdp_gateway.Base.{
  ℕ, zero, suc, ◌+◌, ◌<◌, ◌≤◌, ◌≡◌, ◌≢◌, refl, Bool, Option, none, some, List, [], ◌∷◌, arith,
}
use home_rdp_gateway.Base.Outcome.{Outcome, returns, panics, out_of_fuel, ◌>>=◌}
use home_rdp_gateway.Base.Texts.{Text}
use home_rdp_gateway.Wire.{Bytes}
use home_rdp_gateway.Transport.{Received}
use home_rdp_gateway.Protocol.Reader.{Message, read_message, weight}
use home_rdp_gateway.Protocol.Reader.Progress.{AreSmall, read_message-ne-out_of_fuel}
use home_rdp_gateway.Protocol.Reader.Consumption.{Leaves, read_message-Leaves}
use home_rdp_gateway.Protocol.Gateway.{Processor, write}
use home_rdp_gateway.Protocol.Processor.Cases.{dispatch_cases, handle_all_cases}
use home_rdp_gateway.Protocol.Processor.Defs.{
  Step, next, stop, crash, run_check, on_handshake, on_tunnel_create, on_tunnel_auth,
  on_channel_create, receive, on_data, on_keepalive, on_close_channel, handle_all, Ending, proceed,
  react, process, take_in, tunnel_read,
}

-- A step that goes on has left the incoming transport alone.
abbrev pub KeepsTransport : List Received → Step → Type 0
KeepsTransport fs (next p) = p.tunnel.transport_in ≡ fs
KeepsTransport fs (stop p e) = Unit
KeepsTransport fs crash = Unit

module _ (dial : Text → Bool) (fs : List Received) where
  handshake_keeps :
      (p : Processor) (msg : Bytes)
      → p.tunnel.transport_in ≡ fs
      → KeepsTransport fs (on_handshake p msg)
  unfolding on_handshake write
  handshake_keeps p msg h = ground arith

  tunnel_create_keeps :
      (p : Processor) (msg : Bytes)
      → p.tunnel.transport_in ≡ fs
      → KeepsTransport fs (on_tunnel_create p msg)
  unfolding on_tunnel_create run_check write
  tunnel_create_keeps p msg h = ground arith

  tunnel_auth_keeps :
      (p : Processor) (msg : Bytes)
      → p.tunnel.transport_in ≡ fs
      → KeepsTransport fs (on_tunnel_auth p msg)
  unfolding on_tunnel_auth run_check write
  tunnel_auth_keeps p msg h = ground arith

  channel_create_keeps :
      (p : Processor) (msg : Bytes)
      → p.tunnel.transport_in ≡ fs
      → KeepsTransport fs (on_channel_create dial p msg)
  unfolding on_channel_create run_check write
  channel_create_keeps p msg h = ground arith

  data_keeps :
      (p : Processor) (msg : Bytes) → p.tunnel.transport_in ≡ fs → KeepsTransport fs (on_data p msg)
  unfolding on_data receive
  data_keeps p msg h = ground arith

  keepalive_keeps :
      (p : Processor) → p.tunnel.transport_in ≡ fs → KeepsTransport fs (on_keepalive p)
  unfolding on_keepalive
  keepalive_keeps p h = ground arith

  close_channel_keeps :
      (p : Processor) → p.tunnel.transport_in ≡ fs → KeepsTransport fs (on_close_channel p)
  unfolding on_close_channel
  close_channel_keeps p h = ground arith

  pub handle_all-KeepsTransport :
      (ms : List Message) (p : Processor)
      → p.tunnel.transport_in ≡ fs
      → KeepsTransport fs (handle_all dial p ms)
  handle_all-KeepsTransport = handle_all_cases (KeepsTransport fs) dial (λ p pt msg h.
      dispatch_cases (λ t s. KeepsTransport fs s) dial p msg (handshake_keeps p msg h)
        (tunnel_create_keeps p msg h) (tunnel_auth_keeps p msg h) (channel_create_keeps p msg h)
        (data_keeps p msg h) (keepalive_keeps p h) (close_channel_keeps p h) (λ t. h) pt)

  proceed_total :
      (again : Processor → Outcome Ending) (s : Step)
      → KeepsTransport fs s
      → ((p : Processor) → p.tunnel.transport_in ≡ fs → again p ≢ out_of_fuel)
      → proceed again s ≢ out_of_fuel
  unfolding proceed
  proceed_total again (next p) h k = k p h
  proceed_total again (stop p e) h k = λ q. cc
  proceed_total again crash h k = λ q. cc

module _ (dial : Text → Bool) where
  round_total :
      (o : Outcome (Option (List Message) × List Received)) (p : Processor) (n : ℕ)
      (again : Processor → Outcome Ending)
      → o ≢ out_of_fuel
      → Leaves n o
      → ((p' : Processor) (fs : List Received)
          → p'.tunnel.transport_in ≡ fs
          → weight fs ≤ n
          → AreSmall fs
          → again p' ≢ out_of_fuel)
      → ((o >>= λ r. returns (take_in p.tunnel r)) >>= react dial again p) ≢ out_of_fuel
  unfolding take_in react
  round_total (returns (none, fs)) p n again total l k = λ q. cc
  round_total (returns (some ms, fs)) p n again total l k =
      proceed_total dial fs again _ (handle_all-KeepsTransport dial fs ms _ refl)
        (λ p' e. k p' fs e l.0 l.1)
  round_total panics p n again total l k = λ q. cc
  round_total out_of_fuel p n again total l k = absurd (total refl)

  empty_read : read_message 1 [] ≡ returns (none, [])
  unfolding read_message
  empty_read = refl

  process_total :
      (fuel : ℕ) (fs : List Received) (p : Processor)
      → p.tunnel.transport_in ≡ fs
      → AreSmall fs
      → weight fs < fuel
      → process dial fuel p ≢ out_of_fuel
  unfolding process tunnel_read take_in react
  process_total zero fs p e small enough = absurd (omega arith)
  process_total (suc fuel) [] p e small enough =
      rw (e, empty_read) (unfold take_in react in (λ q. cc))
  process_total (suc fuel) (f ∷ fs) p e small enough = rw e (
      round_total (read_message (suc (weight (f ∷ fs))) (f ∷ fs)) p (f.size + weight fs)
        (process dial fuel)
        (read_message-ne-out_of_fuel (f ∷ fs) (suc (weight (f ∷ fs))) small (omega arith))
        (read_message-Leaves (suc (weight (f ∷ fs))) f fs small)
        (λ p' fs' e' w s. process_total fuel fs' p' e' s (omega arith)))

-- Process returns or panics, it does not run on: where no frame is larger than the defragmentation
-- buffer, as many rounds as the transport has bytes and frames are enough.
pub process-ne-out_of_fuel :
    (dial : Text → Bool) (fuel : ℕ) (p : Processor)
    → AreSmall p.tunnel.transport_in
    → weight p.tunnel.transport_in < fuel
    → process dial fuel p ≢ out_of_fuel
process-ne-out_of_fuel dial fuel p small enough =
    process_total dial fuel p.tunnel.transport_in p refl small enough
