-- ===== src/Protocol/Processor/Cases.antt =====
-- A property of the handling of a packet follows from the property of each case of the switch.
use home_rdp_gateway.Base.{
  ℕ, sym, Bool-cases, Option-cases, ==_iff, inl, inr, Bool, ◌==◌, if◌then◌else◌, List, [], ◌∷◌,
}
use home_rdp_gateway.Base.Texts.{Text}
use home_rdp_gateway.Wire.{Bytes}
use mathlib.Core.Path.{subst}
use home_rdp_gateway.Protocol.PktType
use home_rdp_gateway.Protocol.Reader.{Message}
use home_rdp_gateway.Protocol.Gateway.{Processor}
use home_rdp_gateway.Protocol.Processor.Defs.{
  Step, next, stop, crash, on_handshake, on_tunnel_create, on_tunnel_auth, on_channel_create,
  on_data, on_keepalive, on_close_channel, dispatch, handle, handle_all,
}

module _ (P : ℕ → Step → Type 0) where
  switch : (pt k : ℕ) (a b : Step) → P k a → P pt b → P pt (if pt == k then a else b)
  switch pt k a b here there = elim (Bool-cases (pt == k)) [
    | inl same ↦ rw same (subst (λ t. P t a) (sym ((==_iff pt k).0 same)) here)
    | inr other ↦ rw other there
  ]

  module _ (dial : Text → Bool) (p : Processor) (msg : Bytes) where
    pub dispatch_cases :
        P PktType.handshake_request (on_handshake p msg)
        → P PktType.tunnel_create (on_tunnel_create p msg)
        → P PktType.tunnel_auth (on_tunnel_auth p msg)
        → P PktType.channel_create (on_channel_create dial p msg)
        → P PktType.data_packet (on_data p msg)
        → P PktType.keepalive (on_keepalive p)
        → P PktType.close_channel (on_close_channel p)
        → ((pt : ℕ) → P pt (next p))
        → (pt : ℕ) → P pt (dispatch dial p pt msg)
    unfolding dispatch
    dispatch_cases h1 h2 h3 h4 h5 h6 h7 h8 pt = switch pt _ _ _ h1 (
        switch pt _ _ _ h2 (
          switch pt _ _ _ h3 (
            switch pt _ _ _ h4
              (switch pt _ _ _ h5 (switch pt _ _ _ h6 (switch pt _ _ _ h7 (h8 pt)))))))

-- A property that the handling of each packet keeps is kept by a run over messages.
module _ (Q : Step → Type 0) (dial : Text → Bool) where
  handle_cases :
      ((p : Processor) (pt : ℕ) (msg : Bytes) → Q (next p) → Q (dispatch dial p pt msg))
      → (p : Processor) (m : Message) → Q (next p)
      → Q (handle dial p m)
  unfolding handle
  handle_cases keep p m h = elim (Option-cases m.err) [
    | inl e ↦ rw e (keep p m.packet_type m.msg h)
    | inr (x, e) ↦ rw e h
  ]

  pub go_on :
      (s : Step) (ms : List Message)
      → Q s
      → ((p : Processor) → Q (next p) → Q (handle_all dial p ms))
      → Q (elim s [ next p ↦ handle_all dial p ms | stop p e ↦ stop p e | crash ↦ crash ])
  go_on (next p) ms h k = k p h
  go_on (stop p e) ms h k = h
  go_on crash ms h k = h

  pub handle_all_cases :
      ((p : Processor) (pt : ℕ) (msg : Bytes) → Q (next p) → Q (dispatch dial p pt msg))
      → (ms : List Message) (p : Processor) → Q (next p)
      → Q (handle_all dial p ms)
  unfolding handle_all
  handle_all_cases keep [] p h = h
  handle_all_cases keep (m ∷ ms) p h =
      go_on (handle dial p m) ms (handle_cases keep p m h) (handle_all_cases keep ms)
