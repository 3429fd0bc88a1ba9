-- ===== src/Web/Oidc/Replay.antt =====
-- A state is consumed once.
use home_rdp_gateway.Base.{
  ℕ, ◌≡◌, refl, ap, ◌+◌, ◌<◌, ◌≤◌, inl, inr, Bool, true, false, Bool-cases, ltb, Option, none, some,
  List, [], ◌∷◌, arith, Option-cases,
}
use home_rdp_gateway.Base.Texts.{Text, text_eq, text_eq_iff, text_eq_refl}
use home_rdp_gateway.Base.Assoc.{lookup}
use home_rdp_gateway.Base.Options.{chain-some, demand-some}
use home_rdp_gateway.Web.Oidc.Transactions.{
  Transaction, ConsumedStates, unexpired, mark_consumed, Slot, read_transaction, get_transaction,
  Consumed, failed, unknown, found, Clock, consume_marked, consume_found, consume,
}

lookup-unexpired :
    (s : Text) (now e : ℕ) (m : List (Text × ℕ))
    → lookup s m ≡ some e
    → now < e
    → lookup s (unexpired now m) ≡ some e
unfolding lookup unexpired
lookup-unexpired s now e [] h l = h
lookup-unexpired s now e ((t, d) ∷ m) h l = ground (arith, lookup-unexpired s now e m)

pub lookup-unexpired-none :
    (s : Text) (now : ℕ) (m : List (Text × ℕ))
    → lookup s m ≡ none
    → lookup s (unexpired now m) ≡ none
unfolding lookup unexpired
lookup-unexpired-none s now [] h = refl
lookup-unexpired-none s now ((t, d) ∷ m) h = ground (arith, lookup-unexpired-none s now m)

-- A state that is kept stays kept until it expires, and is not consumed again until then.
mark_consumed-kept :
    (s t : Text) (now e : ℕ) (c : ConsumedStates)
    → lookup s c.states ≡ some e
    → now < e
    → lookup s (mark_consumed t now c).0.states ≡ some e
unfolding mark_consumed lookup
mark_consumed-kept s t now e c h l =
    ground (arith, lookup-unexpired s now e c.states h l, text_eq_iff t s)

mark_consumed-again :
    (s : Text) (now e : ℕ) (c : ConsumedStates)
    → lookup s c.states ≡ some e
    → now < e
    → (mark_consumed s now c).1 ≡ false
unfolding mark_consumed
mark_consumed-again s now e c h l = ground (arith, lookup-unexpired s now e c.states h l)

mark_consumed-ttl :
    (s : Text) (now : ℕ) (c : ConsumedStates) → (mark_consumed s now c).0.ttl ≡ c.ttl
unfolding mark_consumed
mark_consumed-ttl s now c = ground arith

mark_consumed-new :
    (s : Text) (now : ℕ) (c : ConsumedStates)
    → (mark_consumed s now c).1 ≡ true
    → lookup s (mark_consumed s now c).0.states ≡ some (now + c.ttl)
unfolding mark_consumed lookup
mark_consumed-new s now c h = ground (arith, text_eq_refl s)

-- A request that completes a sign-in: what its session holds, the state it names, when the clock is read and
-- whether its session can be saved.
pub record Attempt : Type 0 where
  pub session : Option Slot
  pub state : Text
  pub clock : Clock
  pub saves : Bool

module _ (unmarshal : Text → Option Transaction) where
  abbrev pub attempt : Attempt → ConsumedStates → ConsumedStates × Consumed
  attempt a c = consume unmarshal a.saves a.clock a.session a.state c

  abbrev pub attempt_all : List Attempt → ConsumedStates → ConsumedStates
  attempt_all [] c = c
  attempt_all (a ∷ others) c = attempt_all others (attempt a c).0

-- The states were marked before `now`, or at it.
abbrev pub MarkedBy : ℕ → List Attempt → Type 0
MarkedBy now [] = Unit
MarkedBy now (a ∷ others) = (a.clock.marked ≤ now) × MarkedBy now others

marked_found :
    (saves : Bool) (t u : Transaction) (m : ConsumedStates × Bool)
    → (consume_marked saves t m).1 ≡ found u
    → (m.1 ≡ true) × (t ≡ u) × ((consume_marked saves t m).0 ≡ m.0) × (saves ≡ true)
unfolding consume_marked
marked_found true t u (c, true) h = (refl, ground arith, refl, refl)
marked_found false t u (c, true) h = let bad : failed ≡ found u = h in cc
marked_found saves t u (c, false) h = let bad : unknown ≡ found u = h in cc

consume_found-found :
    (saves : Bool) (now : ℕ) (state : Text) (o : Option Transaction) (c : ConsumedStates)
    (u : Transaction)
    → (consume_found saves now state o c).1 ≡ found u
    → (o ≡ some u)
      × ((mark_consumed state now c).1 ≡ true)
      × ((consume_found saves now state o c).0 ≡ (mark_consumed state now c).0)
      × (saves ≡ true)
unfolding consume_found
consume_found-found saves now state none c u h = let bad : unknown ≡ found u = h in cc
consume_found-found saves now state (some t) c u h =
    let (m, e, q, s) = marked_found saves t u (mark_consumed state now c) h in (ap some e, m, q, s)

-- A transaction is found only as the session holds it, unexpired, for a state that is new.
pub consume-found :
    (unmarshal : Text → Option Transaction) (a : Attempt) (c : ConsumedStates) (u : Transaction)
    → (attempt unmarshal a c).1 ≡ found u
    → (get_transaction unmarshal a.clock.checked a.session a.state ≡ some u)
      × ((mark_consumed a.state a.clock.marked c).1 ≡ true)
      × ((attempt unmarshal a c).0 ≡ (mark_consumed a.state a.clock.marked c).0)
      × (a.saves ≡ true)
unfolding consume
consume-found unmarshal a c u h = elim (Option-cases a.session) [
  | inl e ↦ let bad : failed ≡ found u = rw (e, consume) at h in cc
  | inr (slot, e) ↦ rw e (
      consume_found-found a.saves a.clock.marked a.state
        (get_transaction unmarshal a.clock.checked (some slot) a.state) c u (rw (e, consume) at h))
]

pub get_transaction-some :
    (unmarshal : Text → Option Transaction) (now : ℕ) (session : Option Slot) (state : Text)
    (u : Transaction)
    → get_transaction unmarshal now session state ≡ some u
    → (read_transaction unmarshal session ≡ some u) × (u.state ≡ state) × (now < u.expires_at)
unfolding get_transaction
get_transaction-some unmarshal now session state u h =
    let (t, r, k) = chain-some (read_transaction unmarshal session) _ u h in
    let (same, l) = demand-some (text_eq t.state state) _ u k in
    let (valid, m) = demand-some (ltb now t.expires_at) _ u l in
    let q = (text_eq_iff t.state state).0 same in
    let e : t ≡ u = ground arith in (ground arith, ground arith, ground arith)

consume_marked-states :
    (saves : Bool) (t : Transaction) (m : ConsumedStates × Bool)
    → (consume_marked saves t m).0 ≡ m.0
unfolding consume_marked
consume_marked-states saves t (c, true) = refl
consume_marked-states saves t (c, false) = refl

consume_found-kept :
    (saves : Bool) (now e : ℕ) (s state : Text) (o : Option Transaction) (c : ConsumedStates)
    → lookup s c.states ≡ some e
    → now < e
    → lookup s (consume_found saves now state o c).0.states ≡ some e
unfolding consume_found
consume_found-kept saves now e s state none c h l = h
consume_found-kept saves now e s state (some t) c h l =
    rw (consume_marked-states saves t (mark_consumed state now c))
      (mark_consumed-kept s state now e c h l)

attempt-kept :
    (unmarshal : Text → Option Transaction) (a : Attempt) (e : ℕ) (s : Text) (c : ConsumedStates)
    → lookup s c.states ≡ some e
    → a.clock.marked < e
    → lookup s (attempt unmarshal a c).0.states ≡ some e
unfolding consume
attempt-kept unmarshal a e s c h l = elim (Option-cases a.session) [
  | inl q ↦ rw (q, consume) h
  | inr (slot, q) ↦
      rw (q, consume)
        (consume_found-kept a.saves a.clock.marked e s a.state
          (get_transaction unmarshal a.clock.checked (some slot) a.state) c h l)
]

attempt_all-kept :
    (unmarshal : Text → Option Transaction) (now e : ℕ) (s : Text) (others : List Attempt)
    (c : ConsumedStates)
    → lookup s c.states ≡ some e
    → now < e
    → MarkedBy now others
    → lookup s (attempt_all unmarshal others c).states ≡ some e
attempt_all-kept unmarshal now e s [] c h l m = h
attempt_all-kept unmarshal now e s (a ∷ others) c h l (p, m) =
    attempt_all-kept unmarshal now e s others (attempt unmarshal a c).0
      (attempt-kept unmarshal a e s c h (omega arith)) l m

pub not_early :
    (unmarshal : Text → Option Transaction) (b : Attempt) (e : ℕ) (c : ConsumedStates)
    (u : Transaction)
    → lookup b.state c.states ≡ some e
    → (attempt unmarshal b c).1 ≡ found u
    → e ≤ b.clock.marked
not_early unmarshal b e c u h g =
    let (t, m, s, v) = consume-found unmarshal b c u g in
    elim (Bool-cases (ltb b.clock.marked e)) [
      | inl l ↦ let again = mark_consumed-again b.state b.clock.marked e c h (ground arith) in cc
      | inr l ↦ ground arith
    ]

-- A sign-in completes once. When an attempt has found its transaction, then whatever attempts come in between,
-- an attempt of the same state that is marked no earlier than these finds a transaction that expires no later
-- than the mark of the first, as one does that was made before it, only if the mark has run out and the
-- transaction expires between the two times at which the attempt reads the clock: not before it is checked, and
-- no later than it is marked.
pub consume_once :
    (unmarshal : Text → Option Transaction) (a b : Attempt) (others : List Attempt)
    (c : ConsumedStates) (t u : Transaction)
    → (attempt unmarshal a c).1 ≡ found t
    → b.state ≡ a.state
    → MarkedBy b.clock.marked others
    → u.expires_at ≤ a.clock.marked + c.ttl
    → (attempt unmarshal b (attempt_all unmarshal others (attempt unmarshal a c).0)).1 ≡ found u
    → (a.clock.marked + c.ttl ≤ b.clock.marked)
      × (b.clock.checked < u.expires_at)
      × (u.expires_at ≤ b.clock.marked)
consume_once unmarshal a b others c t u f same m x g =
    let (gt, new, states, v) = consume-found unmarshal a c t f in
    let first = (attempt unmarshal a c).0 in
    let after = attempt_all unmarshal others first in
    let e = a.clock.marked + c.ttl in
    let kept : lookup a.state first.states ≡ some e =
      rw states (mark_consumed-new a.state a.clock.marked c new) in
    let late : e ≤ b.clock.marked = elim (Bool-cases (ltb b.clock.marked e)) [
      | inl l ↦
          not_early unmarshal b e after u
            (rw same (
              attempt_all-kept unmarshal b.clock.marked e a.state others first kept (ground arith)
                m))
            g
      | inr l ↦ ground arith
    ] in
    let (gu, new2, states2, v2) = consume-found unmarshal b after u g in
    let (r, s, l) = get_transaction-some unmarshal b.clock.checked b.session b.state u gu in
    (late, l, omega arith)
