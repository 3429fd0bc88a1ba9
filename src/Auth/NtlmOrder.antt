-- ===== src/Auth/NtlmOrder.antt =====
-- The order of the NTLM messages of a session.
use home_rdp_gateway.Base.{
  ℕ, ◌≡◌, ◌⊎◌, inl, inr, refl, Bool, true, false, Bool-cases, Option-cases, Option, none, some,
  List, [], ◌∷◌,
}
use home_rdp_gateway.Base.Texts.{Text, text_eq, text_eq_refl}
use home_rdp_gateway.Base.Assoc.{lookup, erase, assign}
use home_rdp_gateway.Go.Strings.{is_empty}
use home_rdp_gateway.Auth.Ntlm.{
  NtlmRequest, Negotiation, parsed, first_type, other, Library, Outcome, send_challenge,
  answer_negotiate, judge, negotiate, authenticate_message, later_message, dispatch, run_context,
  Cache, context_of, settle, ntlm_authenticate,
}

module _ {S N M : Type 0} (lib : Library S N M) where
  -- The server session has sent its challenge; it may have refused answers since.
  pub data IsChallenged : S → Type 0 where
    challenged :
        (made before after : S) (nm : N) (text : Text)
        → lib.process_negotiate nm (lib.configure made) ≡ (before, true)
        → lib.challenge before ≡ (after, some text)
        → IsChallenged after
    again :
        (before after : S) (am : M) (name password : Text)
        → IsChallenged before
        → lib.process_authenticate am (lib.set_user_info name password before) ≡ (after, false)
        → IsChallenged after

  abbrev pub IsHeld : Option S → Type 0
  IsHeld none = ⊥
  IsHeld (some s) = IsChallenged s

  abbrev pub AreHeld : Cache lib → Type 0
  AreHeld [] = Unit
  AreHeld ((k, c) ∷ m) = IsHeld c × AreHeld m

  -- A context has sent its challenge when its call ends without an error, unless the call accepts.
  abbrev IsKept : Outcome lib → Type 0
  IsKept (c, r, none) = (r.authenticated ≡ true) ⊎ IsHeld c
  IsKept (c, r, some e) = Unit

  abbrev pub IsNone : Option S → Type 0
  IsNone none = Unit
  IsNone (some s) = IsChallenged s

  sent-IsKept :
      (made before : S) (nm : N) (p : S × Option Text)
      → lib.process_negotiate nm (lib.configure made) ≡ (before, true)
      → lib.challenge before ≡ p
      → IsKept (send_challenge lib p)
  sent-IsKept made before nm (s, none) e f = tt
  sent-IsKept made before nm (s, some text) e f = inr (challenged made before s nm text e f)

  answer-IsKept :
      (made : S) (nm : N) (p : S × Bool)
      → lib.process_negotiate nm (lib.configure made) ≡ p
      → IsKept (answer_negotiate lib p)
  unfolding answer_negotiate
  answer-IsKept made nm (s, false) e = tt
  answer-IsKept made nm (s, true) e = sent-IsKept made s nm (lib.challenge s) e refl

  judge-IsKept :
      (before : S) (am : M) (name password : Text) (p : S × Bool)
      → IsChallenged before
      → lib.process_authenticate am (lib.set_user_info name password before) ≡ p
      → IsKept (judge lib name p)
  judge-IsKept before am name password (s, false) k e = inr (again before s am name password k e)
  judge-IsKept before am name password (s, true) k e = inl refl

  authenticate-IsKept :
      (password : Text → Text) (am : M) (s : S)
      → IsChallenged s
      → IsKept (authenticate_message lib password am (some s))
  unfolding authenticate_message
  authenticate-IsKept password am s k = elim (Bool-cases (is_empty (password (lib.user_name am)))) [
    | inl e ↦ rw (e, authenticate_message) (inr k)
    | inr e ↦
        let name = lib.user_name am in
        rw (e, authenticate_message)
          (judge-IsKept s am name (password name)
            (lib.process_authenticate am (lib.set_user_info name (password name) s)) k refl)
  ]

  later-IsKept :
      (password : Text → Text) (bytes : List ℕ) (c : Option S)
      → IsNone c
      → IsKept (later_message lib password bytes c)
  unfolding later_message
  later-IsKept password bytes none k = tt
  later-IsKept password bytes (some s) k = elim (Option-cases (lib.parse_authenticate bytes)) [
    | inl e ↦ rw (e, later_message) tt
    | inr (am, e) ↦ rw (e, later_message) (authenticate-IsKept password am s k)
  ]

  negotiate-IsKept : (created : Option S) (nm : N) → IsKept (negotiate lib created nm)
  unfolding negotiate
  negotiate-IsKept none nm = tt
  negotiate-IsKept (some s) nm =
      answer-IsKept s nm (lib.process_negotiate nm (lib.configure s)) refl

  parsed-IsKept :
      (password : Text → Text) (created : Option S) (bytes : List ℕ) (c : Option S)
      (n : Negotiation N)
      → IsNone c
      → IsKept (dispatch lib password created bytes c n)
  parsed-IsKept password created bytes c (parsed nm) k = negotiate-IsKept created nm
  parsed-IsKept password created bytes c first_type k = tt
  parsed-IsKept password created bytes c other k = later-IsKept password bytes c k

  run-IsKept :
      (password : Text → Text) (created : Option S) (message : Text) (c : Option S)
      → IsNone c
      → IsKept (run_context lib password created message c)
  unfolding run_context
  run-IsKept password created message c k = elim (Option-cases (lib.decode message)) [
    | inl e ↦ rw (e, run_context) tt
    | inr (bytes, e) ↦
        rw (e, run_context) (parsed-IsKept password created bytes c (lib.parse_negotiate bytes) k)
  ]

  erase-AreHeld : (k : Text) (m : Cache lib) → AreHeld m → AreHeld (erase k m)
  unfolding erase
  erase-AreHeld k [] a = tt
  erase-AreHeld k ((j, c) ∷ m) (h, a) = elim (Bool-cases (text_eq j k)) [
    | inl e ↦ rw (e, erase) (erase-AreHeld k m a)
    | inr e ↦ rw (e, erase) (h, erase-AreHeld k m a)
  ]

  removed-AreHeld :
      (k : Text) (c : Option S) (m : Cache lib) → AreHeld m → AreHeld (erase k (assign k c m))
  unfolding erase assign
  removed-AreHeld k c m a = rw (text_eq_refl k) (erase-AreHeld k (erase k m) (erase-AreHeld k m a))

  settle-AreHeld :
      (k : Text) (m : Cache lib) (o : Outcome lib)
      → AreHeld m
      → IsKept o
      → AreHeld (settle lib k m o).0
  unfolding assign
  settle-AreHeld k m (c, r, some e) a h = removed-AreHeld k c m a
  settle-AreHeld k m (c, r, none) a h = elim (Bool-cases r.authenticated) [
    | inl e ↦ rw e (removed-AreHeld k c m a)
    | inr e ↦ elim h [ inl b ↦ cc | inr i ↦ rw e (i, erase-AreHeld k m a) ]
  ]

  pub context-IsNone : (k : Text) (m : Cache lib) → AreHeld m → IsNone (context_of lib (lookup k m))
  unfolding lookup
  context-IsNone k [] a = tt
  context-IsNone k ((j, none) ∷ m) (h, a) = absurd h
  context-IsNone k ((j, some s) ∷ m) (h, a) = elim (Bool-cases (text_eq j k)) [
    | inl e ↦ rw (e, lookup) h
    | inr e ↦ rw (e, lookup) (context-IsNone k m a)
  ]

  -- The cache after any calls and any contexts that ran out; the passwords may change between two calls.
  pub data IsServed : Cache lib → Type 0 where
    starts : IsServed []
    expires : (session : Text) (cache : Cache lib) → IsServed cache → IsServed (erase session cache)
    answers :
        (password : Text → Text) (created : Option S) (q : NtlmRequest) (cache : Cache lib)
        → IsServed cache
        → IsServed (ntlm_authenticate lib password created q cache).0

  ntlm_authenticate-AreHeld :
      (password : Text → Text) (created : Option S) (q : NtlmRequest) (cache : Cache lib)
      → AreHeld cache
      → AreHeld (ntlm_authenticate lib password created q cache).0
  unfolding ntlm_authenticate
  ntlm_authenticate-AreHeld password created q cache a = elim (Bool-cases (is_empty q.session)) [
    | inl e ↦ rw (e, ntlm_authenticate) a
    | inr e ↦ elim (Bool-cases (is_empty q.ntlm_message)) [
      | inl f ↦ rw (e, f, ntlm_authenticate) a
      | inr f ↦
          let c = context_of lib (lookup q.session cache) in
          rw (e, f, ntlm_authenticate)
            (settle-AreHeld q.session cache (run_context lib password created q.ntlm_message c) a
              (run-IsKept password created q.ntlm_message c (context-IsNone q.session cache a)))
    ]
  ]

  pub served-AreHeld : (cache : Cache lib) → IsServed cache → AreHeld cache
  served-AreHeld _ starts = tt
  served-AreHeld _ (expires session cache s) = erase-AreHeld session cache (served-AreHeld cache s)
  served-AreHeld _ (answers password created q cache s) =
      ntlm_authenticate-AreHeld password created q cache (served-AreHeld cache s)
