-- ===== src/Auth/NtlmAcceptance.antt =====
-- What an accepted NTLM message shows.
use home_rdp_gateway.Base.{
  ℕ, ◌≡◌, inl, inr, refl, sym, ap, ◌∙◌, Bool, true, false, Bool-cases, Option-cases, Option, none,
  some, List, arith,
}
use mathlib.Core.Path.{subst}
use home_rdp_gateway.Base.Texts.{Text, text_eq_refl}
use home_rdp_gateway.Base.Assoc.{lookup, erase, assign, lookup-erase}
use home_rdp_gateway.Go.Strings.{is_empty}
use home_rdp_gateway.Auth.Ntlm.{
  NtlmRequest, NtlmResponse, Negotiation, parsed, first_type, other, Library, Outcome,
  send_challenge, answer_negotiate, judge, negotiate, authenticate_message, later_message, dispatch,
  run_context, Cache, context_of, settle, ntlm_authenticate,
}
use home_rdp_gateway.Auth.NtlmOrder.{IsNone, context-IsNone, IsChallenged, IsServed, served-AreHeld}

module _ {S N M : Type 0} (lib : Library S N M) where
  -- The message is an authenticate message for a server session, of a user with a password, and the
  -- library accepts it.
  abbrev pub IsProof : (Text → Text) → List ℕ → S → M → Text → Type 0
  IsProof password bytes s am name =
      (lib.parse_authenticate bytes ≡ some am)
      × (name ≡ lib.user_name am)
      × (is_empty (password name) ≡ false)
      × ((lib.process_authenticate am (lib.set_user_info name (password name) s)).1 ≡ true)

  judge-accepted :
      (name : Text) (p : S × Bool)
      → (judge lib name p).1.authenticated ≡ true
      → (p.1 ≡ true) × ((judge lib name p).1.username ≡ name)
  judge-accepted name (s, true) h = (refl, refl)
  judge-accepted name (s, false) h = cc

  later-accepted :
      (password : Text → Text) (bytes : List ℕ) (c : Option S)
      → (later_message lib password bytes c).1.authenticated ≡ true
      → (s : S) × (am : M) × (c ≡ some s)
        × IsProof password bytes s am (later_message lib password bytes c).1.username
  unfolding later_message authenticate_message
  later-accepted password bytes none h = cc
  later-accepted password bytes (some s) h = elim (Option-cases (lib.parse_authenticate bytes)) [
    | inl e ↦ let bad : false ≡ true = rw (e, later_message) at h in cc
    | inr (am, e) ↦ elim (Bool-cases (is_empty (password (lib.user_name am)))) [
      | inl b ↦ let bad : false ≡ true = rw (e, b, later_message, authenticate_message) at h in cc
      | inr b ↦
          let name = lib.user_name am in
          let p = lib.process_authenticate am (lib.set_user_info name (password name) s) in
          let ok : (judge lib name p).1.authenticated ≡ true =
            rw (e, b, later_message, authenticate_message) at h in
          let (good, same) = judge-accepted name p ok in
          let user : (later_message lib password bytes (some s)).1.username ≡ name =
            rw (e, b, later_message, authenticate_message) same in
          (
            s,
            am,
            refl,
            (
              e,
              user,
              ap (λ n. is_empty (password n)) user ∙ b,
              ap (λ n. (lib.process_authenticate am (lib.set_user_info n (password n) s)).1) user
                  ∙ good,
            ),
          )
    ]
  ]

  sent-plain : (p : S × Option Text) → (send_challenge lib p).1.authenticated ≡ false
  sent-plain (s, none) = refl
  sent-plain (s, some text) = refl

  answer-plain : (p : S × Bool) → (answer_negotiate lib p).1.authenticated ≡ false
  unfolding answer_negotiate
  answer-plain (s, false) = refl
  answer-plain (s, true) = sent-plain (lib.challenge s)

  negotiate-plain :
      (created : Option S) (nm : N) → (negotiate lib created nm).1.authenticated ≡ false
  unfolding negotiate
  negotiate-plain none nm = refl
  negotiate-plain (some s) nm = answer-plain (lib.process_negotiate nm (lib.configure s))

  dispatch-accepted :
      (password : Text → Text) (created : Option S) (bytes : List ℕ) (c : Option S)
      (n : Negotiation N)
      → (dispatch lib password created bytes c n).1.authenticated ≡ true
      → (s : S) × (am : M) × (c ≡ some s)
        × IsProof password bytes s am (dispatch lib password created bytes c n).1.username
  dispatch-accepted password created bytes c (parsed nm) h =
      let no' = negotiate-plain created nm in cc
  dispatch-accepted password created bytes c first_type h = cc
  dispatch-accepted password created bytes c other h = later-accepted password bytes c h

  run-accepted :
      (password : Text → Text) (created : Option S) (message : Text) (c : Option S)
      → (run_context lib password created message c).1.authenticated ≡ true
      → (bytes : List ℕ) × (s : S) × (am : M) × (lib.decode message ≡ some bytes)
        × (c ≡ some s)
        × IsProof password bytes s am (run_context lib password created message c).1.username
  unfolding run_context
  run-accepted password created message c h = elim (Option-cases (lib.decode message)) [
    | inl e ↦ let bad : false ≡ true = rw (e, run_context) at h in cc
    | inr (bytes, e) ↦
        let n = lib.parse_negotiate bytes in
        let (s, am, held, proof) =
          dispatch-accepted password created bytes c n (rw (e, run_context) at h) in
        (bytes, s, am, e, held, rw (e, run_context) proof)
  ]

  settle-response : (k : Text) (m : Cache lib) (o : Outcome lib) → (settle lib k m o).1 ≡ o.1
  settle-response k m (c, r, none) = refl
  settle-response k m (c, r, some e) = refl

  gone : (k : Text) (m : Cache lib) → lookup k (erase k m) ≡ none
  gone k m = let same = text_eq_refl k in ground (arith, lookup-erase k k m)

  held : (o : Option (Option S)) (s : S) → context_of lib o ≡ some s → o ≡ some (some s)
  held none s e = cc
  held (some c) s e = ap some e

  settle-accepted :
      (k : Text) (m : Cache lib) (o : Outcome lib)
      → o.1.authenticated ≡ true
      → lookup k (settle lib k m o).0 ≡ none
  settle-accepted k m (c, r, none) h = rw h (gone k (assign k c m))
  settle-accepted k m (c, r, some e) h = gone k (assign k c m)

  -- After any calls, an accepted message comes to a session whose server has sent its challenge; it is an
  -- authenticate message that the library accepts for that server, with the user it names and that user's
  -- password, which is not empty; and the session is gone afterwards, so that no message is accepted in it
  -- before another challenge.
  pub ntlm_authenticate-IsProof :
      (password : Text → Text) (created : Option S) (q : NtlmRequest) (cache : Cache lib)
      → IsServed lib cache
      → (ntlm_authenticate lib password created q cache).1.authenticated ≡ true
      → (bytes : List ℕ) × (s : S) × (am : M) × (lib.decode q.ntlm_message ≡ some bytes)
        × (lookup q.session cache ≡ some (some s))
        × IsChallenged lib s
        × IsProof password bytes s am (ntlm_authenticate lib password created q cache).1.username
        × (lookup q.session (ntlm_authenticate lib password created q cache).0 ≡ none)
  unfolding ntlm_authenticate
  ntlm_authenticate-IsProof password created q cache served h =
      elim (Bool-cases (is_empty q.session)) [
        | inl e ↦ let bad : false ≡ true = rw (e, ntlm_authenticate) at h in cc
        | inr e ↦ elim (Bool-cases (is_empty q.ntlm_message)) [
          | inl f ↦ let bad : false ≡ true = rw (e, f, ntlm_authenticate) at h in cc
          | inr f ↦
              let c = context_of lib (lookup q.session cache) in
              let o = run_context lib password created q.ntlm_message c in
              let same = settle-response q.session cache o in
              let ok : o.1.authenticated ≡ true =
                ap (λ (r : NtlmResponse). r.authenticated) (sym same)
                ∙ rw (e, f, ntlm_authenticate) at h in
              let (bytes, s, am, decoded, known, proof) =
                run-accepted password created q.ntlm_message c ok in
              let greeted : IsChallenged lib s =
                subst (IsNone lib) known
                  (context-IsNone lib q.session cache (served-AreHeld lib cache served)) in
              let user : o.1.username ≡ (settle lib q.session cache o).1.username =
                ap (λ (r : NtlmResponse). r.username) (sym same) in
              (
                bytes,
                s,
                am,
                decoded,
                held (lookup q.session cache) s known,
                greeted,
                rw (e, f, ntlm_authenticate) (subst (IsProof password bytes s am) user proof),
                rw (e, f, ntlm_authenticate) (settle-accepted q.session cache o ok),
              )
        ]
      ]
