-- ===== src/Auth/Ntlm.antt =====
-- cmd/auth/ntlm/ntlm.go: the NTLM exchanges, one for each session that the gateway names. The library
-- go-ntlm is a parameter: the type of its server sessions and messages, and its functions. Calls are one
-- after the other; the cache drops a context after a minute, at any point between two calls.
use home_rdp_gateway.Base.{ℕ, Bool, true, false, Option, none, some, List, [], if◌then◌else◌}
use home_rdp_gateway.Base.Texts.{Text}
use home_rdp_gateway.Base.Assoc.{lookup, erase, assign}
use home_rdp_gateway.Go.Strings.{is_empty}

pub data NtlmError : Type 0 where
  empty_session empty_message bad_encoding bad_negotiate no_negotiate bad_message no_server
        refused_negotiate no_challenge no_session :
      NtlmError

pub record NtlmRequest : Type 0 where
  pub session : Text
  pub ntlm_message : Text

pub record NtlmResponse : Type 0 where
  pub authenticated : Bool
  pub username : Text
  pub ntlm_message : Text

abbrev pub no_answer : NtlmResponse
no_answer = record { authenticated = false; username = []; ntlm_message = [] }

-- What ParseNegotiateMessage gives: a message, an error with a message of type 1, or another error.
pub data Negotiation (N : Type 0) : Type 0 where
  parsed : N → Negotiation N
  first_type : Negotiation N
  other : Negotiation N

-- What the program takes of go-ntlm and of base64: server sessions S, negotiate messages N and
-- authenticate messages M. `configure` sets the names of the server; `process_…` also gives whether there
-- was no error; `challenge` is the text of the challenge.
pub record Library (S N M : Type 0) : Type 0 where
  pub decode : Text → Option (List ℕ)
  pub parse_negotiate : List ℕ → Negotiation N
  pub parse_authenticate : List ℕ → Option M
  pub configure : S → S
  pub process_negotiate : N → S → S × Bool
  pub challenge : S → S × Option Text
  pub user_name : M → Text
  pub set_user_info : Text → Text → S → S
  pub process_authenticate : M → S → S × Bool

module _ {S N M : Type 0} (lib : Library S N M) where
  -- The session of a context, none for nil.
  abbrev pub Outcome : Type 0
  Outcome = Option S × NtlmResponse × Option NtlmError

  -- The end of negotiate, on what GenerateChallengeMessage gives.
  abbrev pub send_challenge : S × Option Text → Outcome
  send_challenge (s, none) = (some s, no_answer, some no_challenge)
  send_challenge (s, some text) = (some s, record no_answer { ntlm_message = text }, none)

  -- The rest of negotiate, once the session is made.
  unfoldable pub answer_negotiate : S × Bool → Outcome
  answer_negotiate (s, false) = (some s, no_answer, some refused_negotiate)
  answer_negotiate (s, true) = send_challenge (lib.challenge s)

  -- `created` is what CreateServerSession gives.
  unfoldable pub negotiate : Option S → N → Outcome
  negotiate none nm = (none, no_answer, some no_server)
  negotiate (some s) nm = answer_negotiate (lib.process_negotiate nm (lib.configure s))

  -- The end of authenticate, on what ProcessAuthenticateMessage gives.
  abbrev pub judge : Text → S × Bool → Outcome
  judge name (s, true) = (some s, record no_answer { authenticated = true; username = name }, none)
  judge name (s, false) = (some s, no_answer, none)

  -- `password` is Database.GetPassword.
  unfoldable pub authenticate_message : (Text → Text) → M → Option S → Outcome
  authenticate_message password am none = (none, no_answer, some no_session)
  authenticate_message password am (some s) =
      let name = lib.user_name am in
      if is_empty (password name)
      then (some s, no_answer, none)
      else judge name (lib.process_authenticate am (lib.set_user_info name (password name) s))

  -- The message is no negotiate message.
  unfoldable pub later_message : (Text → Text) → List ℕ → Option S → Outcome
  later_message password bytes none = (none, no_answer, some no_negotiate)
  later_message password bytes (some s) = elim (lib.parse_authenticate bytes) [
    | none ↦ (some s, no_answer, some bad_message)
    | some am ↦ authenticate_message password am (some s)
  ]

  abbrev pub dispatch : (Text → Text) → Option S → List ℕ → Option S → Negotiation N → Outcome
  dispatch password created bytes c (parsed nm) = negotiate created nm
  dispatch password created bytes c first_type = (c, no_answer, some bad_negotiate)
  dispatch password created bytes c other = later_message password bytes c

  -- ntlmContext.Authenticate.
  unfoldable pub run_context : (Text → Text) → Option S → Text → Option S → Outcome
  run_context password created message c = elim (lib.decode message) [
    | none ↦ (c, no_answer, some bad_encoding)
    | some bytes ↦ dispatch password created bytes c (lib.parse_negotiate bytes)
  ]

  abbrev pub Cache : Type 0
  Cache = List (Text × Option S)

  -- getContext: the context of the session, or a new one.
  abbrev pub context_of : Option (Option S) → Option S
  context_of none = none
  context_of (some c) = c

  -- The cache after a call: the context is kept, or removed.
  abbrev pub settle : Text → Cache → Outcome → Cache × NtlmResponse × Option NtlmError
  settle session cache (c, r, some e) = (erase session (assign session c cache), r, some e)
  settle session cache (c, r, none) = (
    if r.authenticated then erase session (assign session c cache) else assign session c cache,
    r,
    none,
  )

  -- NTLMAuth.Authenticate.
  unfoldable pub ntlm_authenticate :
      (Text → Text) → Option S → NtlmRequest → Cache → Cache × NtlmResponse × Option NtlmError
  unfolding lookup
  ntlm_authenticate password created q cache =
      if is_empty q.session
      then (cache, no_answer, some empty_session)
      else if is_empty q.ntlm_message
      then (cache, no_answer, some empty_message)
      else settle q.session cache
          (run_context password created q.ntlm_message (context_of (lookup q.session cache)))
