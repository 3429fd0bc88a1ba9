-- ===== src/Go/Net.antt =====
-- Functions of package net: JoinHostPort and SplitHostPort.
use home_rdp_gateway.Base.{Bool, ◌||◌, Option, none, some, [], ◌∷◌, ◌++◌, any, ◌==◌, if◌then◌else◌}
use home_rdp_gateway.Base.Texts.{Text}

abbrev has_colon : Text → Bool
has_colon = any (λ c. c == b':')

unfoldable pub join_host_port : Text → Text → Text
join_host_port host port =
    if has_colon host then b'[' ∷ (host ++ b']' ∷ b':' ∷ port) else host ++ b':' ∷ port

-- The text in front of the last colon, and the text behind it.
split_last : Text → Option (Text × Text)
split_last [] = none
split_last (c ∷ s) = elim (split_last s) [
  | some (front, back) ↦ some (c ∷ front, back)
  | none ↦ if c == b':' then some ([], s) else none
]

-- The text without the `]` at its end.
strip_bracket : Text → Option Text
strip_bracket [] = none
strip_bracket (c ∷ []) = if c == b']' then some [] else none
strip_bracket (c ∷ d ∷ s) = elim (strip_bracket (d ∷ s)) [
  | none ↦ none
  | some host ↦ some (c ∷ host)
]

abbrev has_bracket : Text → Bool
has_bracket = any (λ c. c == b'[' || c == b']')

-- A host of the text in front of the last colon: in brackets, or without a colon.
host_of : Text → Option Text
unfolding strip_bracket
host_of [] = some []
host_of (c ∷ s) =
    if c == b'[' then strip_bracket s else if has_colon (c ∷ s) then none else some (c ∷ s)

-- `net.SplitHostPort`: the host and the port, `none` for an error.
unfoldable pub split_host_port : Text → Option (Text × Text)
unfolding split_last host_of
split_host_port s = elim (split_last s) [
  | none ↦ none
  | some (front, port) ↦ elim (host_of front) [
    | none ↦ none
    | some host ↦ if has_bracket host || has_bracket port then none else some (host, port)
  ]
]
