-- ===== src/Auth/SocketMode.antt =====
-- The modes of the helper's socket and of its directory, of cmd/auth/auth.go. A mode is a number, its bits
-- those of the permissions.
use home_rdp_gateway.Base.{
  ℕ, ◌+◌, ◌*◌, ◌/◌, ◌%◌, ◌-◌, ◌≤◌, ◌≡◌, inl, inr, Bool, not, ◌&&◌, ◌||◌, ◌==◌, ltb, leb, Bool-cases,
  Option-cases, Option, none, some, [], ◌∷◌, if◌then◌else◌, arith, drop,
}
use home_rdp_gateway.Base.Texts.{Text, codes}
use home_rdp_gateway.Go.Strings.{trim_space, is_empty, has_prefix}

-- `strconv.ParseUint` of base 8, from the value of the digits in front; none for an error. What is above
-- 0777 is refused as what is above the range of the type is.
unfoldable pub parse_digits : Text → ℕ → Option ℕ
parse_digits [] n = some n
parse_digits (c ∷ s) n =
    let rest = parse_digits s (8 * n + (c - b'0')) in
    if leb b'0' c && leb c b'7' then rest else none

-- `strings.TrimPrefix` for a prefix of two letters.
abbrev pub without : Text → Text → Text
without prefix s = if has_prefix s prefix then drop 2 s else s

unfoldable pub parse_octal_mode : Text → Option ℕ
parse_octal_mode value =
    let digits = without (codes "0O") (without (codes "0o") (trim_space value)) in
    if is_empty digits
    then none
    else elim (parse_digits digits 0) [ none ↦ none | some n ↦ if ltb 511 n then none else some n ]

-- The bits 0600, 0007 and 0111, and 0700.
abbrev pub owner_may_use : ℕ → Bool
owner_may_use m = m / 128 % 2 == 1 && m / 256 % 2 == 1

abbrev pub world_may : ℕ → Bool
world_may m = not (m % 8 == 0)

abbrev pub may_execute : ℕ → Bool
may_execute m = m % 2 == 1 || m / 8 % 2 == 1 || m / 64 % 2 == 1

abbrev pub check_socket_mode : ℕ → Option ℕ
check_socket_mode m =
    if not (owner_may_use m)
    then none
    else if world_may m
    then none
    else if may_execute m
    then none
    else some m

abbrev pub check_socket_dir_mode : ℕ → Option ℕ
check_socket_dir_mode m =
    if not (owner_may_use m && m / 64 % 2 == 1) then none else if world_may m then none else some m

unfoldable pub parse_socket_mode : Text → Option ℕ
parse_socket_mode value = elim (parse_octal_mode value) [
  | none ↦ none
  | some m ↦ check_socket_mode m
]

unfoldable pub parse_socket_dir_mode : Text → Option ℕ
parse_socket_dir_mode value = elim (parse_octal_mode value) [
  | none ↦ none
  | some m ↦ check_socket_dir_mode m
]

parse_octal_mode-le : (value : Text) (m : ℕ) → parse_octal_mode value ≡ some m → m ≤ 511
unfolding parse_octal_mode
parse_octal_mode-le value m e =
    let digits = without (codes "0O") (without (codes "0o") (trim_space value)) in
    elim (Bool-cases (is_empty digits)) [
      | inl b ↦ let bad : none ≡ some m = rw (b, parse_octal_mode) at e in cc
      | inr b ↦ elim (Option-cases (parse_digits digits 0)) [
        | inl p ↦ let bad : none ≡ some m = rw (b, p, parse_octal_mode) at e in cc
        | inr (n, p) ↦
            let same : (if ltb 511 n then none else some n) ≡ some m =
              rw (b, p, parse_octal_mode) at e in
            ground arith
      ]
    ]

checked :
    (m n : ℕ)
    → m ≤ 511
    → check_socket_mode m ≡ some n
    → (n / 64 ≡ 6) × (n / 8 % 2 ≡ 0) × (n % 8 ≡ 0)
checked m n h e = ground arith

checked_dir : (m n : ℕ) → m ≤ 511 → check_socket_dir_mode m ≡ some n → (n / 64 ≡ 7) × (n % 8 ≡ 0)
checked_dir m n h e = ground arith

-- A mode of the socket that is accepted lets its owner read and write and not execute, and gives its group
-- reading and writing at most and the world nothing; one of the directory lets the owner do all and gives
-- the world nothing.
pub parse_socket_mode_bits :
    (value : Text) (m : ℕ) (dir_value : Text) (d : ℕ)
    → parse_socket_mode value ≡ some m
    → parse_socket_dir_mode dir_value ≡ some d
    → ((m / 64 ≡ 6) × (m / 8 % 2 ≡ 0) × (m % 8 ≡ 0)) × ((d / 64 ≡ 7) × (d % 8 ≡ 0))
unfolding parse_socket_mode parse_socket_dir_mode
parse_socket_mode_bits value m dir_value d e f = elim (Option-cases (parse_octal_mode value)) [
  | inl p ↦ let bad : none ≡ some m = rw (p, parse_socket_mode) at e in cc
  | inr (k, p) ↦ elim (Option-cases (parse_octal_mode dir_value)) [
    | inl q ↦ let bad : none ≡ some d = rw (q, parse_socket_dir_mode) at f in cc
    | inr (l, q) ↦ (
      checked k m (parse_octal_mode-le value k p) (rw (p, parse_socket_mode) at e),
      checked_dir l d (parse_octal_mode-le dir_value l q) (rw (q, parse_socket_dir_mode) at f),
    )
  ]
]
