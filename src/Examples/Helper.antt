-- ===== src/Examples/Helper.antt =====
-- Calls of the authentication helper.
use home_rdp_gateway.Base.{
  ◌/◌, ◌%◌, ℕ, ◌≡◌, ◌↔◌, ◌⊎◌, refl, Bool, true, false, none, some, List, [], ◌∷◌, if◌then◌else◌,
}
use mathlib.Core.Path.{subst}
use home_rdp_gateway.Base.Texts.{Text, text_eq, codes}
use home_rdp_gateway.Base.Assoc.{lookup, erase, assign}
use home_rdp_gateway.Go.Strings.{is_empty}
use home_rdp_gateway.Go.Strings.{trim_space, trim_left, trim_right}
use home_rdp_gateway.Auth.SocketMode.{
  parse_socket_mode, parse_socket_dir_mode, parse_octal_mode, parse_digits, parse_socket_mode_bits,
}
use home_rdp_gateway.Auth.Users.{
  UserConfig, Config, modified, users_to_map, Disk, password_of, get_password, last_named, IsNewer,
  get_password-latest,
}
use home_rdp_gateway.Auth.Service.{UserPass, accepted, failure, authenticate, authenticate_iff}
use home_rdp_gateway.Auth.Ntlm.{
  NtlmRequest, parsed, other, Library, Cache, answer_negotiate, negotiate, authenticate_message,
  later_message, run_context, ntlm_authenticate,
}
use home_rdp_gateway.Auth.NtlmOrder.{IsChallenged, IsServed, starts, answers}
use home_rdp_gateway.Auth.NtlmAcceptance.{IsProof, ntlm_authenticate-IsProof}

abbrev users : List UserConfig
users = record { username = codes "ann"; password = codes "pw" } ∷ []

abbrev config : Config
config = record { users = []; config_file = codes "f"; mod_time = 1 }

abbrev disk : Disk
disk = record { first = modified 2; second = modified 2; parsed = some users }

abbrev no_hash : Text → Text → Bool
no_hash hash password = false

get_password-latest_example :
    ((get_password disk (codes "ann") config
        ≡ (config, password_of (lookup (codes "ann") config.users)))
      × ¬ ((us : List UserConfig) × (t : ℕ) × IsNewer disk config us t))
    ⊎ ((us : List UserConfig) × (t : ℕ) × IsNewer disk config us t
        × (get_password disk (codes "ann") config ≡ (
          record config { users = users_to_map us; mod_time = t },
          password_of (last_named (codes "ann") us),
        )))
get_password-latest_example = get_password-latest disk (codes "ann") config

abbrev message : UserPass
message = record { username = codes "ann"; password = codes "pw" }

authenticate_iff_example :
    let stored = (get_password disk message.username config).1 in
    (((authenticate no_hash disk message config).1.authenticated ≡ true) ↔ (
      (is_empty stored ≡ false)
      × ((no_hash stored message.password ≡ true) ⊎ (stored ≡ message.password))))
    × (((authenticate no_hash disk message config).1 ≡ accepted)
        ⊎ ((authenticate no_hash disk message config).1 ≡ failure))
authenticate_iff_example = authenticate_iff no_hash disk message config

-- A library whose messages are their texts: a session counts what it did, "n" is a negotiate message, and
-- any other text is the answer of the user "ann".
abbrev library : Library ℕ Text Text
library = record {
  decode = λ t. some t;
  parse_negotiate = λ t. if text_eq t (codes "n") then parsed t else other;
  parse_authenticate = λ t. some t;
  configure = λ s. s;
  process_negotiate = λ t s. (1, true);
  challenge = λ s. (2, some (codes "c"));
  user_name = λ t. codes "ann";
  set_user_info = λ name password s. s;
  process_authenticate = λ t s. (3, text_eq t (codes "a"));
}

abbrev pw : Text → Text
pw name = codes "pw"

abbrev waiting : Cache library
waiting = (codes "s", some 2) ∷ []

abbrev greeting : NtlmRequest
greeting = record { session = codes "s"; ntlm_message = codes "n" }

abbrev answer : NtlmRequest
answer = record { session = codes "s"; ntlm_message = codes "a" }

greeted : (ntlm_authenticate library pw (some 0) greeting []).0 ≡ waiting
unfolding ntlm_authenticate run_context negotiate answer_negotiate lookup assign erase
greeted = refl

waiting-IsServed : IsServed library waiting
waiting-IsServed = subst (IsServed library) greeted (answers pw (some 0) greeting [] starts)

accepts_answer : (ntlm_authenticate library pw none answer waiting).1.authenticated ≡ true
unfolding ntlm_authenticate run_context later_message authenticate_message lookup assign erase
accepts_answer = refl

ntlm_authenticate-IsProof_example :
    (bytes : List ℕ) × (s : ℕ) × (am : Text) × (library.decode answer.ntlm_message ≡ some bytes)
    × (lookup answer.session waiting ≡ some (some s))
    × IsChallenged library s
    × IsProof library pw bytes s am (ntlm_authenticate library pw none answer waiting).1.username
    × (lookup answer.session (ntlm_authenticate library pw none answer waiting).0 ≡ none)
ntlm_authenticate-IsProof_example =
    ntlm_authenticate-IsProof library pw none answer waiting waiting-IsServed accepts_answer

socket_mode : parse_socket_mode (codes "0o660") ≡ some 432
unfolding parse_socket_mode parse_octal_mode parse_digits trim_space trim_left trim_right
socket_mode = refl

dir_mode : parse_socket_dir_mode (codes "750") ≡ some 488
unfolding parse_socket_dir_mode parse_octal_mode parse_digits trim_space trim_left trim_right
dir_mode = refl

parse_socket_mode_bits_example :
    ((432 / 64 ≡ 6) × (432 / 8 % 2 ≡ 0) × (432 % 8 ≡ 0)) × ((488 / 64 ≡ 7) × (488 % 8 ≡ 0))
parse_socket_mode_bits_example =
    parse_socket_mode_bits (codes "0o660") 432 (codes "750") 488 socket_mode dir_mode
