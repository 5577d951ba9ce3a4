-- ===== src/Auth.antt =====
-- server/auth.rs: the gate of a bearer token, and whether a server may start without one. The
-- environment is an argument, by the value of the variable, and so is the parsing of an address.
pub mod Gate
use dravr_tronc.Common.{
  ℕ, ◌/◌, ◌^◌, Bool, true, false, not, Option, none, some, List, [], ◌∷◌, ◌==◌, list_eq, nat_eq,
  if◌then◌else◌, Result, ok, err, is_some, is_none,
}
use dravr_tronc.Guard.Text.{
  Text, split_once, eq_ignore_ascii_case, trim_start, trim_end, strip_prefix, strip_suffix,
  unwrap_or,
}
use dravr_tronc.Guard.Deny.{IpAddr, v4, v6}

abbrev pub is_empty : Text → Bool
is_empty [] = true
is_empty (c ∷ cs) = false

-- `str::trim_start_matches` of one character.
unfoldable pub trim_start_matches : ℕ → Text → Text
trim_start_matches c [] = []
trim_start_matches c (d ∷ ds) =
    let rest = trim_start_matches c ds in if d == c then rest else d ∷ ds

-- `str::trim`.
unfoldable pub trim : Text → Text
unfolding trim_start trim_end
trim s = trim_end (trim_start s)

abbrev pub bearer : Text
bearer = b'B' ∷ b'e' ∷ b'a' ∷ b'r' ∷ b'e' ∷ b'r' ∷ []

abbrev pub localhost : Text
localhost = b'l' ∷ b'o' ∷ b'c' ∷ b'a' ∷ b'l' ∷ b'h' ∷ b'o' ∷ b's' ∷ b't' ∷ []

abbrev pub then_some : Text → Option Text
then_some t = if is_empty t then none else some t

unfoldable pub bearer_credential : Text → Option Text
bearer_credential header = elim (split_once 32 header) [
  | none ↦ none
  | some (scheme, credential) ↦
      if eq_ignore_ascii_case scheme bearer
      then then_some (trim_start_matches 32 credential)
      else none
]

unfoldable pub configured_key : Option Text → Option Text
configured_key none = none
configured_key (some key) = then_some (trim key)

unfoldable pub api_key_configured : Option Text → Bool
api_key_configured variable = is_some (configured_key variable)

pub data Refusal : Type 0 where
  invalid_key wrong_scheme no_header : Refusal

pub data Verdict : Type 0 where
  passes : Verdict
  refuses : Refusal → Verdict

-- `require_auth`, by the header of the request: whether the request goes on to the handler.
unfoldable pub require_auth : Option Text → Option Text → Verdict
require_auth variable header = elim (configured_key variable) [
  | none ↦ passes
  | some expected ↦ elim header [
    | none ↦ refuses no_header
    | some value ↦ elim (bearer_credential value) [
      | none ↦ refuses wrong_scheme
      | some token ↦ if token == expected then passes else refuses invalid_key
    ]
  ]
]

pub data AuthMode : Type 0 where
  enforced loopback_dev : AuthMode

pub record InsecureBindError : Type 0 where
  pub host : Text
  pub gate : Option Text

-- `str::strip_circumfix('[', ']')`.
unfoldable pub strip_circumfix : Text → Option Text
strip_circumfix s = elim (strip_prefix 91 s) [ none ↦ none | some rest ↦ strip_suffix 93 rest ]

-- `IpAddr::is_loopback`.
unfoldable pub is_loopback : IpAddr → Bool
is_loopback (v4 n) = n / 2 ^ 24 == 127
is_loopback (v6 n) = n == 1

abbrev pub is_loopback_ip : Option IpAddr → Bool
is_loopback_ip none = false
is_loopback_ip (some ip) = is_loopback ip

module _ (parse_ip : Text → Option IpAddr) where
  unfoldable pub is_loopback_host : Text → Bool
  is_loopback_host host =
      let trimmed = trim host in
      if eq_ignore_ascii_case trimmed localhost
      then true
      else is_loopback_ip (parse_ip (unwrap_or trimmed (strip_circumfix trimmed)))

  unfoldable pub resolve_startup_auth : Text → Bool → Result AuthMode InsecureBindError
  resolve_startup_auth host gated =
      if gated
      then ok enforced
      else if is_loopback_host host
      then ok loopback_dev
      else err (record { host = host; gate = none })

  unfoldable pub startup_auth : Text → Option Text → Text → Result AuthMode InsecureBindError
  startup_auth env_var variable host =
      elim (resolve_startup_auth host (api_key_configured variable)) [
        | ok mode ↦ ok mode
        | err refused ↦ err (record refused { gate = some env_var })
      ]
