-- ===== src/Transport/Hosts.antt =====
-- mcp/transport/http.rs: the origins and hosts that a request may name. Header values are lists of
-- characters; the target of the request is its authority, where it has one.
pub mod Splits
pub mod Ports
pub mod Authorities
pub mod Checks
use dravr_tronc.Common.{
  ℕ, ◌+◌, ◌*◌, ◌-◌, ◌^◌, Bool, true, false, not, ◌&&◌, ◌||◌, Option, none, some, String, List, [],
  ◌∷◌, ◌++◌, ◌==◌, nat_eq, list_eq, string_eq, option_eq, leb, ltb, if◌then◌else◌, Result, ok, err,
  is_none, is_some,
}
use dravr_tronc.Common.Lists.{any, all, take, drop}
use dravr_tronc.Common.Assoc.{lookup}
use dravr_tronc.Guard.Text.{
  Text, is_whitespace, split_once, eq_ignore_ascii_case, strip_suffix, unwrap_or,
}
use dravr_tronc.Guard.Deny.{IpAddr}
use dravr_tronc.Auth.{trim, is_empty, is_loopback_host}
use dravr_tronc.Http.{HeaderMap, visible}

-- `HeaderMap::get_all`.
unfoldable pub get_all : String → HeaderMap → List Text
get_all name [] = []
get_all name ((n, v) ∷ hs) = let rest = get_all name hs in if n == name then v ∷ rest else rest

abbrev pub is_digit : ℕ → Bool
is_digit c = leb b'0' c && leb c b'9'

unfoldable pub number_of : ℕ → Text → ℕ
number_of n [] = n
number_of n (c ∷ cs) = number_of (n * 10 + (c - b'0')) cs

-- Digits, at least one, that are a `u16`.
unfoldable pub is_port : Text → Bool
is_port port = all is_digit port && not (is_empty port) && ltb (number_of 0 port) (2 ^ 16)

abbrev pub is_separator : ℕ → Bool
is_separator c = is_whitespace c || any (λ s. c == s) (b'/' ∷ b'@' ∷ b'?' ∷ b'#' ∷ [])

abbrev pub Authority : Type 0
Authority = Text × Option Text

abbrev pub port_ok : Option Text → Bool
port_ok none = true
port_ok (some port) = is_port port

abbrev pub then_some : Authority → Option Authority
then_some (host, port) = if port_ok port then some (host, port) else none

abbrev pub after_literal : Text → Text → Option Authority
after_literal literal [] = then_some (literal, none)
after_literal literal (c ∷ cs) = if c == b':' then then_some (literal, some cs) else none

abbrev pub bracketed : Text → Option Authority
bracketed inner = elim (split_once b']' inner) [
  | none ↦ none
  | some (literal, rest) ↦ after_literal literal rest
]

abbrev pub plain : Text → Option Authority
plain authority = elim (split_once b':' authority) [
  | none ↦ then_some (authority, none)
  | some (host, port) ↦ then_some (host, some port)
]

unfoldable pub split_authority : Text → Option Authority
split_authority [] = none
split_authority (c ∷ cs) =
    if any is_separator (c ∷ cs) then none else if c == b'[' then bracketed cs else plain (c ∷ cs)

abbrev pub mark : Text
mark = b':' ∷ b'/' ∷ b'/' ∷ []

-- `str::split_once` at `://`.
unfoldable pub split_scheme : Text → Option (Text × Text)
split_scheme [] = none
split_scheme (c ∷ cs) =
    let later = split_scheme cs in
    if take 3 (c ∷ cs) == mark
    then some ([], drop 3 (c ∷ cs))
    else elim later [ none ↦ none | some (scheme, rest) ↦ some (c ∷ scheme, rest) ]

abbrev pub http : Text
http = b'h' ∷ b't' ∷ b't' ∷ b'p' ∷ []

abbrev pub https : Text
https = b'h' ∷ b't' ∷ b't' ∷ b'p' ∷ b's' ∷ []

abbrev pub any_origin : Text
any_origin = b'*' ∷ []

pub data HostRefusal : Type 0 where
  -- 403 `Origin not allowed`, 403 `Host not allowed`, and 400.
  origin_not_allowed host_not_allowed host_mismatch : HostRefusal

-- `Option::map` and `map_or` of the parts of an authority.
abbrev pub names_loopback : (Text → Bool) → Option Authority → Bool
names_loopback is_local none = false
names_loopback is_local (some (host, port)) = is_local host

abbrev pub admits_port : Option Text → Option Text → Bool
admits_port none port = true
admits_port (some allowed) port = some allowed == port

abbrev pub entry_admits : Authority → Option Authority → Bool
entry_admits (host, port) none = false
entry_admits (host, port) (some (allowed_host, allowed_port)) =
    eq_ignore_ascii_case allowed_host host && admits_port allowed_port port

abbrev pub bare : Text → Text
bare host = unwrap_or host (strip_suffix b'.' host)

module _ (parse_ip : Text → Option IpAddr) where
  unfoldable pub is_loopback_origin : Text → Bool
  is_loopback_origin origin = elim (split_scheme origin) [
    | none ↦ false
    | some (scheme, authority) ↦
        (eq_ignore_ascii_case scheme http || eq_ignore_ascii_case scheme https)
        && names_loopback (is_loopback_host parse_ip) (split_authority authority)
  ]

  unfoldable pub is_origin_allowed : Option Text → List Text → Bool
  is_origin_allowed none allowed = true
  is_origin_allowed (some origin) [] = is_loopback_origin origin
  is_origin_allowed (some origin) (a ∷ as') =
      any (λ x. (x == any_origin) || (x == origin)) (a ∷ as')

  -- A value that is no visible text reads as the empty origin.
  abbrev pub origin_of : Option Text → Option Text
  origin_of none = none
  origin_of (some value) = some (unwrap_or [] (visible value))

  unfoldable pub origin_allowed : HeaderMap → List Text → Bool
  origin_allowed headers allowed = is_origin_allowed (origin_of (lookup "origin" headers)) allowed

  abbrev pub is_known : List Text → Authority → Bool
  is_known allowed (host, port) =
      is_loopback_host parse_ip (bare host)
      || any (λ entry. entry_admits (host, port) (split_authority (trim entry))) allowed

  unfoldable pub is_host_allowed : Option Text → List Text → Bool
  is_host_allowed none allowed = false
  is_host_allowed (some authority) allowed = elim (split_authority (trim authority)) [
    | none ↦ false
    | some parts ↦ is_known allowed parts
  ]

  abbrev pub against_target : Option Text → Text → Result (Option Text) HostRefusal
  against_target none host = ok (some host)
  against_target (some target) host =
      if not (eq_ignore_ascii_case (trim host) target) then err host_mismatch else ok (some host)

  -- `request_authority`, of the values of `Host` and the authority of the target.
  unfoldable pub request_authority : HeaderMap → Option Text → Result (Option Text) HostRefusal
  request_authority headers target = elim (get_all "host" headers) [
    | [] ↦ ok target
    | host ∷ rest ↦ elim rest [
      | again ∷ more ↦ err host_not_allowed
      | [] ↦ elim (visible host) [
        | none ↦ err host_not_allowed
        | some text ↦ against_target target text
      ]
    ]
  ]

  unfoldable pub check_host : HeaderMap → Option Text → List Text → Result (Unit {0}) HostRefusal
  check_host headers target allowed = elim (request_authority headers target) [
    | err why ↦ err why
    | ok authority ↦ if is_host_allowed authority allowed then ok tt else err host_not_allowed
  ]

  -- `check_origin_and_host`, by the server's lists; without a list of hosts these are not checked.
  unfoldable pub check_origin_and_host :
      List Text → Option (List Text) → HeaderMap → Option Text → Result (Unit {0}) HostRefusal
  check_origin_and_host origins hosts headers target =
      let rest : Result (Unit {0}) HostRefusal = elim hosts [
        | none ↦ ok tt
        | some allowed ↦ check_host headers target allowed
      ] in
      if not (origin_allowed headers origins) then err origin_not_allowed else rest
