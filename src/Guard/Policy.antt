-- ===== src/Guard/Policy.antt =====
-- http_client/guard/policy.rs. A text is the list of its characters; the parsed URL is the url
-- crate's, and `decode` its companion's percent-decoding followed by the UTF-8 check; `parse_ip` is
-- the parsing of an `IpAddr`.
pub mod Paths
use dravr_tronc.Common.{
  ℕ, ◌≡◌, Bool, true, false, not, ◌&&◌, ◌||◌, Option, none, some, List, [], ◌∷◌, leb, ltb, nat_eq,
  ◌==◌, list_eq, if◌then◌else◌, Result, ok, err, is_none, is_some, PartialEq, arith, ◌↔◌,
}
use dravr_tronc.Common.Lists.{any, all, length}
use dravr_tronc.Guard.Deny.{IpAddr, v4, v6, is_denied_ip}
use dravr_tronc.Guard.Text.{
  Text, is_control, is_whitespace, strip_prefix, strip_suffix, unwrap_or, split, split_once,
  trim_start, trim_end, to_ascii_lowercase, eq_ignore_ascii_case, last_piece,
}

pub data Host : Type 0 where
  domain : Text → Host
  ipv4 ipv6 : ℕ → Host

pub record Url : Type 0 where
  pub scheme : Text
  pub username : Text
  pub password : Option Text
  pub port : Option ℕ
  pub host : Option Host
  pub path : Text

pub data GuardError : Type 0 where
  invalid_url scheme_not_allowed credentials_in_url port_not_allowed missing_host host_not_allowed :
      GuardError
  path_not_allowed local_name denied_address unresolvable too_many_redirects : GuardError
  body_too_large : ℕ → GuardError
  idle_timeout total_timeout : GuardError
  transport : Text → GuardError

pub data AllowedHost : Type 0 where
  domain : Text → AllowedHost
  ip : IpAddr → AllowedHost

abbrev pub ip_beq : IpAddr → IpAddr → Bool
ip_beq (v4 a) (v4 b) = a == b
ip_beq (v6 a) (v6 b) = a == b
ip_beq _ _ = false

abbrev pub host_beq : AllowedHost → AllowedHost → Bool
host_beq (AllowedHost.domain a) (AllowedHost.domain b) = a == b
host_beq (AllowedHost.ip a) (AllowedHost.ip b) = ip_beq a b
host_beq _ _ = false

unfoldable pub matches : AllowedHost → Host → Bool
matches (AllowedHost.domain name) (Host.domain d) =
    eq_ignore_ascii_case name (unwrap_or d (strip_suffix b'.' d))
matches (AllowedHost.ip a) (ipv4 n) = ip_beq a (v4 n)
matches (AllowedHost.ip a) (ipv6 n) = ip_beq a (v6 n)
matches _ _ = false

pub record PathPrefix : Type 0 where
  pub segments : List Text
  pub directory : Bool

abbrev dots : Text → Bool
dots s = (s == b'.' ∷ []) || (s == b'.' ∷ b'.' ∷ [])

unfoldable pub is_invalid_segment : Text → Bool
is_invalid_segment s =
    (s == [])
    || dots s
    || any
        (λ c.
          any (λ d. c == d) (b'%' ∷ b'\\' ∷ b'?' ∷ b'#' ∷ []) || is_control c || is_whitespace c)
        s

-- `PathPrefix::parse`: the error is `()`.
unfoldable pub parse_prefix : Text → Result (Option PathPrefix) (Unit {0})
parse_prefix [] = ok none
parse_prefix (c ∷ cs) =
    let text = c ∷ cs in
    let stripped = strip_suffix b'/' text in
    let segments = split b'/' (unwrap_or text stripped) in
    if any is_invalid_segment segments
    then err tt
    else ok (some (record { segments = segments; directory = is_some stripped }))

-- A decoded segment that could leave its place in the path.
unfoldable pub escapes : Text → Bool
escapes s = dots s || any (λ c. any (λ d. c == d) (b'/' ∷ b'\\' ∷ b'%' ∷ []) || is_control c) s

unfoldable pub pop_empty : List Text → List Text
pop_empty [] = []
pop_empty (s ∷ []) = if s == [] then [] else s ∷ []
pop_empty (s ∷ r ∷ rs) = s ∷ pop_empty (r ∷ rs)

-- `zip` and `all`: the longer list's rest is not looked at.
unfoldable pub agrees : List Text → List Text → Bool
agrees (e ∷ es) (a ∷ as') = (e == a) && agrees es as'
agrees _ _ = true

module _ (decode : Text → Option Text) where
  -- The segments, decoded. Only the last may be empty.
  unfoldable pub decode_all : List Text → Option (List Text)
  decode_all [] = some []
  decode_all (s ∷ ss) =
      let rest = decode_all ss in
      if (s == []) && not (ss == []) then none else elim (decode s) [
        | none ↦ none
        | some text ↦
            if escapes text then none else elim rest [ none ↦ none | some r ↦ some (text ∷ r) ]
      ]

  unfoldable pub is_under : PathPrefix → List Text → Bool
  is_under p decoded =
      (if p.directory
        then ltb (length p.segments) (length decoded)
        else leb (length p.segments) (length decoded))
      && agrees p.segments decoded

  -- `PathPrefix::admits`.
  unfoldable pub admits_path : PathPrefix → Text → Bool
  admits_path p path = elim (strip_prefix b'/' path) [
    | none ↦ false
    | some inner ↦ elim (decode_all (split b'/' inner)) [
      | none ↦ false
      | some decoded ↦ is_under p (pop_empty decoded)
    ]
  ]
