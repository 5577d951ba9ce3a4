-- ===== src/Guard/Allowlist.antt =====
-- http_client/guard/policy.rs: the allowlists and how they are read.
pub mod Lists
use dravr_tronc.Common.{
  ℕ, ◌/◌, ◌%◌, ◌^◌, ◌≡◌, Bool, true, false, not, ◌&&◌, ◌||◌, Option, none, some, List, [], ◌∷◌, leb,
  ltb, nat_eq, ◌==◌, list_eq, if◌then◌else◌, Result, ok, err, is_none, is_some,
}
use dravr_tronc.Common.Lists.{any}
use dravr_tronc.Guard.Deny.{IpAddr, v4, v6, is_denied_ip, is_mapped}
use dravr_tronc.Guard.Text.{
  Text, is_control, is_whitespace, strip_prefix, strip_suffix, unwrap_or, split_once, trim_start,
  trim_end, to_ascii_lowercase, eq_ignore_ascii_case, last_piece, split,
}
use dravr_tronc.Guard.Policy.{
  Url, Host, domain, ipv4, ipv6, GuardError, scheme_not_allowed, credentials_in_url,
  port_not_allowed, host_not_allowed, path_not_allowed, local_name, denied_address, unresolvable,
  AllowedHost, host_beq, matches, PathPrefix, parse_prefix, admits_path,
}

pub record AllowedEntry : Type 0 where
  pub host : AllowedHost
  pub path : Option PathPrefix

pub data InvalidReason : Type 0 where
  host missing_host prefix shadowed : InvalidReason

pub record InvalidAllowlistEntry : Type 0 where
  pub entry : Text
  pub reason : InvalidReason

unfoldable pub is_unmatchable_domain : Text → Bool
is_unmatchable_domain h =
    any
      (λ c.
        any (λ d. c == d) (b':' ∷ b'@' ∷ b'[' ∷ b']' ∷ b'%' ∷ b'\\' ∷ b'?' ∷ b'#' ∷ [])
        || is_whitespace c
        || is_control c)
      h

unfoldable pub trim : Text → Text
unfolding trim_start trim_end
trim t = trim_end (trim_start t)

-- A host as it stands in an entry, less the brackets of an IPv6 address and a final dot.
unfoldable pub bare_host : Text → Text
bare_host h =
    let inner : Option Text = elim (strip_prefix b'[' h) [
      | none ↦ none
      | some rest ↦ strip_suffix b']' rest
    ] in
    let unbracketed = unwrap_or h inner in unwrap_or unbracketed (strip_suffix b'.' unbracketed)

abbrev pub Parsed : Type 0
Parsed = Result (Option AllowedEntry) InvalidAllowlistEntry

unfoldable pub with_path : Text → AllowedHost → Option Text → Parsed
with_path entry h none = ok (some (record { host = h; path = none }))
with_path entry h (some path) = elim (parse_prefix path) [
  | err _ ↦ err (record { entry = entry; reason = prefix })
  | ok p ↦ ok (some (record { host = h; path = p }))
]

module _ (parse_ip : Text → Option IpAddr) where
  unfoldable pub parse_host : Text → Text → Option Text → Parsed
  parse_host entry h path = elim (parse_ip h) [
    | some ip ↦ with_path entry (AllowedHost.ip ip) path
    | none ↦
        if is_unmatchable_domain h
        then err (record { entry = entry; reason = InvalidReason.host })
        else with_path entry (AllowedHost.domain (to_ascii_lowercase h)) path
  ]

  -- What is left of an entry after its host, when it has a `/`.
  unfoldable pub entry_parts : Text → Text × Option Text
  entry_parts entry = elim (split_once b'/' entry) [
    | none ↦ (entry, none)
    | some (h, path) ↦ (h, some path)
  ]

  unfoldable pub parse_entry : Text → Parsed
  parse_entry text =
      let entry = trim text in
      let (before, path) = entry_parts entry in
      let h = bare_host before in
      if h == []
      then elim path [
        | none ↦ ok none
        | some _ ↦ err (record { entry = entry; reason = InvalidReason.missing_host })
      ]
      else parse_host entry h path

  abbrev pub or_drop : Parsed → List AllowedEntry → List AllowedEntry
  or_drop (ok (some e)) rest = e ∷ rest
  or_drop _ rest = rest

  -- `HostAllowlist::new`: what cannot be read admits nothing.
  unfoldable pub new : List Text → List AllowedEntry
  new [] = []
  new (t ∷ ts) = or_drop (parse_entry t) (new ts)

  unfoldable pub parse_all : List Text → Result (List (Text × AllowedEntry)) InvalidAllowlistEntry
  parse_all [] = ok []
  parse_all (t ∷ ts) =
      let rest = parse_all ts in
      elim (parse_entry t) [
        | err e ↦ err e
        | ok none ↦ rest
        | ok (some e) ↦ elim rest [ err x ↦ err x | ok es ↦ ok ((trim t, e) ∷ es) ]
      ]

  unfoldable pub is_bare : AllowedHost → Text × AllowedEntry → Bool
  is_bare h (text, e) = is_none e.path && host_beq e.host h

  -- The first entry that is confined to a prefix while its host is listed without one.
  unfoldable pub find_shadowed :
      List (Text × AllowedEntry) → List (Text × AllowedEntry) → Option Text
  find_shadowed all [] = none
  find_shadowed all ((text, e) ∷ es) =
      let rest = find_shadowed all es in
      if is_some e.path && any (is_bare e.host) all then some text else rest

  abbrev pub entries_of : List (Text × AllowedEntry) → List AllowedEntry
  entries_of [] = []
  entries_of ((text, e) ∷ es) = e ∷ entries_of es

  -- `HostAllowlist::try_new`.
  unfoldable pub try_new : List Text → Result (List AllowedEntry) InvalidAllowlistEntry
  try_new ts = elim (parse_all ts) [
    | err e ↦ err e
    | ok parsed ↦ elim (find_shadowed parsed parsed) [
      | some text ↦ err (record { entry = text; reason = shadowed })
      | none ↦ ok (entries_of parsed)
    ]
  ]

  -- `try_from_comma_separated`.
  unfoldable pub try_from_comma_separated : Text → Result (List AllowedEntry) InvalidAllowlistEntry
  unfolding try_new
  try_from_comma_separated text = try_new (split b',' text)
