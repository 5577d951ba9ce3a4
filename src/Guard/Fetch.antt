-- ===== src/Guard/Fetch.antt =====
-- http_client/guard/policy.rs: the policies and the check of a URL; http_client/guard/mod.rs: the check of
-- the addresses that a name resolves to.
pub mod Admission
use dravr_tronc.Common.{
  ℕ, ◌/◌, ◌%◌, ◌^◌, ◌≡◌, Bool, true, false, not, ◌&&◌, ◌||◌, Option, none, some, List, [], ◌∷◌, leb,
  ltb, nat_eq, ◌==◌, list_eq, if◌then◌else◌, Result, ok, err, is_none, is_some,
}
use dravr_tronc.Common.Lists.{any}
use dravr_tronc.Guard.Deny.{IpAddr, v4, v6, is_denied_ip, is_mapped}
use dravr_tronc.Guard.Text.{
  Text, is_control, is_whitespace, strip_prefix, strip_suffix, unwrap_or, split_once, trim_start,
  trim_end, to_ascii_lowercase, eq_ignore_ascii_case, last_piece, split,
}
use dravr_tronc.Guard.Policy.{
  Url, Host, domain, ipv4, ipv6, GuardError, scheme_not_allowed, credentials_in_url,
  port_not_allowed, host_not_allowed, path_not_allowed, local_name, denied_address, unresolvable,
  AllowedHost, host_beq, matches, PathPrefix, parse_prefix, admits_path,
}
use dravr_tronc.Guard.Allowlist.{AllowedEntry}

pub data PolicyKind : Type 0 where
  webhook : PolicyKind
  allowlist archive_fetch : List AllowedEntry → PolicyKind

unfoldable pub applies_deny_list : PolicyKind → Bool
applies_deny_list (allowlist hosts) = false
applies_deny_list _ = true

unfoldable pub max_redirects : PolicyKind → ℕ
max_redirects webhook = 0
max_redirects _ = 5

unfoldable pub https_only : PolicyKind → Bool
https_only (archive_fetch hosts) = true
https_only _ = false

abbrev pub https : Text
https = b'h' ∷ b't' ∷ b't' ∷ b'p' ∷ b's' ∷ []

abbrev pub http : Text
http = b'h' ∷ b't' ∷ b't' ∷ b'p' ∷ []

unfoldable pub scheme_ok : PolicyKind → Text → Bool
scheme_ok (archive_fetch hosts) scheme = scheme == https
scheme_ok _ scheme = (scheme == http) || (scheme == https)

abbrev local_labels : List Text
local_labels =
    (b'l' ∷ b'o' ∷ b'c' ∷ b'a' ∷ b'l' ∷ b'h' ∷ b'o' ∷ b's' ∷ b't' ∷ [])
    ∷ (b'l' ∷ b'o' ∷ b'c' ∷ b'a' ∷ b'l' ∷ [])
    ∷ (b'i' ∷ b'n' ∷ b't' ∷ b'e' ∷ b'r' ∷ b'n' ∷ b'a' ∷ b'l' ∷ [])
    ∷ []

unfoldable pub is_local_name : Text → Bool
is_local_name d =
    let label = last_piece [] (split b'.' (unwrap_or d (strip_suffix b'.' d))) in
    any (eq_ignore_ascii_case label) local_labels

abbrev pub Checked : Type 0
Checked = Result (Unit {0}) GuardError

module _ (decode : Text → Option Text) where
  -- `HostAllowlist::admits`: `listed` tells whether the host was listed under a prefix so far.
  unfoldable pub admits_from : Bool → List AllowedEntry → Host → Text → Checked
  admits_from listed [] h path = err (if listed then path_not_allowed else host_not_allowed)
  admits_from listed (e ∷ es) h path =
      let skipped = admits_from listed es h path in
      let under = admits_from true es h path in
      if matches e.host h
      then elim e.path [
        | none ↦ ok tt
        | some p ↦ if admits_path decode p path then ok tt else under
      ]
      else skipped

  unfoldable pub admits : List AllowedEntry → Host → Text → Checked
  unfolding admits_from
  admits entries h path = admits_from false entries h path

  unfoldable pub check_listed : PolicyKind → Host → Text → Checked
  check_listed webhook h path = ok tt
  check_listed (allowlist hosts) h path = admits hosts h path
  check_listed (archive_fetch hosts) h path = admits hosts h path

  unfoldable pub check_host : (IpAddr → Bool) → Host → Checked
  check_host refuses (Host.domain d) = if is_local_name d then err local_name else ok tt
  check_host refuses (ipv4 n) = if refuses (v4 n) then err denied_address else ok tt
  check_host refuses (ipv6 n) = if refuses (v6 n) then err denied_address else ok tt

  -- `FetchPolicy::check`.
  unfoldable pub check : PolicyKind → (IpAddr → Bool) → Url → Checked
  check kind refuses url =
      if not (scheme_ok kind url.scheme)
      then err scheme_not_allowed
      else if not (url.username == []) || is_some url.password
      then err credentials_in_url
      else if https_only kind && is_some url.port
      then err port_not_allowed
      else elim url.host [
        | none ↦ err GuardError.missing_host
        | some h ↦ elim (check_listed kind h url.path) [
          | err e ↦ err e
          | ok _ ↦ if applies_deny_list kind then check_host refuses h else ok tt
        ]
      ]

-- `Ipv4Addr::is_loopback` and `Ipv6Addr::is_loopback`.
unfoldable pub is_loopback : IpAddr → Bool
is_loopback (v4 n) = n / 2 ^ 24 == 127
is_loopback (v6 n) = (n == 1) || (is_mapped n && ((n % 2 ^ 32) / 2 ^ 24 == 127))

pub record AddressRule : Type 0 where
  pub deny : Bool
  pub permit_loopback : Bool

unfoldable pub refuses : AddressRule → IpAddr → Bool
refuses rule ip =
    if not rule.deny
    then false
    else if rule.permit_loopback && is_loopback ip
    then false
    else is_denied_ip ip

-- `PinningResolver::vetted`, of what the resolver answers.
unfoldable pub vetted :
    AddressRule → Result (List IpAddr) (Unit {0}) → Result (List IpAddr) GuardError
vetted rule (err _) = err unresolvable
vetted rule (ok []) = err unresolvable
vetted rule (ok (ip ∷ ips)) =
    if any (refuses rule) (ip ∷ ips) then err denied_address else ok (ip ∷ ips)
