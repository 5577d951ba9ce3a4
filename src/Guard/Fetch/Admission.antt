-- ===== src/Guard/Fetch/Admission.antt =====
-- http_client/guard/policy.rs: what a URL that passed the check is known to be.
use mathlib.Core.Path.{subst}
use dravr_tronc.Common.{
  ◌≡◌, ◌≢◌, ◌↔◌, ap, sym, inl, inr, Bool, true, false, not, ◌&&◌, Option, none, some, List, [], ◌∷◌,
  nat_eq, list_eq, if◌then◌else◌, ok, arith, Option-cases, Result-cases,
}
use dravr_tronc.Common.Lists.{any, All}
use dravr_tronc.Guard.Deny.{IpAddr, v4, v6, is_denied_ip}
use dravr_tronc.Guard.Text.{Text}
use dravr_tronc.Guard.Policy.{Url, Host, ipv4, ipv6, matches, admits_path}
use dravr_tronc.Guard.Allowlist.{AllowedEntry}
use dravr_tronc.Guard.Fetch.{
  PolicyKind, webhook, allowlist, archive_fetch, applies_deny_list, https_only, scheme_ok,
  is_local_name, admits_from, admits, check_listed, check_host, check, AddressRule, refuses,
  is_loopback, vetted,
}

module _ (decode : Text → Option Text) where
  -- An entry lets the URL pass.
  abbrev pub lets_pass : Host → Text → AllowedEntry → Bool
  lets_pass h path e =
      matches e.host h && elim e.path [ none ↦ true | some p ↦ admits_path decode p path ]

  admits_from_iff :
      (listed : Bool) (entries : List AllowedEntry) (h : Host) (path : Text)
      → (admits_from decode listed entries h path ≡ ok tt) ↔ (any (lets_pass h path) entries ≡ true)
  unfolding admits_from
  admits_from_iff listed [] h path = ground arith
  admits_from_iff listed (e ∷ es) h path =
      ground (arith, admits_from_iff listed es h path, admits_from_iff true es h path)

  -- What the policy asks of the host.
  abbrev pub IsListed : PolicyKind → Host → Text → Type 0
  IsListed webhook h path = Unit
  IsListed (allowlist hosts) h path = any (lets_pass h path) hosts ≡ true
  IsListed (archive_fetch hosts) h path = any (lets_pass h path) hosts ≡ true

  abbrev pub IsAllowed : PolicyKind → (IpAddr → Bool) → Host → Type 0
  IsAllowed (allowlist hosts) refuses h = Unit
  IsAllowed _ refuses (Host.domain d) = is_local_name d ≡ false
  IsAllowed _ refuses (ipv4 n) = refuses (v4 n) ≡ false
  IsAllowed _ refuses (ipv6 n) = refuses (v6 n) ≡ false

  -- Everything that a policy asks of a URL.
  abbrev pub Passes : PolicyKind → (IpAddr → Bool) → Url → Type 0
  Passes kind refuses url =
      (scheme_ok kind url.scheme ≡ true)
      × (url.username ≡ [])
      × (url.password ≡ none)
      × (https_only kind ≡ true → url.port ≡ none)
      × ((h : Host) × (url.host ≡ some h) × IsListed kind h url.path × IsAllowed kind refuses h)

  check_listed_iff :
      (kind : PolicyKind) (h : Host) (path : Text)
      → (check_listed decode kind h path ≡ ok tt) ↔ IsListed kind h path
  unfolding check_listed admits
  check_listed_iff webhook h path = ground arith
  check_listed_iff (allowlist hosts) h path = admits_from_iff false hosts h path
  check_listed_iff (archive_fetch hosts) h path = admits_from_iff false hosts h path

  check_host_iff :
      (kind : PolicyKind) (refuses : IpAddr → Bool) (h : Host)
      → ((if applies_deny_list kind then check_host decode refuses h else ok tt) ≡ ok tt)
        ↔ IsAllowed kind refuses h
  unfolding check_host applies_deny_list
  check_host_iff (allowlist hosts) refuses h = ground arith
  check_host_iff webhook refuses (Host.domain d) = ground arith
  check_host_iff webhook refuses (ipv4 n) = ground arith
  check_host_iff webhook refuses (ipv6 n) = ground arith
  check_host_iff (archive_fetch hosts) refuses (Host.domain d) = ground arith
  check_host_iff (archive_fetch hosts) refuses (ipv4 n) = ground arith
  check_host_iff (archive_fetch hosts) refuses (ipv6 n) = ground arith

  -- The parts of the check that look at no host.
  fronts :
      (kind : PolicyKind) (refuses : IpAddr → Bool) (url : Url)
      → check decode kind refuses url ≡ ok tt
      → (scheme_ok kind url.scheme ≡ true)
        × (url.username ≡ [])
        × (url.password ≡ none)
        × (https_only kind ≡ true → url.port ≡ none)
  unfolding check
  fronts kind refuses url e = (
    ground (arith, e),
    ground (arith, e, list_eq.same_iff url.username []),
    ground (arith, e),
    (λ o. ground (arith, e, o)),
  )

  hosted :
      (kind : PolicyKind) (refuses : IpAddr → Bool) (url : Url)
      → check decode kind refuses url ≡ ok tt
      → (h : Host) × (url.host ≡ some h) × IsListed kind h url.path × IsAllowed kind refuses h
  unfolding check
  hosted kind refuses url e = elim (Option-cases url.host) [
    | inl absent ↦ absurd (ground (arith, e, absent))
    | inr (h, there) ↦ elim (Result-cases (check_listed decode kind h url.path)) [
      | inr (x, refused) ↦ absurd (ground (arith, e, there, refused))
      | inl (u, listed) ↦ (
        h,
        there,
        (check_listed_iff kind h url.path).0 listed,
        (check_host_iff kind refuses h).0 (ground (arith, e, there, listed)),
      )
    ]
  ]

  passing :
      (kind : PolicyKind) (refuses : IpAddr → Bool) (url : Url)
      → Passes kind refuses url
      → check decode kind refuses url ≡ ok tt
  unfolding check
  passing kind refuses url (scheme, user, password, port, (h, there, listed, allowed)) =
      let listed' = (check_listed_iff kind h url.path).1 listed in
      let allowed' = (check_host_iff kind refuses h).1 allowed in
      ground (arith, scheme, user, password, port, there, listed', allowed')

  -- A URL passes the check of a policy exactly when its scheme is allowed, it carries no credentials
  -- and, for an archive, no port of its own, and it has a host that the policy lists, where it has a
  -- list, and that is neither a local name nor a refused address, where the deny list applies.
  pub check_iff :
      (kind : PolicyKind) (refuses : IpAddr → Bool) (url : Url)
      → (check decode kind refuses url ≡ ok tt) ↔ Passes kind refuses url
  check_iff kind refuses url = (
    (λ e.
        let (scheme, user, password, port) = fronts kind refuses url e in
        (scheme, user, password, port, hosted kind refuses url e)),
    passing kind refuses url,
  )

-- An address that is not denied, or is loopback where that is permitted.
abbrev pub IsOpen : AddressRule → IpAddr → Type 0
IsOpen rule ip = (is_denied_ip ip && not (rule.permit_loopback && is_loopback ip)) ≡ false

any-refuses :
    (rule : AddressRule) (ips : List IpAddr)
    → rule.deny ≡ true
    → (any (refuses rule) ips ≡ false) ↔ All (IsOpen rule) ips
unfolding refuses
any-refuses rule [] d = ground arith
any-refuses rule (ip ∷ ips) d = ground (arith, d, any-refuses rule ips d)

-- The addresses that a fetch under a deny list may connect to: the resolver's whole answer, when it
-- is not empty and no address of it is denied, but for loopback where that is permitted.
pub vetted_iff :
    (rule : AddressRule) (ips answer : List IpAddr)
    → rule.deny ≡ true
    → (vetted rule (ok ips) ≡ ok answer)
      ↔ ((ips ≡ answer) × (answer ≢ []) × All (IsOpen rule) answer)
unfolding vetted
vetted_iff rule [] answer d = ground arith
vetted_iff rule (ip ∷ ips) answer d = (to, from)
  where
    to :
        vetted rule (ok (ip ∷ ips)) ≡ ok answer
        → ((ip ∷ ips) ≡ answer) × (answer ≢ []) × All (IsOpen rule) answer
    to e =
        let clear : any (refuses rule) (ip ∷ ips) ≡ false = ground (arith, e) in
        let same : (ip ∷ ips) ≡ answer = ground (arith, e, clear) in
        (
          same,
          (λ n. ground (arith, n, same)),
          subst (All (IsOpen rule)) same ((any-refuses rule (ip ∷ ips) d).0 clear),
        )

    from :
        ((ip ∷ ips) ≡ answer) × (answer ≢ []) × All (IsOpen rule) answer
        → vetted rule (ok (ip ∷ ips)) ≡ ok answer
    from (same, filled, open_all) =
        let clear =
          (any-refuses rule (ip ∷ ips) d).1 (subst (All (IsOpen rule)) (sym same) open_all) in
        rw clear (ap ok same)
