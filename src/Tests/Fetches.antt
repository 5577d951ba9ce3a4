-- ===== src/Tests/Fetches.antt =====
-- http_client/guard on concrete inputs.
use dravr_tronc.Common.{
  ◌≤◌, ◌⊎◌, ◌+◌, ◌*◌, ◌^◌, ◌≡◌, ◌≢◌, ◌↔◌, refl, true, false, none, some, List, [], ◌∷◌, ◌++◌, ok,
  err, arith, nat_eq, list_eq,
}
use dravr_tronc.Common.Lists.{length, All}
use dravr_tronc.Common.Bytes.{Bytes}
use dravr_tronc.Guard.Deny.{
  IpAddr, v4, v6, octets, is_denied_ip, is_denied_v4, is_denied_v6, is_mapped, is_in, bit_and, mask,
}
use dravr_tronc.Guard.Deny.Ranges.{in_ranges, is_denied_ip-ranges}
use dravr_tronc.Guard.Text.{
  Text, split, strip_prefix, strip_suffix, split_once, to_ascii_lowercase, eq_ignore_ascii_case,
  last_piece, trim_start, trim_end,
}
use dravr_tronc.Guard.Policy.{
  Url, domain, GuardError, AllowedHost, PathPrefix, admits_path, decode_all, is_under, agrees,
  pop_empty, escapes, parse_prefix, is_invalid_segment, matches,
}
use dravr_tronc.Guard.Policy.Paths.{Decodes, admits_path_sound}
use dravr_tronc.Guard.Allowlist.{
  AllowedEntry, new, try_new, parse_all, parse_entry, entry_parts, bare_host, trim, parse_host,
  with_path, is_unmatchable_domain, find_shadowed, is_bare,
}
use dravr_tronc.Guard.Fetch.{
  archive_fetch, https, check, AddressRule, vetted, refuses, is_loopback, scheme_ok, https_only,
  applies_deny_list, max_redirects, check_listed, check_host, admits, admits_from, is_local_name,
}
use dravr_tronc.Guard.Fetch.Admission.{Passes, check_iff}
use dravr_tronc.Guard.Client.{rule_of, on_redirect, follow_from, follow_from_sound}
use dravr_tronc.Guard.Allowlist.Lists.{IsConfined, try_new_ok}

all_ops : Unit {0}
unfolding is_denied_ip is_denied_v4 is_denied_v6 is_mapped is_in bit_and mask split strip_prefix
    strip_suffix split_once to_ascii_lowercase eq_ignore_ascii_case last_piece trim_start trim_end
    admits_path decode_all is_under agrees pop_empty escapes parse_prefix is_invalid_segment matches
    check vetted refuses is_loopback new try_new parse_all parse_entry entry_parts bare_host trim
    parse_host with_path is_unmatchable_domain find_shadowed is_bare scheme_ok https_only
    applies_deny_list check_listed check_host admits admits_from is_local_name
all_ops = tt

-- `::ffff:169.254.169.254`, the mapped address of a metadata service.
abbrev metadata : IpAddr
metadata = v6 (0xffff * 2 ^ 32 + octets 169 254 169 254)

refused : (is_denied_ip metadata ≡ true) × (is_denied_ip (v4 (octets 8 8 8 8)) ≡ false)
unfolding all_ops
refused = (refl, refl)

is_denied_ip-ranges_example : is_denied_ip metadata ≡ in_ranges metadata
is_denied_ip-ranges_example = is_denied_ip-ranges metadata (omega arith)

-- The host `a.io`, and an entry that confines it to `/b/`.
abbrev host_a : Text
host_a = b'a' ∷ b'.' ∷ b'i' ∷ b'o' ∷ []

abbrev entry_ab : Text
entry_ab = b'A' ∷ b'.' ∷ b'i' ∷ b'o' ∷ b'/' ∷ b'b' ∷ b'/' ∷ []

abbrev under_b : PathPrefix
under_b = record { segments = (b'b' ∷ []) ∷ []; directory = true }

abbrev listed : AllowedEntry
listed = record { host = AllowedHost.domain host_a; path = some under_b }

abbrev url_at : Text → Url
url_at path = record {
  scheme = https;
  username = [];
  password = none;
  port = none;
  host = some (domain host_a);
  path = path;
}

abbrev inside : Text
inside = b'/' ∷ b'b' ∷ b'/' ∷ b'x' ∷ []

abbrev outside : Text
outside = b'/' ∷ b'b' ∷ []

runs :
    (check some (archive_fetch (listed ∷ [])) is_denied_ip (url_at inside) ≡ ok tt)
    × (check some (archive_fetch (listed ∷ [])) is_denied_ip (url_at outside)
        ≡ err GuardError.path_not_allowed)
unfolding all_ops
runs = (refl, refl)

check_iff_example :
    (check some (archive_fetch (listed ∷ [])) is_denied_ip (url_at inside) ≡ ok tt)
    ↔ Passes some (archive_fetch (listed ∷ [])) is_denied_ip (url_at inside)
check_iff_example = check_iff some (archive_fetch (listed ∷ [])) is_denied_ip (url_at inside)

abbrev strict : AddressRule
strict = record { deny = true; permit_loopback = false }

admits_path_sound_example :
    (inner : Text) × (decoded : List Text) × (rest : List Text) × (inside ≡ b'/' ∷ inner)
    × Decodes some (split b'/' inner) decoded
    × (pop_empty decoded ≡ under_b.segments ++ rest)
    × (under_b.directory ≡ true → rest ≢ [])
unfolding all_ops
admits_path_sound_example = admits_path_sound some under_b inside refl

try_new_ok_example :
    (listed ∷ [] ≡ new (λ t. none) (entry_ab ∷ []))
    × All (IsConfined (λ t. none) (listed ∷ [])) (listed ∷ [])
unfolding all_ops
try_new_ok_example = try_new_ok (λ t. none) (entry_ab ∷ []) (listed ∷ []) refl

follow_from_sound_example :
    (1 + length (url_at inside ∷ []) ≤ 6)
    × All (Passes some (archive_fetch (listed ∷ [])) (refuses strict)) (url_at inside ∷ [])
    × ((url_at inside ∷ [] ≡ url_at inside ∷ [])
        ⊎ (max_redirects (archive_fetch (listed ∷ [])) ≡ 0))
unfolding all_ops rule_of follow_from on_redirect max_redirects
follow_from_sound_example =
    follow_from_sound some (archive_fetch (listed ∷ [])) false 1 (url_at inside ∷ [])
      (url_at inside ∷ []) (omega arith) refl

abbrev chunks : List Bytes
chunks = (1 ∷ 2 ∷ []) ∷ (3 ∷ []) ∷ []
