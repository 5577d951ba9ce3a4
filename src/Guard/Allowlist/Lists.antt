-- ===== src/Guard/Allowlist/Lists.antt =====
-- http_client/guard/policy.rs: the two readings of an allowlist.
use mathlib.Core.Path.{subst}
use dravr_tronc.Common.{
  ◌≡◌, refl, sym, ◌∙◌, inl, inr, Bool, true, false, ◌&&◌, Option, none, some, List, [], ◌∷◌, nat_eq,
  list_eq, arith, Option-cases, Result-cases, ok, is_none, is_some,
}
use dravr_tronc.Common.Lists.{any, All}
use dravr_tronc.Guard.Deny.{IpAddr}
use dravr_tronc.Guard.Text.{Text}
use dravr_tronc.Guard.Policy.{AllowedHost, host_beq}
use dravr_tronc.Guard.Allowlist.{
  AllowedEntry, parse_entry, new, parse_all, is_bare, find_shadowed, entries_of, try_new,
}

module _ (parse_ip : Text → Option IpAddr) where
  -- The entry admits every path of the host.
  abbrev pub admits_all : AllowedHost → AllowedEntry → Bool
  admits_all h e = is_none e.path && host_beq e.host h

  -- No entry is confined to a prefix while another admits every path of its host.
  abbrev pub IsConfined : List AllowedEntry → AllowedEntry → Type 0
  IsConfined es e = is_some e.path ≡ true → any (admits_all e.host) es ≡ false

  parse_all-new :
      (ts : List Text) (es : List (Text × AllowedEntry))
      → parse_all parse_ip ts ≡ ok es
      → entries_of parse_ip es ≡ new parse_ip ts
  unfolding parse_all new
  parse_all-new [] es e = ground (arith, e)
  parse_all-new (t ∷ ts) es e = elim (Result-cases (parse_entry parse_ip t)) [
    | inr (x, unread) ↦ absurd (ground (arith, e, unread))
    | inl (none, blank) ↦ rw (blank, new) (parse_all-new ts es (rw (blank, parse_all) at e))
    | inl (some entry, read) ↦ elim (Result-cases (parse_all parse_ip ts)) [
      | inr (x, later) ↦ absurd (ground (arith, rw (read, parse_all, later) at e))
      | inl (more, later) ↦
          let same = rw (read, parse_all, later) at e in
          ground (arith, same, read, parse_all-new ts more later)
    ]
  ]

  any-is_bare :
      (h : AllowedHost) (es : List (Text × AllowedEntry))
      → any (is_bare parse_ip h) es ≡ any (admits_all h) (entries_of parse_ip es)
  unfolding is_bare
  any-is_bare h [] = refl
  any-is_bare h ((t, e) ∷ es) = ground (arith, any-is_bare h es)

  find_shadowed-none :
      (whole es : List (Text × AllowedEntry))
      → find_shadowed parse_ip whole es ≡ none
      → All (IsConfined (entries_of parse_ip whole)) (entries_of parse_ip es)
  unfolding find_shadowed
  find_shadowed-none whole [] n = tt
  find_shadowed-none whole ((t, e) ∷ es) n = (
    (λ p. ground (arith, n, p, any-is_bare e.host whole)),
    find_shadowed-none whole es (ground (arith, n)),
  )

  -- An allowlist that is read with every entry checked is what the lenient reading makes of the same
  -- entries, and confines each host that it lists under a prefix: no entry admits every path of it.
  pub try_new_ok :
      (ts : List Text) (es : List AllowedEntry)
      → try_new parse_ip ts ≡ ok es
      → (es ≡ new parse_ip ts) × All (IsConfined es) es
  unfolding try_new
  try_new_ok ts es e = elim (Result-cases (parse_all parse_ip ts)) [
    | inr (x, unread) ↦ absurd (ground (arith, e, unread))
    | inl (parsed, read) ↦ elim (Option-cases (find_shadowed parse_ip parsed parsed)) [
      | inr (t, found) ↦ absurd (ground (arith, e, read, found))
      | inl clear ↦
          let same : entries_of parse_ip parsed ≡ es = ground (arith, e, read, clear) in
          (
            sym same ∙ parse_all-new ts parsed read,
            subst (λ (l : List AllowedEntry). All (IsConfined l) l) same
                (find_shadowed-none parsed parsed clear),
          )
    ]
  ]
