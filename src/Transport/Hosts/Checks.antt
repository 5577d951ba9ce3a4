-- ===== src/Transport/Hosts/Checks.antt =====
-- mcp/transport/http.rs: which requests pass the check of their host.
use dravr_tronc.Common.{
  ◌≡◌, ◌↔◌, ◌⊎◌, inl, inr, refl, sym, ap, true, Option, none, some, List, [], ◌∷◌, ◌∙◌, nat_eq,
  list_eq, option_eq, ok, arith, Bool-cases, Option-cases, Result-cases,
}
use dravr_tronc.Common.Lists.{Any, any-Any, all, List-cases}
use dravr_tronc.Guard.Text.{Text, eq_ignore_ascii_case, text_eq_iff}
use dravr_tronc.Guard.Deny.{IpAddr}
use dravr_tronc.Auth.{trim, is_loopback_host}
use dravr_tronc.Http.{HeaderMap, visible, is_visible}
use dravr_tronc.Transport.Hosts.{
  Authority, get_all, bare, admits_port, entry_admits, is_known, is_host_allowed, request_authority,
  check_host, split_authority, against_target,
}
use dravr_tronc.Transport.Hosts.Authorities.{IsWritten, split_authority_iff}

-- The target of the request, where it has one, is the authority, whatever the case of its letters.
abbrev pub Matches : Option Text → Text → Type 0
Matches none authority = Unit
Matches (some target) authority = eq_ignore_ascii_case (trim authority) target ≡ true

-- The request has no `Host`, and its target is the authority; or it has one, in visible characters,
-- which is the authority, and its target is no other.
unfoldable pub Names : HeaderMap → Option Text → Text → Type 0
Names headers target authority =
    ((get_all "host" headers ≡ []) × (target ≡ some authority))
    ⊎ ((get_all "host" headers ≡ authority ∷ [])
        × (visible authority ≡ some authority)
        × Matches target authority)

-- The entry writes the host, whatever the case of its letters, and no port or this one.
unfoldable pub Admits : Authority → Text → Type 0
Admits (host, port) entry =
    (parts : Authority) × IsWritten (trim entry) parts
    × (eq_ignore_ascii_case parts.0 host ≡ true)
    × ((parts.1 ≡ none) ⊎ (parts.1 ≡ port))

-- The host, without a dot at its end, is loopback; or an entry of the list admits host and port.
unfoldable pub IsKnown : (Text → Option IpAddr) → List Text → Authority → Type 0
IsKnown parse_ip allowed (host, port) =
    (is_loopback_host parse_ip (bare host) ≡ true) ⊎ Any (Admits (host, port)) allowed

visible_same : (v text : Text) → visible v ≡ some text → v ≡ text
unfolding visible
visible_same v text e = elim (Bool-cases (all is_visible v)) [
  | inl seen ↦ ground (arith, e, seen)
  | inr hidden ↦ absurd (ground (arith, e, hidden))
]

admits_port_iff :
    (allowed port : Option Text)
    → (admits_port allowed port ≡ true) ↔ ((allowed ≡ none) ⊎ (allowed ≡ port))
admits_port_iff none port = (λ e. inl refl, λ n. refl)
admits_port_iff (some p) none = (λ e. absurd (ground (arith, e)), λ n. absurd (ground (arith, n)))
admits_port_iff (some p) (some q) = (
  λ e. inr (ap some ((text_eq_iff p q).0 e)),
  λ n. elim n [
    | inl bad ↦ absurd (ground (arith, bad))
    | inr same ↦ (text_eq_iff p q).1 (ground (arith, same))
  ],
)

entry_iff :
    (at : Authority) (entry : Text)
    → (entry_admits at (split_authority (trim entry)) ≡ true) ↔ Admits at entry
unfolding Admits
entry_iff (host, port) entry = elim (Option-cases (split_authority (trim entry))) [
  | inl unread ↦ (
    λ e. absurd (ground (arith, e, unread)),
    λ (parts, w, h, p).
        absurd (ground (arith, unread, (split_authority_iff (trim entry) parts).1 w)),
  )
  | inr ((h', p'), read) ↦ (
    λ e. (
      (h', p'),
      (split_authority_iff (trim entry) (h', p')).0 read,
      ground (arith, e, read),
      (admits_port_iff p' port).0 (ground (arith, e, read)),
    ),
    λ (parts, w, h, p).
        let same : parts ≡ (h', p') =
          ground (arith, read, (split_authority_iff (trim entry) parts).1 w) in
        let host_fine : eq_ignore_ascii_case h' host ≡ true =
          rw (ap (λ (x : Authority). x.0) (sym same)) h in
        let port_fine : admits_port p' port ≡ true =
          rw (ap (λ (x : Authority). x.1) (sym same)) ((admits_port_iff parts.1 port).1 p) in
        rw (read, host_fine, port_fine) refl,
  )
]

module _ (parse_ip : Text → Option IpAddr) where
  is_known_iff :
      (allowed : List Text) (at : Authority)
      → (is_known parse_ip allowed at ≡ true) ↔ IsKnown parse_ip allowed at
  unfolding IsKnown
  is_known_iff allowed (host, port) =
      let listed =
        any-Any (Admits (host, port)) (λ e. entry_admits (host, port) (split_authority (trim e)))
          allowed (entry_iff (host, port)) in
      elim (Bool-cases (is_loopback_host parse_ip (bare host))) [
        | inl near ↦ (λ e. inl near, λ k. ground (arith, near))
        | inr far ↦ (
          λ e. inr (listed.0 (ground (arith, e, far))),
          λ k. elim k [
            | inl near ↦ absurd (ground (arith, near, far))
            | inr there ↦ ground (arith, listed.1 there)
          ],
        )
      ]

  against_target_iff :
      (target : Option Text) (host authority : Text)
      → (against_target parse_ip target host ≡ ok (some authority))
        ↔ ((host ≡ authority) × Matches target authority)
  against_target_iff none host authority =
      (λ e. (ground (arith, e), tt), λ (same, u). ground (arith, same))
  against_target_iff (some target) host authority =
      elim (Bool-cases (eq_ignore_ascii_case (trim host) target)) [
        | inl agreed ↦ (
          λ e.
              let same : host ≡ authority = ground (arith, e, agreed) in
              (same, rw (sym same) agreed),
          λ (same, m). ground (arith, same, agreed),
        )
        | inr apart ↦ (
          λ e. absurd (ground (arith, e, apart)),
          λ (same, m). absurd (ground (arith, rw (sym same) at m, apart)),
        )
      ]

  one_host :
      (headers : HeaderMap) (target : Option Text) (host authority : Text)
      → get_all "host" headers ≡ host ∷ []
      → (request_authority parse_ip headers target ≡ ok (some authority))
        ↔ Names headers target authority
  unfolding request_authority Names
  one_host headers target host authority single = elim (Option-cases (visible host)) [
    | inl hidden ↦ (
      λ e. absurd (ground (arith, e, single, hidden)),
      λ n. elim n [
        | inl (absent, t) ↦ absurd (ground (arith, absent, single))
        | inr (present, seen, m) ↦
            let same : host ≡ authority = ground (arith, present, single) in
            absurd (ground (arith, hidden, rw (sym same) at seen))
      ],
    )
    | inr (text, seen) ↦
        let same : host ≡ text = visible_same host text seen in
        let own : visible host ≡ some host = seen ∙ ap some (sym same) in
        let against = against_target_iff target host authority in
        (
          λ e.
              let (is, m) = against.0 (rw (single, request_authority, own) at e) in
              inr (single ∙ ap (λ (x : Text). x ∷ []) is, rw (sym is) own, m),
          λ n. elim n [
            | inl (absent, t) ↦ absurd (ground (arith, absent, single))
            | inr (present, s, m) ↦
                rw (single, request_authority, own) (against.1 (ground (arith, present, single), m))
          ],
        )
  ]

  request_authority_iff :
      (headers : HeaderMap) (target : Option Text) (authority : Text)
      → (request_authority parse_ip headers target ≡ ok (some authority))
        ↔ Names headers target authority
  unfolding request_authority Names
  request_authority_iff headers target authority = elim (List-cases (get_all "host" headers)) [
    | inl absent ↦ (
      λ e. inl (absent, ground (arith, e, absent)),
      λ n. elim n [
        | inl (a, t) ↦ ground (arith, absent, t)
        | inr (present, s, m) ↦ absurd (ground (arith, present, absent))
      ],
    )
    | inr (host, rest, first) ↦ elim (List-cases rest) [
      | inl single ↦ one_host headers target host authority (first ∙ ap (◌∷◌ host) single)
      | inr (again, more, second) ↦
          let twice : get_all "host" headers ≡ host ∷ again ∷ more = first ∙ ap (◌∷◌ host) second in
          (
            λ e. absurd (ground (arith, e, twice)),
            λ n. elim n [
              | inl (a, t) ↦ absurd (ground (arith, a, twice))
              | inr (present, s, m) ↦ absurd (ground (arith, present, twice))
            ],
          )
    ]
  ]

  -- A request passes the check exactly when it names one authority, in its one `Host` or else in its
  -- target, which is no other; this is written as one; and its host is loopback, or the list has it
  -- without a port or with the same.
  pub check_host_iff :
      (headers : HeaderMap) (target : Option Text) (allowed : List Text)
      → (check_host parse_ip headers target allowed ≡ ok tt) ↔ (
          (authority : Text) × (parts : Authority) × Names headers target authority
          × IsWritten (trim authority) parts
          × IsKnown parse_ip allowed parts)
  unfolding check_host is_host_allowed
  check_host_iff headers target allowed = (
    λ e. elim (Result-cases (request_authority parse_ip headers target)) [
      | inr (why, refused) ↦ absurd (ground (arith, e, refused))
      | inl (none, nameless) ↦ absurd (ground (arith, e, nameless))
      | inl (some authority, named) ↦ elim (Option-cases (split_authority (trim authority))) [
        | inl unwritten ↦ absurd (ground (arith, e, named, unwritten))
        | inr (parts, written) ↦ (
          authority,
          parts,
          (request_authority_iff headers target authority).0 named,
          (split_authority_iff (trim authority) parts).0 written,
          (is_known_iff allowed parts).0 (ground (arith, e, named, written)),
        )
      ]
    ],
    λ (authority, parts, names, is_written, known).
        let named = (request_authority_iff headers target authority).1 names in
        let written = (split_authority_iff (trim authority) parts).1 is_written in
        let fine = (is_known_iff allowed parts).1 known in
        rw (named, check_host, written, is_host_allowed, fine) refl,
  )
