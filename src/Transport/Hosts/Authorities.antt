-- ===== src/Transport/Hosts/Authorities.antt =====
-- mcp/transport/http.rs: which texts are authorities, and of which hosts and ports.
use dravr_tronc.Common.{
  ℕ, ◌≡◌, ◌≢◌, ◌↔◌, ◌⊎◌, inl, inr, refl, sym, ap, true, false, Option, none, some, [], ◌∷◌, ◌++◌,
  ◌==◌, nat_eq, arith, Bool-cases, Option-cases, ◌∙◌,
}
use dravr_tronc.Common.Lists.{any, All}
use dravr_tronc.Guard.Text.{Text, split_once, is_whitespace}
use dravr_tronc.Transport.Hosts.{
  is_separator, Authority, port_ok, then_some, after_literal, bracketed, plain, split_authority,
}
use dravr_tronc.Transport.Hosts.Ports.{IsPort, is_port_iff}
use dravr_tronc.Transport.Hosts.Splits.{
  Lacks, split_once_there, split_once_missing, split_once-none, split_once-some,
}

abbrev pub port_text : Option Text → Text
port_text none = []
port_text (some port) = b':' ∷ port

-- Any port that is there is one.
abbrev pub HasPort : Option Text → Type 0
HasPort none = Unit
HasPort (some port) = IsPort port

abbrev pub IsPlain : ℕ → Type 0
IsPlain c = (is_whitespace c ≡ false) × (c ≢ b'/') × (c ≢ b'@') × (c ≢ b'?') × (c ≢ b'#')

abbrev pub Starts : ℕ → Text → Type 0
Starts c [] = ⊥
Starts c (d ∷ ds) = d ≡ c

-- The host stands as it is, without a colon, or in brackets, without a closing one.
abbrev pub Writes : Text → Authority → Type 0
Writes text (host, port) =
    ((text ≡ host ++ port_text port) × Lacks b':' host × (¬ Starts b'[' text))
    ⊎ ((text ≡ b'[' ∷ host ++ b']' ∷ port_text port) × Lacks b']' host)

-- The text is the host and the port as an authority is written: it is not empty, holds neither
-- space nor `/`, `@`, `?` or `#`, and any port is a decimal number below 65536.
unfoldable pub IsWritten : Text → Authority → Type 0
IsWritten text (host, port) =
    (text ≢ []) × All IsPlain text × Writes text (host, port) × HasPort port

port_ok_iff : (port : Option Text) → (port_ok port ≡ true) ↔ HasPort port
port_ok_iff none = (λ e. tt, λ u. refl)
port_ok_iff (some port) = is_port_iff port

is_separator-IsPlain : (c : ℕ) → (is_separator c ≡ false) ↔ IsPlain c
is_separator-IsPlain c = (
  λ e. (
    ground (arith, e),
    ground (arith, e, nat_eq.same_iff c b'/'),
    ground (arith, e, nat_eq.same_iff c b'@'),
    ground (arith, e, nat_eq.same_iff c b'?'),
    ground (arith, e, nat_eq.same_iff c b'#'),
  ),
  λ (w, a, b, q, h). ground (
    arith,
    w,
    a,
    b,
    q,
    h,
    nat_eq.same_iff c b'/',
    nat_eq.same_iff c b'@',
    nat_eq.same_iff c b'?',
    nat_eq.same_iff c b'#',
  ),
)

any-IsPlain : (text : Text) → (any is_separator text ≡ false) ↔ All IsPlain text
any-IsPlain [] = (λ e. tt, λ u. refl)
any-IsPlain (c ∷ cs) = elim (Bool-cases (is_separator c)) [
  | inl bad ↦ (
    λ e. absurd (ground (arith, e, bad)),
    λ (p, ps). absurd (ground (arith, bad, (is_separator-IsPlain c).1 p)),
  )
  | inr fine ↦ (
    λ e. ((is_separator-IsPlain c).0 fine, (any-IsPlain cs).0 (ground (arith, e, fine))),
    λ (p, ps). ground (arith, fine, (any-IsPlain cs).1 ps),
  )
]

-- What a successful split says of the text of the host and of what follows it.
abbrev Fits : Text → Text → Authority → Type 0
Fits host rest got = (host ≡ got.0) × (rest ≡ port_text got.1) × HasPort got.1

then_some-Fits :
    (host : Text) (port : Option Text) (got : Authority)
    → then_some (host, port) ≡ some got
    → Fits host (port_text port) got
then_some-Fits host port got e = elim (Bool-cases (port_ok port)) [
  | inr bad ↦ absurd (ground (arith, e, bad))
  | inl fine ↦
      let same : (host, port) ≡ got = ground (arith, e, fine) in
      rw (sym same) (refl, refl, (port_ok_iff port).0 fine)
]

then_some_there :
    (host : Text) (port : Option Text) → HasPort port → then_some (host, port) ≡ some (host, port)
then_some_there host port p = rw ((port_ok_iff port).1 p) refl

after_literal-Fits :
    (literal rest : Text) (got : Authority)
    → after_literal literal rest ≡ some got
    → Fits literal rest got
after_literal-Fits literal [] got e = then_some-Fits literal none got e
after_literal-Fits literal (c ∷ cs) got e = elim (Bool-cases (c == b':')) [
  | inr other ↦ absurd (ground (arith, e, other))
  | inl colon ↦
      let same : c ≡ b':' = ground (arith, colon, nat_eq.same_iff c b':') in
      rw same (then_some-Fits literal (some cs) got (rw (colon, after_literal) at e))
]

after_literal_there :
    (host : Text) (port : Option Text)
    → HasPort port
    → after_literal host (port_text port) ≡ some (host, port)
after_literal_there host none p = refl
after_literal_there host (some port) p = then_some_there host (some port) p

abbrev Bracketed : Text → Authority → Type 0
Bracketed inner got = (inner ≡ got.0 ++ b']' ∷ port_text got.1) × Lacks b']' got.0 × HasPort got.1

bracketed-Bracketed :
    (inner : Text) (got : Authority) → bracketed inner ≡ some got → Bracketed inner got
bracketed-Bracketed inner got e = elim (Option-cases (split_once b']' inner)) [
  | inl unclosed ↦ absurd (ground (arith, e, unclosed))
  | inr ((literal, rest), closed) ↦
      let (h, r, p) = after_literal-Fits literal rest got (rw (closed, bracketed) at e) in
      let (t, l) = split_once-some b']' inner literal rest closed in
      (rw (sym h, sym r) t, rw (sym h) l, p)
]

bracketed_there :
    (host : Text) (port : Option Text)
    → Lacks b']' host
    → HasPort port
    → bracketed (host ++ b']' ∷ port_text port) ≡ some (host, port)
bracketed_there host port l p =
    rw (split_once_there b']' host (port_text port) l, bracketed) (after_literal_there host port p)

append_nil : (t : Text) → t ++ [] ≡ t
append_nil [] = refl
append_nil (c ∷ cs) = ap (◌∷◌ c) (append_nil cs)

abbrev Plain : Text → Authority → Type 0
Plain text got = (text ≡ got.0 ++ port_text got.1) × Lacks b':' got.0 × HasPort got.1

plain-Plain : (text : Text) (got : Authority) → plain text ≡ some got → Plain text got
plain-Plain text got e = elim (Option-cases (split_once b':' text)) [
  | inl portless ↦
      let (h, r, p) = then_some-Fits text none got (rw (portless, plain) at e) in
      (
        rw (sym h, sym r) (sym (append_nil text)),
        rw (sym h) (split_once-none b':' text portless),
        p,
      )
  | inr ((host, port), split) ↦
      let (h, r, p) = then_some-Fits host (some port) got (rw (split, plain) at e) in
      let (t, l) = split_once-some b':' text host port split in
      (rw (sym h, sym r) t, rw (sym h) l, p)
]

plain_bare : (host : Text) → Lacks b':' host → plain host ≡ some (host, none)
plain_bare host l = rw (split_once_missing b':' host l, plain) refl

plain_there :
    (host : Text) (port : Option Text)
    → Lacks b':' host
    → HasPort port
    → plain (host ++ port_text port) ≡ some (host, port)
plain_there host none l p = ap (λ (t : Text). plain t) (append_nil host) ∙ plain_bare host l
plain_there host (some port) l p =
    rw (split_once_there b':' host port l, plain) (then_some_there host (some port) p)

tail_eq : (c d : ℕ) (cs ds : Text) → c ∷ cs ≡ d ∷ ds → (c ≡ d) × (cs ≡ ds)
tail_eq c d cs ds e = (ground (arith, e), ground (arith, e))

split_authority-IsWritten :
    (text : Text) (got : Authority) → split_authority text ≡ some got → IsWritten text got
unfolding split_authority IsWritten
split_authority-IsWritten [] got e = absurd (ground (arith, e))
split_authority-IsWritten (c ∷ cs) got e = elim (Bool-cases (any is_separator (c ∷ cs))) [
  | inl bad ↦ absurd (ground (arith, e, bad))
  | inr clean ↦
      let full : c ∷ cs ≢ [] = λ n. absurd (ground (arith, n)) in
      let chars = (any-IsPlain (c ∷ cs)).0 clean in
      elim (Bool-cases (c == b'[')) [
        | inl bracket ↦
            let same : c ≡ b'[' = ground (arith, bracket, nat_eq.same_iff c b'[') in
            let (t, l, p) =
              bracketed-Bracketed cs got (rw (clean, bracket, split_authority) at e) in
            (full, chars, inr (rw same (ap (◌∷◌ b'[') t), l), p)
        | inr bare ↦
            let (t, l, p) = plain-Plain (c ∷ cs) got (rw (clean, bare, split_authority) at e) in
            let other : c ≢ b'[' = λ x. ground (arith, bare, x, nat_eq.same_iff c b'[') in
            (full, chars, inl (t, l, other), p)
      ]
]

written_split :
    (c : ℕ) (cs host : Text) (port : Option Text)
    → any is_separator (c ∷ cs) ≡ false
    → Writes (c ∷ cs) (host, port)
    → HasPort port
    → split_authority (c ∷ cs) ≡ some (host, port)
unfolding split_authority
written_split c cs host port clean (inl (t, l, other)) p =
    let bare : (c == b'[') ≡ false = ground (arith, other, nat_eq.same_iff c b'[') in
    rw (clean, bare, split_authority) (ap (λ (x : Text). plain x) t ∙ plain_there host port l p)
written_split c cs host port clean (inr (t, l)) p =
    let (same, rest) = tail_eq c b'[' cs (host ++ b']' ∷ port_text port) t in
    let bracket : (c == b'[') ≡ true = ground (arith, same, nat_eq.same_iff c b'[') in
    rw (clean, bracket, split_authority)
      (ap (λ (x : Text). bracketed x) rest ∙ bracketed_there host port l p)

-- A text is split exactly as it is written.
pub split_authority_iff :
    (text : Text) (got : Authority) → (split_authority text ≡ some got) ↔ IsWritten text got
unfolding IsWritten
split_authority_iff [] (host, port) =
    (λ e. split_authority-IsWritten [] (host, port) e, λ (n, ps, w, p). absurd (n refl))
split_authority_iff (c ∷ cs) (host, port) = (
  λ e. split_authority-IsWritten (c ∷ cs) (host, port) e,
  λ (n, ps, w, p). written_split c cs host port ((any-IsPlain (c ∷ cs)).1 ps) w p,
)
