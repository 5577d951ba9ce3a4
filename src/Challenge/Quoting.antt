-- ===== src/Challenge/Quoting.antt =====
-- mcp/resource_metadata/challenge.rs: a challenge as a client reads it, by the quoted strings of
-- RFC 9110.
use dravr_tronc.Common.{
  ℕ, ◌≡◌, refl, Bool, true, false, Option, none, some, [], ◌∷◌, ◌++◌, ◌==◌, nat_eq, list_eq,
  if◌then◌else◌, arith, same_refl,
}
use dravr_tronc.Guard.Text.{Text}
use dravr_tronc.Protocol.Text.{text_of}
use dravr_tronc.Challenge.{
  BearerError, invalid_request, invalid_token_error, insufficient_scope_error, error_text,
  BearerChallenge, escaped, write_quoted, bearer_key, error_key, scope_key, write_scope,
  write_error, display,
}

abbrev put : ℕ → Option (Text × Text) → Option (Text × Text)
put c none = none
put c (some (value, after)) = some (c ∷ value, after)

-- The rest of a quoted string and what follows it; the argument tells whether a `\` came before.
unfoldable pub read_on : Bool → Text → Option (Text × Text)
read_on is_escaped [] = none
read_on true (c ∷ cs) = put c (read_on false cs)
read_on false (c ∷ cs) =
    let value = put c (read_on false cs) in
    let after_slash = read_on true cs in
    if c == b'"' then some ([], cs) else if c == b'\\' then after_slash else value

unfoldable pub read_quoted : Text → Option (Text × Text)
read_quoted [] = none
read_quoted (c ∷ cs) = if c == b'"' then read_on false cs else none

-- What follows a text that is expected.
unfoldable pub expect : Text → Text → Option Text
expect [] t = some t
expect (p ∷ ps) [] = none
expect (p ∷ ps) (c ∷ cs) = let rest = expect ps cs in if c == p then rest else none

abbrev read_code : Text → Option BearerError
read_code t =
    if t == error_text invalid_request
    then some invalid_request
    else if t == error_text invalid_token_error
    then some invalid_token_error
    else if t == error_text insufficient_scope_error
    then some insufficient_scope_error
    else none

-- A parameter that may be there, and what follows it.
abbrev read_optional : Text → Text → Option (Option Text × Text)
read_optional key t = elim (expect key t) [
  | none ↦ some (none, t)
  | some rest ↦ elim (read_quoted rest) [
    | none ↦ none
    | some (value, after) ↦ some (some value, after)
  ]
]

abbrev with_code : Option Text → Option (Option BearerError)
with_code none = some none
with_code (some code) = elim (read_code code) [ none ↦ none | some e ↦ some (some e) ]

abbrev built : Text → Option Text → Option Text → Option BearerChallenge
built url code scope = elim (with_code code) [
  | none ↦ none
  | some error ↦ some (record { resource_metadata = url; error = error; scope = scope })
]

abbrev read_scope : Text → Option Text → Text → Option BearerChallenge
read_scope url code t = elim (read_optional scope_key t) [
  | none ↦ none
  | some (scope, after) ↦ built url code scope
]

abbrev read_parts : Text → Text → Option BearerChallenge
read_parts url t = elim (read_optional error_key t) [
  | none ↦ none
  | some (code, after) ↦ read_scope url code after
]

-- The parts of a challenge, in their order.
unfoldable pub read : Text → Option BearerChallenge
read t = elim (expect bearer_key t) [
  | none ↦ none
  | some rest ↦ elim (read_quoted rest) [ none ↦ none | some (url, after) ↦ read_parts url after ]
]

read_on-escaped :
    (value after : Text) → read_on false (escaped value ++ b'"' ∷ after) ≡ some (value, after)
unfolding read_on escaped
read_on-escaped [] after = refl
read_on-escaped (c ∷ cs) after =
    ground (arith, read_on-escaped cs after, nat_eq.same_iff c b'"', nat_eq.same_iff c b'\\')

read_quoted-write_quoted :
    (value after : Text) → read_quoted (write_quoted value after) ≡ some (value, after)
unfolding read_quoted
read_quoted-write_quoted value after = read_on-escaped value after

expect_there : (p t : Text) → expect p (p ++ t) ≡ some t
unfolding expect
expect_there [] t = refl
expect_there (c ∷ cs) t = ground (arith, expect_there cs t, same_refl c)

read_optional_there :
    (key value after : Text)
    → read_optional key (key ++ write_quoted value after) ≡ some (some value, after)
read_optional_there key value after =
    rw
      (
        expect_there key (write_quoted value after),
        read_optional,
        read_quoted-write_quoted value after,
      )
      refl

read_code-error_text : (e : BearerError) → read_code (error_text e) ≡ some e
unfolding text_of
read_code-error_text invalid_request = refl
read_code-error_text invalid_token_error = refl
read_code-error_text insufficient_scope_error = refl

read_optional-write_scope :
    (scope : Option Text) → read_optional scope_key (write_scope scope) ≡ some (scope, [])
unfolding expect text_of
read_optional-write_scope none = refl
read_optional-write_scope (some scope) = read_optional_there scope_key scope []

no_error :
    (scope : Option Text)
    → read_optional error_key (write_scope scope) ≡ some (none, write_scope scope)
unfolding expect text_of
no_error none = refl
no_error (some scope) = refl

read_parts-write_error :
    (url : Text) (error : Option BearerError) (scope : Option Text)
    → read_parts url (write_error error (write_scope scope))
      ≡ some (record { resource_metadata = url; error = error; scope = scope })
read_parts-write_error url none scope =
    rw (no_error scope, read_parts, read_optional-write_scope scope, read_scope) refl
read_parts-write_error url (some e) scope =
    rw
      (
        read_optional_there error_key (error_text e) (write_scope scope),
        read_parts,
        read_optional-write_scope scope,
        read_scope,
        built,
        with_code,
        read_code-error_text e,
      )
      refl

-- A client that reads the quoted strings of a challenge gets the parts that it was built from:
-- whatever a value holds, it neither ends its parameter nor adds another.
pub read-display : (c : BearerChallenge) → read (display c) ≡ some c
unfolding display read
read-display c =
    let after = write_error c.error (write_scope c.scope) in
    rw
      (
        expect_there bearer_key (write_quoted c.resource_metadata after),
        read,
        read_quoted-write_quoted c.resource_metadata after,
      )
      (read_parts-write_error c.resource_metadata c.error c.scope)
