-- ===== src/Transport/Headers.antt =====
-- mcp/transport/http.rs: the headers that a request carries, and the status of its answer. Names of
-- headers are in lower case.
use dravr_tronc.Common.{
  ℕ, Bool, true, not, ◌&&◌, ◌||◌, Option, none, some, String, List, [], ◌∷◌, ◌==◌, nat_eq, list_eq,
  string_eq, if◌then◌else◌, Result, ok, err, ◌≡◌, refl, inl, inr, arith, Bool-cases, Option-cases,
}
use dravr_tronc.Common.Lists.{any, take, length}
use dravr_tronc.Common.Assoc.{lookup}
use dravr_tronc.Guard.Text.{Text}
use dravr_tronc.Auth.{trim, bearer_credential}
use dravr_tronc.Http.{HeaderMap, visible}
use dravr_tronc.Protocol.{
  ErrorCode, header_mismatch, unsupported_protocol_version, missing_required_client_capability,
  method_not_found, JsonRpcResponse,
}
use dravr_tronc.Protocol.Text.{text_of}
use dravr_tronc.Transport.Hosts.{get_all}
use dravr_tronc.Transport.Mirror.{is_param_header}

-- Why a header that stands for one value is refused.
pub data HeaderFault : Type 0 where
  is_repeated is_unreadable : HeaderFault

-- `protocol_version_header`.
unfoldable pub version_header : HeaderMap → Result (Option Text) HeaderFault
version_header headers = elim (get_all "mcp-protocol-version" headers) [
  | [] ↦ ok none
  | value ∷ rest ↦ elim rest [
    | again ∷ more ↦ err is_repeated
    | [] ↦ elim (visible value) [ none ↦ err is_unreadable | some text ↦ ok (some (trim text)) ]
  ]
]

-- `session_id_header`: one visible value, or the request is refused.
unfoldable pub session_id_header : HeaderMap → Result (Option Text) HeaderFault
session_id_header headers = elim (get_all "mcp-session-id" headers) [
  | [] ↦ ok none
  | value ∷ rest ↦ elim (visible value) [
    | none ↦ err is_unreadable
    | some text ↦ elim rest [ [] ↦ ok (some (trim text)) | again ∷ more ↦ err is_repeated ]
  ]
]

unfoldable pub bearer_token : HeaderMap → Option Text
bearer_token headers = elim (lookup "authorization" headers) [
  | none ↦ none
  | some value ↦ elim (visible value) [ none ↦ none | some text ↦ bearer_credential text ]
]

abbrev pub withheld_headers : List String
withheld_headers = "authorization" ∷ "cookie" ∷ "proxy-authorization" ∷ "x-api-key" ∷ []

abbrev pub credential_name_fragments : List String
credential_name_fragments = "token" ∷ "secret" ∷ "api-key" ∷ []

abbrev pub begins : Text → Text → Bool
begins t s = take (length t) s == t

-- `str::contains` of a text.
unfoldable pub contains : Text → Text → Bool
contains t [] = begins t []
contains t (c ∷ cs) = let rest = contains t cs in begins t (c ∷ cs) || rest

unfoldable pub is_withheld : String → Bool
is_withheld name =
    any (λ w. w == name) withheld_headers
    || (not (is_param_header name)
        && any (λ fragment. contains (text_of fragment) (text_of name)) credential_name_fragments)

-- `forwarded_headers`: of a name with several values the last stays.
unfoldable pub forwarded : HeaderMap → List (String × Text)
forwarded [] = []
forwarded ((name, value) ∷ hs) =
    let rest = forwarded hs in
    if is_withheld name then rest else elim (visible value) [
      | none ↦ rest
      | some text ↦ elim (lookup name rest) [ some later ↦ rest | none ↦ (name, text) ∷ rest ]
    ]

unfoldable pub forwarded_headers : HeaderMap → Option (List (String × Text))
forwarded_headers headers = elim (forwarded headers) [ [] ↦ none | h ∷ hs ↦ some (h ∷ hs) ]

abbrev pub status_of : ErrorCode → Bool → ℕ
status_of header_mismatch modern = 400
status_of unsupported_protocol_version modern = if modern then 400 else 200
status_of missing_required_client_capability modern = if modern then 400 else 200
status_of method_not_found modern = if modern then 404 else 200
status_of _ modern = 200

unfoldable pub response_status : JsonRpcResponse → Bool → ℕ
response_status response modern = elim response.error [
  | none ↦ 200
  | some e ↦ status_of e.code modern
]

same_name : (a b : String) → (a == b) ≡ true → is_withheld b ≡ true → is_withheld a ≡ true
same_name a b e w = let same : a ≡ b = (string_eq.same_iff a b).0 e in rw same w

-- No tool sees a header that carries a credential.
forwarded_withheld :
    (name : String) (headers : HeaderMap)
    → is_withheld name ≡ true
    → lookup name (forwarded headers) ≡ none
unfolding forwarded lookup
forwarded_withheld name [] w = refl
forwarded_withheld name ((n, v) ∷ hs) w = elim (Bool-cases (is_withheld n)) [
  | inl hidden ↦ rw (hidden, forwarded) (forwarded_withheld name hs w)
  | inr shown ↦ elim (Option-cases (visible v)) [
    | inl unreadable ↦ rw (shown, forwarded, unreadable) (forwarded_withheld name hs w)
    | inr (text, read) ↦ elim (Option-cases (lookup n (forwarded hs))) [
      | inr (later, there) ↦ rw (shown, forwarded, read, there) (forwarded_withheld name hs w)
      | inl first ↦
          rw (shown, forwarded, read, first)
            (ground (arith, forwarded_withheld name hs w, same_name n name, shown, w))
    ]
  ]
]
