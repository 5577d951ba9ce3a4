-- ===== src/Service/Client.antt =====
-- service_client/client.rs: the client of one other service. The url crate's parsing, the building of
-- a request, the answers of the network, the token source's answers and the drawn ids are arguments;
-- what goes to the network is recorded. The build is the one without the feature `otel`, which adds
-- the headers of a trace.
pub mod Origins
pub mod Attempts
pub mod Sending
pub mod Resends
use dravr_tronc.Common.{
  ℕ, Bool, true, false, not, ◌&&◌, ◌||◌, Option, none, some, String, List, [], ◌∷◌, ◌++◌, ◌==◌,
  nat_eq, string_eq, option_eq, list_eq, leb, if◌then◌else◌, Result, ok, err, is_some, is_none,
}
use dravr_tronc.Common.Lists.{all}
use dravr_tronc.Common.Assoc.{lookup, without, insert as put}
use dravr_tronc.Common.Bytes.{Bytes}
use dravr_tronc.Guard.Text.{Text, text_eq_iff}
use dravr_tronc.Guard.Deny.{IpAddr}
use dravr_tronc.Auth.{is_loopback_host, is_empty}
use dravr_tronc.Json.{Value}
use dravr_tronc.Http.{HeaderMap, visible}
use dravr_tronc.Requests.{request_id_header}
use dravr_tronc.Iam.{IamError, malformed_token}
use dravr_tronc.Iam.TokenSource.{IdTokenSource, new as new_source}
use dravr_tronc.Service.{
  Exchange, ServiceError, TransportFailure, ConfigError, identity, transport, body, other,
  closed_before_response, invalid_base_url, audience_required, audience_not_set, http_client,
}
use dravr_tronc.Service.Transport.{TransportError, of}
use dravr_tronc.Service.Response.{ServiceResponse, classify}

-- A parsed URL; the port is its own or the one of its scheme.
pub record Url : Type 0 where
  pub scheme : String
  pub username : Text
  pub password : Option Text
  pub host : Option Text
  pub port : Option ℕ
  pub path : Text
  pub query : Option Text
  pub fragment : Option Text

-- `Url::origin`, of URLs with a scheme http or https.
pub record Origin : Type 0 where
  pub scheme : String
  pub host : Option Text
  pub port : Option ℕ

abbrev pub origin : Url → Origin
origin u = record { scheme = u.scheme; host = u.host; port = u.port }

abbrev pub origin_beq : Origin → Origin → Bool
origin_beq a b = (a.scheme == b.scheme) && (a.host == b.host) && (a.port == b.port)

pub data Method : Type 0 where
  method_get method_post method_delete : Method

pub record Request : Type 0 where
  pub method : Method
  pub url : Url
  pub headers : HeaderMap
  pub payload : Option Bytes

-- `RequestBuilder`: what it builds, and whether it can be cloned.
pub record RequestBuilder : Type 0 where
  pub built : Option Request
  pub can_clone : Bool

pub record ServiceClient : Type 0 where
  pub service : String
  pub base_url : Text
  pub base : Url
  pub tokens : Option IdTokenSource

pub record ServiceRequest : Type 0 where
  pub client : ServiceClient
  pub operation : String
  pub builder : RequestBuilder
  pub resend_after_close : Bool
  pub refused : Bool

abbrev json_type : Text
json_type =
    b'a' ∷ b'p' ∷ b'p' ∷ b'l' ∷ b'i' ∷ b'c' ∷ b'a' ∷ b't' ∷ b'i' ∷ b'o' ∷ b'n' ∷ b'/' ∷ b'j' ∷ b's'
    ∷ b'o' ∷ b'n' ∷ []

-- A character that a header's value can hold, once it is bytes.
abbrev pub is_sendable : ℕ → Bool
is_sendable c = (leb 32 c && not (c == 127)) || (c == 9)

unfoldable pub trim_end_matches : ℕ → Text → Text
trim_end_matches c [] = []
trim_end_matches c (d ∷ ds) = elim (trim_end_matches c ds) [
  | [] ↦ if d == c then [] else d ∷ []
  | e ∷ es ↦ d ∷ e ∷ es
]

abbrev pub starts_with : ℕ → Text → Bool
starts_with c [] = false
starts_with c (d ∷ ds) = d == c

abbrev pub is_http : String → Bool
is_http scheme = (scheme == "http") || (scheme == "https")

abbrev pub has_credentials : Url → Bool
has_credentials u = not (is_empty u.username) || is_some u.password

abbrev pub has_tail : Url → Bool
has_tail u = is_some u.query || is_some u.fragment

-- `audience.filter(|audience| !audience.is_empty())`.
abbrev pub named : Option Text → Option Text
named none = none
named (some a) = if is_empty a then none else some a

abbrev pub addressed : String → Option Text → Result (Option IdTokenSource) ConfigError
addressed service audience = elim (named audience) [
  | none ↦ err (audience_required service)
  | some a ↦ ok (some (new_source a))
]

-- `RequestBuilder::json`: a content type that the caller has set stays.
unfoldable pub with_json : Option Bytes → RequestBuilder → RequestBuilder
with_json printed b = elim b.built [
  | none ↦ b
  | some r ↦ elim printed [
    | none ↦ record { built = none; can_clone = false }
    | some bytes ↦ record {
      built = some (record r {
        headers = elim (lookup "content-type" r.headers) [
          | none ↦ put "content-type" json_type r.headers
          | some t ↦ r.headers
        ];
        payload = some bytes;
      });
      can_clone = b.can_clone;
    }
  ]
]

-- `ServiceRequest::header`. `header_name` reads a name, in lower case, where it is one; a name or a
-- value that cannot be sent makes the builder one of an error.
unfoldable pub header : (Text → Option String) → Text → Text → ServiceRequest → ServiceRequest
header header_name name value r =
    let spoiled = record r { builder = record { built = none; can_clone = false } } in
    elim r.builder.built [
      | none ↦ r
      | some q ↦ elim (header_name name) [
        | none ↦ spoiled
        | some n ↦
            if all is_sendable value
            then record r {
              builder = record r.builder {
                built = some (record q { headers = q.headers ++ (n, value) ∷ [] });
              };
            }
            else spoiled
      ]
    ]

module _ (parse_ip : Text → Option IpAddr) (parse_url : Text → Option Url) where
  abbrev pub tokens_for :
      String → Url → Text → Option Text → Result (Option IdTokenSource) ConfigError
  tokens_for service url host audience =
      if is_loopback_host parse_ip host
      then ok none
      else if not (url.scheme == "https")
      then err (invalid_base_url service)
      else addressed service audience

  abbrev pub with_host : String → Text → Url → Option Text → Text → Result ServiceClient ConfigError
  with_host service base_url url audience host =
      let client : Result ServiceClient ConfigError = elim (tokens_for service url host audience) [
        | err why ↦ err why
        | ok tokens ↦
            ok (record { service = service; base_url = base_url; base = url; tokens = tokens })
      ] in
      if has_credentials url
      then err (invalid_base_url service)
      else if has_tail url
      then err (invalid_base_url service)
      else client

  abbrev pub with_url : String → Text → Option Text → Url → Result ServiceClient ConfigError
  with_url service base_url audience url =
      let hosted : Result ServiceClient ConfigError = elim url.host [
        | none ↦ err (invalid_base_url service)
        | some host ↦ with_host service base_url url audience host
      ] in
      if is_http url.scheme then hosted else err (invalid_base_url service)

  unfoldable pub new : String → Text → Option Text → Result ServiceClient ConfigError
  new service url audience =
      let base_url = trim_end_matches b'/' url in
      elim (parse_url base_url) [
        | none ↦ err (invalid_base_url service)
        | some parsed ↦ with_url service base_url audience parsed
      ]

  abbrev pub name_variables : Text → Text → ConfigError → ConfigError
  name_variables url_var audience_var (audience_required service) =
      audience_not_set service url_var audience_var
  name_variables url_var audience_var why = why

  -- `from_env`, by the values of the two variables and whether the HTTP client could be built.
  unfoldable pub from_env :
      String
      → Text
      → Option Text
      → Text
      → Option Text
      → Bool
      → Result (Option ServiceClient) ConfigError
  from_env service url_var url audience_var audience built = elim url [
    | none ↦ ok none
    | some base_url ↦
        let made : Result (Option ServiceClient) ConfigError =
          elim (new service base_url (named audience)) [
            | ok client ↦ ok (some client)
            | err why ↦ err (name_variables url_var audience_var why)
          ] in
        if is_empty (trim_end_matches b'/' base_url)
        then ok none
        else if built
        then made
        else err (http_client service)
  ]

  abbrev pub building : Method → Text → RequestBuilder
  building method url = record {
    built = elim (parse_url url) [
      | none ↦ none
      | some u ↦ some (record { method = method; url = u; headers = []; payload = none })
    ];
    can_clone = is_some (parse_url url);
  }

  unfoldable pub request : String → Method → Text → Bool → ServiceClient → ServiceRequest
  request operation method path resend_after_close client = record {
    client = client;
    operation = operation;
    builder = building method (client.base_url ++ path);
    resend_after_close = resend_after_close;
    refused = not (starts_with b'/' path);
  }

  unfoldable pub get : String → Text → ServiceClient → ServiceRequest
  get operation path client = request operation method_get path true client

  -- `post_json`, by the body as it is printed, where it can be.
  unfoldable pub post_json : String → Text → Option Bytes → ServiceClient → ServiceRequest
  post_json operation path printed client =
      let r = request operation method_post path false client in
      record r { builder = with_json printed r.builder }

  unfoldable pub delete : String → Text → ServiceClient → ServiceRequest
  delete operation path client = request operation method_delete path false client
