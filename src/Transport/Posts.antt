-- ===== src/Transport/Posts.antt =====
-- mcp/transport/http.rs: the checks of a POST before it is dispatched, and of mcp/transport/mirror.rs
-- the headers that repeat its body. The body is the JSON that it is, or why it could not be read.
use dravr_tronc.Common.{
  ℕ, Bool, true, false, not, ◌&&◌, ◌||◌, Option, none, some, String, List, [], ◌∷◌, ◌==◌, nat_eq,
  list_eq, string_eq, option_eq, leb, if◌then◌else◌, Result, ok, err, is_some,
}
use dravr_tronc.Common.Lists.{any, all, length}
use dravr_tronc.Guard.Text.{Text}
use dravr_tronc.Guard.Deny.{IpAddr}
use dravr_tronc.Auth.{trim}
use dravr_tronc.Http.{HeaderMap, is_visible, visible}
use dravr_tronc.Json.{Value}
use dravr_tronc.Protocol.{
  ErrorCode, header_mismatch, unsupported_protocol_version, invalid_request, parse_error,
  JsonRpcRequest, JsonRpcResponse, JsonRpcMessage, parse_message, with_metadata,
}
use dravr_tronc.Protocol.Text.{text_of}
use dravr_tronc.Protocol.Modern.{
  ModernMeta, legacy, from_params, is_modern_revision, and_get, and_str, protocol_version_header,
}
use dravr_tronc.Server.{McpServer, accepts_protocol_version}
use dravr_tronc.Transport.Mirror.{is_param_header, mirrored_name_field, decode_header_value}
use dravr_tronc.Transport.Hosts.{HostRefusal, host_mismatch, get_all, check_origin_and_host}
use dravr_tronc.Transport.Rendering.{Quality, Rendering, negotiate, is_json_content_type}
use dravr_tronc.Transport.Headers.{version_header}

-- A refusal before dispatch: its status, and the code of its error where it has one; a refusal of
-- the origin or the host is a plain text.
pub record Refusal : Type 0 where
  pub status : ℕ
  pub code : Option ErrorCode

abbrev pub refusal : ℕ → ErrorCode → Refusal
refusal status code = record { status = status; code = some code }

abbrev pub plain_refusal : ℕ → Refusal
plain_refusal status = record { status = status; code = none }

abbrev pub mismatch : Refusal
mismatch = refusal 400 header_mismatch

abbrev pub code_of : JsonRpcResponse → ErrorCode
code_of answer = elim answer.error [ none ↦ invalid_request | some e ↦ e.code ]

abbrev pub host_status : HostRefusal → ℕ
host_status host_mismatch = 400
host_status _ = 403

-- `accepted_protocol_version`: the version, where the server accepts it. A version is known by the
-- text that `read_text` makes of its characters.
module _ (read_text : Text → String) where
  unfoldable pub accepted_protocol_version : McpServer → HeaderMap → Result (Option String) Refusal
  accepted_protocol_version s headers = elim (version_header headers) [
    | err fault ↦ err mismatch
    | ok none ↦ ok none
    | ok (some text) ↦
        if accepts_protocol_version (read_text text) s
        then ok (some (read_text text))
        else err (refusal 400 unsupported_protocol_version)
  ]

-- `single_header`.
unfoldable pub single_header : String → HeaderMap → Result (Option Text) Refusal
single_header name headers = elim (get_all name headers) [
  | [] ↦ ok none
  | value ∷ rest ↦ elim rest [
    | again ∷ more ↦ err mismatch
    | [] ↦ elim (visible value) [ none ↦ err mismatch | some text ↦ ok (some text) ]
  ]
]

abbrev pub is_bad_param : HeaderMap → String × Text → Bool
is_bad_param headers (name, value) =
    is_param_header name && (leb 2 (length (get_all name headers)) || not (all is_visible value))

abbrev pub is_legacy : ModernMeta → Bool
is_legacy legacy = true
is_legacy _ = false

module _ (base64 : Text → Option Text) where
  abbrev pub method_agrees : Bool → JsonRpcRequest → Option Text → Bool
  method_agrees required r none = not required
  method_agrees required r (some method) = trim method == text_of r.method

  abbrev pub body_name : JsonRpcRequest → String → Option Text
  body_name r field_ = elim (and_str (and_get field_ r.params)) [
    | none ↦ none
    | some name ↦ some (text_of name)
  ]

  abbrev pub name_agrees : Bool → JsonRpcRequest → Option Text → Bool
  name_agrees required r header = elim (mirrored_name_field r.method) [
    | none ↦ true
    | some field_ ↦ elim header [
      | none ↦ not required
      | some raw ↦
          is_some (body_name r field_) && (decode_header_value base64 raw == body_name r field_)
    ]
  ]

  -- `check_standard_headers`.
  unfoldable pub check_standard_headers :
      HeaderMap → JsonRpcRequest → Bool → Result (Unit {0}) Refusal
  check_standard_headers headers r is_modern =
      let required = is_modern && is_some r.id in
      let named : Result (Unit {0}) Refusal = elim (single_header "mcp-name" headers) [
        | err why ↦ err why
        | ok name ↦ if name_agrees required r name then ok tt else err mismatch
      ] in
      let rest : Result (Unit {0}) Refusal = elim (single_header "mcp-method" headers) [
        | err why ↦ err why
        | ok method ↦ if method_agrees required r method then named else err mismatch
      ] in
      if any (is_bad_param headers) headers then err mismatch else rest

  abbrev pub mirrors_request : String × Text → Bool
  mirrors_request (name, value) =
      (name == "mcp-method") || (name == "mcp-name") || is_param_header name

  -- `check_response_headers`.
  unfoldable pub check_response_headers : HeaderMap → Result (Unit {0}) Refusal
  check_response_headers headers = if any mirrors_request headers then err mismatch else ok tt

  -- The start of `serve_request`: the request with its version, and whether that is a modern one.
  module _ (read_text : Text → String) where
    abbrev pub with_version : Option String → JsonRpcRequest → JsonRpcRequest
    with_version none r = r
    with_version (some version) r = with_metadata protocol_version_header version r

    abbrev pub is_modern_version : Option String → Bool
    is_modern_version none = false
    is_modern_version (some version) = is_modern_revision (text_of version)

    abbrev pub lacks_header : Option String → JsonRpcRequest → Bool
    lacks_header (some version) r = false
    lacks_header none r = is_some r.id && not (is_legacy (from_params r.params))

    abbrev pub held : HeaderMap → JsonRpcRequest → Bool → Result (JsonRpcRequest × Bool) Refusal
    held headers r is_modern = elim (check_standard_headers headers r is_modern) [
      | err why ↦ err why
      | ok _ ↦ ok (r, is_modern)
    ]

    unfoldable pub admit_request :
        McpServer → HeaderMap → JsonRpcRequest → Result (JsonRpcRequest × Bool) Refusal
    admit_request s headers r = elim (accepted_protocol_version read_text s headers) [
      | err why ↦ err why
      | ok version ↦
          if lacks_header version r
          then err mismatch
          else held headers (with_version version r) (is_modern_version version)
    ]

-- What the transport was built with.
pub record Transport : Type 0 where
  pub allowed_origins : List Text
  pub allowed_hosts : Option (List Text)

module _ (parse_ip : Text → Option IpAddr) (f32 : Quality) (is_integer : String → Bool)
    (is_i32 : String → Bool) where
  abbrev pub read_body :
      Rendering → Result (Option Value) ℕ → Result (JsonRpcMessage × Rendering) Refusal
  read_body rendering (err status) =
      if status == 413 then err (refusal 413 invalid_request) else err (refusal status parse_error)
  read_body rendering (ok json) = elim (parse_message is_integer is_i32 json) [
    | err why ↦ err (refusal 400 (code_of why))
    | ok message ↦ ok (message, rendering)
  ]

  -- `handle_mcp_post`, up to the dispatch of the message.
  unfoldable pub admit_post :
      Transport
      → HeaderMap
      → Option Text
      → Result (Option Value) ℕ
      → Result (JsonRpcMessage × Rendering) Refusal
  admit_post t headers target body =
      let rendered : Result (JsonRpcMessage × Rendering) Refusal = elim (negotiate f32 headers) [
        | none ↦ err (refusal 406 invalid_request)
        | some rendering ↦ read_body rendering body
      ] in
      elim (check_origin_and_host parse_ip t.allowed_origins t.allowed_hosts headers target) [
        | err why ↦ err (plain_refusal (host_status why))
        | ok _ ↦
            if is_json_content_type headers then rendered else err (refusal 415 invalid_request)
      ]
