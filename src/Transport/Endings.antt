-- ===== src/Transport/Endings.antt =====
-- mcp/transport/http.rs: the end of a session by a DELETE, and the answers to a refused caller. What
-- the host's hook resolves is the argument `authenticate`, of the message and its bearer token.
pub mod Owned
use dravr_tronc.Common.{
  ℕ, Bool, true, false, not, Option, none, some, String, List, [], ◌∷◌, ◌==◌, string_eq,
  if◌then◌else◌, Result, ok, err, leb,
}
use dravr_tronc.Guard.Text.{Text}
use dravr_tronc.Guard.Deny.{IpAddr}
use dravr_tronc.Http.{HeaderMap}
use dravr_tronc.Json.{Value, string}
use dravr_tronc.Session.{ToolContext, is_owned_by}
use dravr_tronc.Session.Store.{World, find, end}
use dravr_tronc.Protocol.{
  ErrorCode, unauthorized, rate_limited, internal_error, invalid_request, JsonRpcRequest,
  jsonrpc_version, with_metadata,
}
use dravr_tronc.Protocol.Modern.{protocol_version_header}
use dravr_tronc.Transport.Headers.{
  version_header, session_id_header, bearer_token, forwarded_headers, HeaderFault,
}
use dravr_tronc.Transport.Hosts.{HostRefusal, check_origin_and_host}
use dravr_tronc.Transport.Posts.{Transport, host_status}

pub data AuthError : Type 0 where
  -- The value of `WWW-Authenticate`.
  no_credential : Text → AuthError
  forbidden : AuthError
  scope_missing : Text → AuthError
  -- The seconds to wait.
  over_budget : ℕ → AuthError
  interrupted : AuthError

pub record Answer : Type 0 where
  pub status : ℕ
  pub code : Option ErrorCode
  pub www_authenticate : Option Text
  pub retry_after : Option ℕ

abbrev pub plain_answer : ℕ → Option ErrorCode → Answer
plain_answer status code = record {
  status = status;
  code = code;
  www_authenticate = none;
  retry_after = none;
}

abbrev pub floored : ℕ → ℕ
floored seconds = if leb 1 seconds then seconds else 1

unfoldable pub auth_refusal_response : AuthError → Answer
auth_refusal_response (no_credential challenge) = record (plain_answer 401 (some unauthorized)) {
  www_authenticate = some challenge;
}
auth_refusal_response forbidden = plain_answer 403 (some unauthorized)
auth_refusal_response (scope_missing challenge) = record (plain_answer 403 (some unauthorized)) {
  www_authenticate = some challenge;
}
auth_refusal_response (over_budget seconds) = record (plain_answer 429 (some rate_limited)) {
  retry_after = some (floored seconds);
}
auth_refusal_response interrupted = plain_answer 500 (some internal_error)

abbrev pub owned : ToolContext → World → Option ℕ → Option ℕ
owned ctx w none = none
owned ctx w (some r) = if is_owned_by ctx (w.heap r) then some r else none

unfoldable pub owned_session : ℕ → String → ToolContext → World → World × Option ℕ
owned_session now id ctx w = let (w', got) = find now id w in (w', owned ctx w' got)

abbrev pub version_of : Result (Option Text) HeaderFault → Option Text
version_of (err fault) = none
version_of (ok version) = version

module _ (read_text : Text → String) where
  abbrev pub values_of : List (String × Text) → List (String × Value)
  values_of [] = []
  values_of ((name, value) ∷ hs) = (name, string (read_text value)) ∷ values_of hs

  abbrev pub header_values : Option (List (String × Text)) → Option (List (String × Value))
  header_values none = none
  header_values (some hs) = some (values_of hs)

  unfoldable pub transport_message : HeaderMap → Option Value → Option Text → JsonRpcRequest
  transport_message headers id version =
      let message : JsonRpcRequest = record {
        jsonrpc = jsonrpc_version;
        method = "";
        params = none;
        id = id;
        headers = header_values (forwarded_headers headers);
        metadata = [];
      } in
      elim version [
        | none ↦ message
        | some v ↦ with_metadata protocol_version_header (read_text v) message
      ]

  module _ (parse_ip : Text → Option IpAddr)
      (authenticate : JsonRpcRequest → Option Text → Result ToolContext AuthError) where
    abbrev pub delete_owned : ℕ → Text → ToolContext → World → World × Answer
    delete_owned now id ctx w =
        let (w', got) = owned_session now (read_text id) ctx w in
        elim got [
          | none ↦ (w', plain_answer 404 (some invalid_request))
          | some r ↦ ((end (read_text id) w').0, plain_answer 204 none)
        ]

    abbrev pub deletion_message : HeaderMap → JsonRpcRequest
    deletion_message headers = transport_message headers none (version_of (version_header headers))

    abbrev pub delete_named : ℕ → HeaderMap → Text → World → World × Answer
    delete_named now headers id w =
        elim (authenticate (deletion_message headers) (bearer_token headers)) [
          | err refused ↦ (w, auth_refusal_response refused)
          | ok ctx ↦ delete_owned now id ctx w
        ]

    abbrev pub delete_admitted : ℕ → HeaderMap → World → World × Answer
    delete_admitted now headers w = elim (session_id_header headers) [
      | err fault ↦ (w, plain_answer 400 (some invalid_request))
      | ok none ↦ (w, plain_answer 400 (some invalid_request))
      | ok (some id) ↦ delete_named now headers id w
    ]

    -- `handle_mcp_delete`, of a server that keeps sessions.
    unfoldable pub handle_mcp_delete :
        ℕ → Transport → HeaderMap → Option Text → World → World × Answer
    handle_mcp_delete now t headers target w =
        elim (check_origin_and_host parse_ip t.allowed_origins t.allowed_hosts headers target) [
          | err why ↦ (w, plain_answer (host_status why) none)
          | ok _ ↦ delete_admitted now headers w
        ]
