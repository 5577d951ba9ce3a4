-- ===== src/Server/Dispatch.antt =====
-- mcp/server.rs: the dispatch of a request by its version and method.
pub mod Gates
pub mod Framing
pub mod Ids
pub mod Replies
pub mod Answered
use dravr_tronc.Common.{
  ℕ, Bool, true, false, not, ◌&&◌, ◌||◌, Option, none, some, String, List, [], ◌∷◌, ◌==◌, string_eq,
  nat_eq, if◌then◌else◌, Result, ok, err, is_some, is_none,
}
use dravr_tronc.Json.{Value, Fields, string, number, object, get, as_str}
use dravr_tronc.Pagination.{Base64}
use dravr_tronc.Cancellation.{InFlightRequests, InFlightGuard, register, cancel, drop_guard}
use dravr_tronc.Tasks.{Chrono}
use dravr_tronc.Tasks.Manager.{TaskManager, Bus}
use dravr_tronc.Tools.{ToolContext, supports_tasks, with_client_capabilities, tasks_extension_id}
use dravr_tronc.Protocol.{
  JsonRpcRequest, JsonRpcResponse, success, error, jsonrpc_version, invalid_request,
  method_not_found, invalid_params, header_mismatch, get_metadata,
}
use dravr_tronc.Protocol.Modern.{
  ModernRequestMeta, ModernMeta, legacy, modern, malformed, header_mismatched, detect,
  removed_methods, is_one_of, or_insert, frame_cacheable_result, protocol_version_header, and_get,
}
use dravr_tronc.Guard.Text.{Text}
use dravr_tronc.Transport.Mirror.{Float}
use dravr_tronc.Server.{
  World, Host, McpServer, Step, empty_object, supports_version, missing_capability_error,
  unsupported_version_error, handle_task_method,
}
use dravr_tronc.Server.Handlers.{
  handle_initialize, handle_set_level, handle_server_discover, handle_unknown_method,
  handle_tools_list, handle_tools_call,
}

-- What the engine awaits within a call of its task methods, and the readings that are not its own.
pub record Clock : Type 1 where
  pub chrono : Chrono
  pub bus : Bus
  pub now : ℕ
  pub meanwhile : TaskManager → TaskManager
  pub codec : Base64
  pub f64 : Float
  pub base64 : Text → Option Text
  pub read_initialize : Value → Option String

abbrev pub framed_fields : String → Fields → Fields
framed_fields method fs =
    frame_cacheable_result method (or_insert "resultType" (string "complete") fs)

abbrev pub framed_result : String → Option Value → Option Value
framed_result method (some (object fs)) = some (object (framed_fields method fs))
framed_result method r = r

unfoldable pub frame_modern_result : String → JsonRpcResponse → JsonRpcResponse
frame_modern_result method response = record response {
  result = framed_result method response.result;
}

abbrev pub is_task_method : String → Bool
is_task_method m = (m == "tasks/get") || (m == "tasks/update") || (m == "tasks/cancel")

module _ (c : Clock) (s : McpServer) where
  unfoldable pub process_legacy : JsonRpcRequest → ToolContext → Step
  process_legacy r ctx w =
      if r.method == "initialize"
      then handle_initialize c.read_initialize s r.id r.params ctx w
      else if (r.method == "logging/setLevel") && s.logging
      then handle_set_level s r.id r.params ctx w
      else if r.method == "tools/list"
      then handle_tools_list c.codec s r.id r.params ctx w
      else if r.method == "tools/call"
      then handle_tools_call c.f64 c.base64 s r.id r.params ctx false false r.headers w
      else if r.method == "server/discover"
      then handle_server_discover s r.id w
      else if r.method == "ping"
      then (w, success r.id empty_object)
      else handle_unknown_method s r.method r.id r.params ctx w

  unfoldable pub on_task_method : JsonRpcRequest → ToolContext → Step
  on_task_method r ctx w = elim w.task_manager [
    | none ↦ handle_unknown_method s r.method r.id r.params ctx w
    | some manager ↦
        if supports_tasks ctx
        then handle_task_method c.chrono c.bus c.now c.meanwhile s manager r.method r.id r.params
            ctx w
        else (w, missing_capability_error r.id tasks_extension_id)
  ]

  unfoldable pub modern_response : JsonRpcRequest → ToolContext → Step
  modern_response r ctx w =
      if r.method == "server/discover"
      then handle_server_discover s r.id w
      else if r.method == "tools/list"
      then handle_tools_list c.codec s r.id r.params ctx w
      else if r.method == "tools/call"
      then handle_tools_call c.f64 c.base64 s r.id r.params ctx true (supports_tasks ctx) r.headers
          w
      else if is_task_method r.method
      then on_task_method r ctx w
      else handle_unknown_method s r.method r.id r.params ctx w

  unfoldable pub process_modern : JsonRpcRequest → ModernRequestMeta → ToolContext → Step
  process_modern r meta ctx w =
      let (w', response) =
        modern_response r (with_client_capabilities meta.client_capabilities ctx) w in
      if not (supports_version meta.version s)
      then (w, unsupported_version_error r.id meta.version s)
      else if is_one_of r.method removed_methods
      then (w, error r.id method_not_found)
      else (w', frame_modern_result r.method response)

  abbrev pub route_era : JsonRpcRequest → ToolContext → ModernMeta → Step
  route_era r ctx malformed w = (w, error r.id invalid_params)
  route_era r ctx header_mismatched w = (w, error r.id header_mismatch)
  route_era r ctx (modern meta) w = process_modern r meta ctx w
  route_era r ctx legacy w = process_legacy r ctx w

  -- `route`. What it gives the client's channel, for messages during the call, is left out.
  unfoldable pub route : JsonRpcRequest → ToolContext → Step
  route r ctx w = route_era r ctx (detect (get_metadata protocol_version_header r) r.params) w

  -- `cancelled_request_id`.
  unfoldable pub cancelled_request_id : Option Value → Option Value
  cancelled_request_id params = elim (and_get "requestId" params) [
    | some (string id) ↦ some (string id)
    | some (number id) ↦ some (number id)
    | _ ↦ none
  ]

  abbrev pub with_in_flight : World → InFlightRequests → World
  with_in_flight w f = record w { in_flight = f }

  unfoldable pub handle_notification : JsonRpcRequest → ToolContext → World → World
  handle_notification r ctx w =
      let cancelled : World = elim (cancelled_request_id r.params) [
        | none ↦ w
        | some id ↦ with_in_flight w (cancel ctx.caller (s.host.print_id id) w.in_flight).0
      ] in
      if not (r.method == "notifications/cancelled") then w else cancelled

  -- How the wait for a handler goes: to its end, or it is cut at a world in which its token may have
  -- fired, or in which the transport dropped the call.
  pub data Fate : Type 0 where
    completes : Fate
    is_cut is_dropped : (World → World) → Fate

  abbrev pub fires : ℕ → InFlightRequests → InFlightRequests
  fires token f = record f { fired = λ t. if t == token then true else f.fired t }

  -- The guard is dropped when the call ends, however it does.
  abbrev pub ended : InFlightGuard → World → World
  ended g w = with_in_flight w (drop_guard g w.in_flight)

  abbrev pub complete :
      JsonRpcRequest → ToolContext → InFlightGuard → World → World × Option JsonRpcResponse
  complete r ctx g w = let (w', response) = route r ctx w in (ended g w', some response)

  abbrev pub await :
      Fate → JsonRpcRequest → ToolContext → InFlightGuard → World → World × Option JsonRpcResponse
  await completes r ctx g w = complete r ctx g w
  await (is_cut f) r ctx g w =
      if (f w).in_flight.fired g.token then (ended g (f w), none) else complete r ctx g w
  await (is_dropped f) r ctx g w =
      (ended g (with_in_flight (f w) (fires g.token (f w).in_flight)), none)

  -- A token that has fired already is seen before the handler starts.
  abbrev pub register_and_await :
      Fate → JsonRpcRequest → Value → ToolContext → World → World × Option JsonRpcResponse
  register_and_await fate r id ctx w =
      let (f, g) = register ctx.caller (s.host.print_id id) ctx.parent w.in_flight in
      let started = with_in_flight w f in
      if f.fired g.token
      then (ended g started, none)
      else await fate r (record ctx { parent = false }) g started

  unfoldable pub dispatch :
      Fate → JsonRpcRequest → ToolContext → World → World × Option JsonRpcResponse
  dispatch fate r ctx w =
      let answered : World × Option JsonRpcResponse = elim r.id [
        | none ↦ (handle_notification r ctx w, none)
        | some id ↦
            let (w', response) = route r ctx w in
            if r.method == "initialize"
            then (w', some response)
            else register_and_await fate r id ctx w
      ] in
      if not (r.jsonrpc == jsonrpc_version)
      then (w, some (error r.id invalid_request))
      else answered
