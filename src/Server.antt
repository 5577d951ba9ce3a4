-- ===== src/Server.antt =====
-- mcp/server.rs: the dispatch of requests by their version, and their handlers. What the host
-- supplies is a record of functions; a function that the engine awaits takes the world before and
-- gives the world after, with all that other calls did meanwhile.
pub mod Handlers
pub mod Dispatch
use dravr_tronc.Common.{
  ℕ, Bool, true, false, not, ◌&&◌, ◌||◌, Option, none, some, String, List, [], ◌∷◌, ◌==◌, string_eq,
  if◌then◌else◌, Result, ok, err, is_some, is_none,
}
use dravr_tronc.Common.Lists.{any}
use dravr_tronc.Common.Bytes.{Bytes}
use dravr_tronc.Json.{
  Value, Items, Fields, string, object, array, field, end, cons, nil, get, as_str, as_object,
}
use dravr_tronc.Pagination.{Base64, Page, InvalidCursor, cursor_param, paginate}
use dravr_tronc.Session.{Session, record_capabilities, set_log_level}
use dravr_tronc.Cancellation.{InFlightRequests, InFlightGuard, register, cancel, drop_guard}
use dravr_tronc.Tasks.{
  Chrono, Map, Task, DetailedTask, TaskOwner, TaskError, not_found, invalid_state, invalid_input,
  detached, store_failure,
}
use dravr_tronc.Tasks.Manager as Manager
use dravr_tronc.Tasks.Manager.{TaskManager, Bus}
use dravr_tronc.Tools.{
  ToolContext, Tool, Refused, Registry, execute, list_definitions_for, definition_of,
  supports_tasks, with_client_capabilities, tasks_extension_id,
}
use dravr_tronc.Protocol.{
  JsonRpcRequest, JsonRpcResponse, success, error, error_with, jsonrpc_version, protocol_version,
  ErrorCode, invalid_request, method_not_found, invalid_params, internal_error, header_mismatch,
  missing_required_client_capability, unsupported_protocol_version, get_metadata, optional, get_str,
}
use dravr_tronc.Protocol.Modern.{
  ModernRequestMeta, ModernMeta, legacy, modern, malformed, header_mismatched, detect,
  removed_methods, is_one_of, or_insert, frame_cacheable_result, protocol_version_header, and_get,
  and_str,
}

-- What the server keeps: the requests in flight, the sessions and, where there is one, the manager of
-- tasks.
pub record World : Type 0 where
  pub in_flight : InFlightRequests
  pub sessions : ℕ → Session
  pub task_manager : Option TaskManager

pub data CallToolOutcome : Type 0 where
  immediate : Option Value → CallToolOutcome
  unknown_tool : CallToolOutcome
  task : Task → CallToolOutcome
  input_required : Option Value → CallToolOutcome

pub record ToolCall : Type 0 where
  pub name : String
  pub arguments : Option Value
  pub input_responses : Option Fields
  pub request_state : Option String

-- A host's own tool surface.
pub record ToolDispatcher : Type 0 where
  pub list_tools : ToolContext → List Tool
  pub call_tool : String → ToolContext → Value → World → World × CallToolOutcome

-- The host's methods; what serde prints of a result, none where it fails, and of a tool's refusal;
-- and how the severities of a log level are numbered.
pub record Host : Type 0 where
  pub tool_key : Tool → Bytes
  pub method_handler :
      String → Option Value → Option Value → ToolContext → World → World × Option JsonRpcResponse
  pub print_refusal : Refused → Option Value
  pub print_tools : List Tool → Option Value
  pub print_task : DetailedTask → Option Value
  pub print_handle : Task → Option Value
  pub print_ack : Option Value
  pub print_discover : Option Value
  pub print_initialize : String → Option Value
  pub print_id : Value → String
  pub read_level : String → Option ℕ

pub record McpServer : Type 0 where
  pub host : Host
  pub tool_dispatcher : Option ToolDispatcher
  pub tools : Registry World (Option Value)
  pub supported_versions : List String
  pub logging : Bool
  pub list_page_size : Option ℕ

-- The dispatcher's view of the tools, where there is one, or the registry's.
unfoldable pub list_tools : McpServer → ToolContext → List Tool
list_tools s ctx = elim s.tool_dispatcher [
  | some dispatcher ↦ dispatcher.list_tools ctx
  | none ↦ list_definitions_for World (Option Value) ctx.is_admin s.tools
]

unfoldable pub find_tool : String → List Tool → Option Tool
find_tool name [] = none
find_tool name (t ∷ ts) = let rest = find_tool name ts in if t.name == name then some t else rest

abbrev pub schema_of : Option Tool → Option Value
schema_of none = none
schema_of (some t) = some t.input_schema

unfoldable pub input_schema_of : McpServer → String → ToolContext → Option Value
input_schema_of s name ctx = elim s.tool_dispatcher [
  | some dispatcher ↦ schema_of (find_tool name (dispatcher.list_tools ctx))
  | none ↦ schema_of (definition_of World (Option Value) name s.tools)
]

abbrev pub outcome_of : Option (Option Value) → CallToolOutcome
outcome_of none = unknown_tool
outcome_of (some result) = immediate result

-- The call of the tool in `handle_tools_call`.
unfoldable pub call_tool :
    McpServer → String → ToolContext → Value → World → World × CallToolOutcome
call_tool s name ctx arguments w = elim s.tool_dispatcher [
  | some dispatcher ↦ dispatcher.call_tool name ctx arguments w
  | none ↦
      let (w', r) =
        execute World (Option Value) s.host.print_refusal name ctx arguments s.tools w in
      (w', outcome_of r)
]

abbrev pub empty_object : Value
empty_object = object end

abbrev pub Step : Type 0
Step = World → World × JsonRpcResponse

abbrev pub answering : JsonRpcResponse → Step
answering r w = (w, r)

unfoldable pub supports_version : String → McpServer → Bool
supports_version version s = is_one_of version s.supported_versions

abbrev pub earlier_legacy_revisions : List String
earlier_legacy_revisions = "2025-06-18" ∷ "2025-03-26" ∷ []

unfoldable pub accepts_protocol_version : String → McpServer → Bool
unfolding supports_version
accepts_protocol_version version s =
    supports_version version s
    || (supports_version protocol_version s && is_one_of version earlier_legacy_revisions)

unfoldable pub success_or_error : Option Value → Option Value → JsonRpcResponse
unfolding success error
success_or_error id none = error id internal_error
success_or_error id (some value) = success id value

unfoldable pub missing_capability_error : Option Value → String → JsonRpcResponse
unfolding error_with
missing_capability_error id capability =
    error_with id missing_required_client_capability
      (some (object (field "requiredCapabilities" (array (cons (string capability) nil)) end)))

abbrev pub items_of : List String → Items
items_of [] = nil
items_of (v ∷ vs) = cons (string v) (items_of vs)

unfoldable pub unsupported_version_error : Option Value → String → McpServer → JsonRpcResponse
unfolding error_with
unsupported_version_error id requested s = error_with id unsupported_protocol_version (
    some (
      object (
        field "supported" (array (items_of s.supported_versions))
          (field "requested" (string requested) end))))

unfoldable pub task_error_code : TaskError → ErrorCode
task_error_code (not_found id) = invalid_params
task_error_code (invalid_state id status) = invalid_params
task_error_code (invalid_input id problem) = invalid_params
task_error_code (detached id) = internal_error
task_error_code (store_failure reason) = internal_error

abbrev pub task_error_response : Option Value → TaskError → JsonRpcResponse
task_error_response id e = error id (task_error_code e)

abbrev pub and_fields : Option Value → Option Fields
and_fields none = none
and_fields (some v) = as_object v

abbrev pub map_of : Fields → Map
map_of end = []
map_of (field k v fs) = (k, v) ∷ map_of fs

abbrev pub with_tasks : World → TaskManager → World
with_tasks w m = record w { task_manager = some m }

-- The engine's own functions on the tasks, at an instant, with what other calls do in between.
module _ (chrono : Chrono) (bus : Bus) (now : ℕ) (meanwhile : TaskManager → TaskManager) where
  abbrev pub acknowledge :
      McpServer → Option Value → Result DetailedTask TaskError → JsonRpcResponse
  acknowledge s id (ok d) = success_or_error id s.host.print_ack
  acknowledge s id (err e) = task_error_response id e

  abbrev pub shown : McpServer → Option Value → Result DetailedTask TaskError → JsonRpcResponse
  shown s id (ok d) = success_or_error id (s.host.print_task d)
  shown s id (err e) = task_error_response id e

  abbrev pub owner_of : ToolContext → TaskOwner
  owner_of ctx = record { user_id = ctx.user_id; tenant_id = ctx.tenant_id }

  abbrev pub update_task :
      McpServer → TaskManager → Option Value → Option Value → TaskOwner → String → Step
  update_task s m id params owner task_id w = elim (and_fields (and_get "inputResponses" params)) [
    | none ↦ (w, error id invalid_params)
    | some responses ↦
        let (m', r) =
          Manager.apply_input chrono bus now owner task_id (map_of responses) meanwhile m in
        (with_tasks w m', acknowledge s id r)
  ]

  abbrev pub cancel_task : McpServer → TaskManager → Option Value → TaskOwner → String → Step
  cancel_task s m id owner task_id w =
      let (m', r) = Manager.cancel chrono bus now owner task_id m in
      (with_tasks w m', acknowledge s id r)

  abbrev pub on_task :
      McpServer → TaskManager → String → Option Value → Option Value → ToolContext → String → Step
  on_task s m method id params ctx task_id w =
      let owner = owner_of ctx in
      if method == "tasks/get"
      then (w, shown s id (Manager.get chrono bus now owner task_id m))
      else if method == "tasks/update"
      then update_task s m id params owner task_id w
      else if method == "tasks/cancel"
      then cancel_task s m id owner task_id w
      else (w, error id method_not_found)

  unfoldable pub handle_task_method :
      McpServer → TaskManager → String → Option Value → Option Value → ToolContext → Step
  handle_task_method s m method id params ctx w = elim (and_str (and_get "taskId" params)) [
    | none ↦ (w, error id invalid_params)
    | some task_id ↦ on_task s m method id params ctx task_id w
  ]
