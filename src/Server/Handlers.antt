-- ===== src/Server/Handlers.antt =====
-- mcp/server.rs: the handlers of the methods that the engine serves itself.
pub mod Mirrors
use dravr_tronc.Common.{
  ℕ, Bool, true, false, not, ◌&&◌, ◌||◌, Option, none, some, String, List, [], ◌∷◌, ◌==◌, string_eq,
  nat_eq, if◌then◌else◌, Result, ok, err, is_some, is_none,
}
use dravr_tronc.Common.Lists.{any}
use dravr_tronc.Json.{
  Value, Items, Fields, string, object, array, field, end, cons, nil, null, get, get_field, as_str,
  as_object,
}
use dravr_tronc.Pagination.{Base64, Page, InvalidCursor, cursor_param, paginate}
use dravr_tronc.Session.{Session, record_capabilities, set_log_level}
use dravr_tronc.Tasks.{Task}
use dravr_tronc.Tools.{ToolContext, Tool}
use dravr_tronc.Protocol.{
  JsonRpcResponse, success, error, protocol_version, invalid_request, method_not_found,
  invalid_params, internal_error, header_mismatch, optional, get_str,
}
use dravr_tronc.Protocol.Modern.{and_get, and_str}
use dravr_tronc.Guard.Text.{Text}
use dravr_tronc.Transport.Mirror.{Float, Headers, check_param_headers, is_param_header}
use dravr_tronc.Server.{
  World, CallToolOutcome, immediate, unknown_tool, task, input_required, ToolCall, McpServer,
  list_tools, call_tool, input_schema_of, empty_object, Step, supports_version, success_or_error,
}

abbrev pub write_session : ℕ → Session → World → World
write_session r x w = record w { sessions = λ n. if n == r then x else w.sessions n }

-- The version that an `InitializeRequest` asks for, which serde reads with the names of the client
-- and its capabilities; `read_initialize` is that reading.
abbrev pub negotiated : McpServer → Option String → String
negotiated s none = protocol_version
negotiated s (some requested) = if supports_version requested s then requested else protocol_version

module _ (read_initialize : Value → Option String) where
  abbrev pub requested_version : Option Value → Option String
  requested_version none = none
  requested_version (some p) = read_initialize p

  unfoldable pub handle_initialize : McpServer → Option Value → Option Value → ToolContext → Step
  handle_initialize s id params ctx w =
      let answer =
        success_or_error id (s.host.print_initialize (negotiated s (requested_version params))) in
      elim ctx.session [
        | none ↦ (w, answer)
        | some r ↦ (
          write_session r (record_capabilities (and_get "capabilities" params) (w.sessions r)) w,
          answer,
        )
      ]

abbrev pub level_param : McpServer → Option Value → Option ℕ
level_param s params = elim (and_str (and_get "level" params)) [
  | none ↦ none
  | some name ↦ s.host.read_level name
]

unfoldable pub handle_set_level : McpServer → Option Value → Option Value → ToolContext → Step
handle_set_level s id params ctx w = elim (level_param s params) [
  | none ↦ (w, error id invalid_params)
  | some level ↦ elim ctx.session [
    | none ↦ (w, error id invalid_request)
    | some r ↦ (write_session r (set_log_level level (w.sessions r)) w, success id empty_object)
  ]
]

unfoldable pub handle_server_discover : McpServer → Option Value → Step
handle_server_discover s id w = (w, success_or_error id s.host.print_discover)

unfoldable pub handle_unknown_method :
    McpServer → String → Option Value → Option Value → ToolContext → Step
handle_unknown_method s method id params ctx w =
    let (w', answer) = s.host.method_handler method id params ctx w in
    elim answer [ some response ↦ (w', response) | none ↦ (w', error id method_not_found) ]

abbrev pub next_field : Option String → Fields
next_field none = end
next_field (some cursor) = field "nextCursor" (string cursor) end

abbrev pub page_of : McpServer → Option Value → Page Tool → JsonRpcResponse
page_of s id page = elim (s.host.print_tools page.items) [
  | none ↦ error id internal_error
  | some tools ↦ success id (object (field "tools" tools (next_field page.next_cursor)))
]

unfoldable pub handle_tools_list :
    Base64 → McpServer → Option Value → Option Value → ToolContext → Step
handle_tools_list codec s id params ctx w =
    let definitions = list_tools s ctx in
    elim (cursor_param params) [
      | err e ↦ (w, error id invalid_params)
      | ok cursor ↦ elim (paginate s.host.tool_key codec definitions cursor s.list_page_size) [
        | err e ↦ (w, error id invalid_params)
        | ok page ↦ (w, page_of s id page)
      ]
    ]

abbrev pub object_or_none : Option Value → Option (Option Fields)
object_or_none none = some none
object_or_none (some (object fs)) = some (some fs)
object_or_none (some _) = none

abbrev pub text_or_none : Option Value → Option (Option String)
text_or_none none = some none
text_or_none (some (string s)) = some (some s)
text_or_none (some _) = none

abbrev pub with_answers :
    String → Option Value → Option (Option Fields) → Option (Option String) → Option ToolCall
with_answers name arguments (some responses) (some state) = some (record {
  name = name;
  arguments = arguments;
  input_responses = responses;
  request_state = state;
})
with_answers _ _ _ _ = none

-- `from_value::<ToolCall>` of an object.
unfoldable pub tool_call_of : Fields → Option ToolCall
tool_call_of fs = elim (get_str "name" fs) [
  | none ↦ none
  | some name ↦
      with_answers name (optional (get_field "arguments" fs))
        (object_or_none (optional (get_field "inputResponses" fs)))
        (text_or_none (optional (get_field "requestState" fs)))
]

abbrev pub first : Items → Option Value
first nil = none
first (cons v vs) = some v

abbrev pub others : Items → Items
others nil = nil
others (cons v vs) = vs

abbrev pub is_end : Items → Bool
is_end nil = true
is_end (cons v vs) = false

-- From an array serde reads the fields in order; the last three may be missing.
unfoldable pub read_call : Value → Option ToolCall
read_call (object fs) = tool_call_of fs
read_call (array (cons (string name) rest)) =
    if is_end (others (others (others rest)))
    then with_answers name (optional (first rest)) (object_or_none (optional (first (others rest))))
        (text_or_none (optional (first (others (others rest)))))
    else none
read_call _ = none

-- The call with the arguments as they are handed on.
abbrev pub arguments_of : ToolCall → Value
arguments_of call = elim call.arguments [ none ↦ empty_object | some v ↦ v ]

abbrev pub call_context : ToolCall → ToolContext → ToolContext
call_context call ctx = record ctx {
  input_responses = call.input_responses;
  request_state = call.request_state;
}

abbrev pub carries_param_header : Headers → Bool
carries_param_header headers = any (λ (h : String × Value). is_param_header h.0) headers

-- The check of the headers in `handle_tools_call`, of what the transport forwarded.
abbrev pub headers_agree :
    Float → (Text → Option Text) → McpServer → ToolCall → ToolContext → Bool → Option Headers → Bool
headers_agree f64 base64 s call ctx is_modern none = true
headers_agree f64 base64 s call ctx is_modern (some headers) =
    let checked : Bool = elim (input_schema_of s call.name ctx) [
      | none ↦ true
      | some schema ↦ check_param_headers f64 base64 schema call.arguments headers is_modern
    ] in
    if is_modern || carries_param_header headers then checked else true

unfoldable pub outcome_response :
    McpServer → Option Value → Bool → Bool → CallToolOutcome → World → JsonRpcResponse
outcome_response s id is_modern allow_tasks (immediate result) w = success_or_error id result
outcome_response s id is_modern allow_tasks unknown_tool w = error id invalid_params
outcome_response s id is_modern allow_tasks (task t) w =
    if allow_tasks && is_some w.task_manager
    then success_or_error id (s.host.print_handle t)
    else error id internal_error
outcome_response s id is_modern allow_tasks (input_required result) w =
    if is_modern then success_or_error id result else error id internal_error

abbrev pub run_call : McpServer → Option Value → ToolCall → ToolContext → Bool → Bool → Step
run_call s id call ctx is_modern allow_tasks w =
    let (w', outcome) = call_tool s call.name (call_context call ctx) (arguments_of call) w in
    (w', outcome_response s id is_modern allow_tasks outcome w')

abbrev pub call_of : Option Value → Option ToolCall
call_of none = none
call_of (some p) = read_call p

unfoldable pub handle_tools_call :
    Float
    → (Text → Option Text)
    → McpServer
    → Option Value
    → Option Value
    → ToolContext
    → Bool
    → Bool
    → Option Headers
    → Step
handle_tools_call f64 base64 s id params ctx is_modern allow_tasks headers w =
    elim (call_of params) [
      | none ↦ (w, error id invalid_params)
      | some call ↦
          if not (headers_agree f64 base64 s call ctx is_modern headers)
          then (w, error id header_mismatch)
          else run_call s id call ctx is_modern allow_tasks w
    ]
