-- ===== src/Server/Dispatch/Ids.antt =====
-- mcp/server.rs: the ids of the answers that the engine's own handlers give.
use dravr_tronc.Common.{
  ◌≡◌, inl, inr, refl, Bool, Option, none, some, String, ◌==◌, string_eq, Result, ok, err,
  Bool-cases, Option-cases, Result-cases, is_some, ◌&&◌,
}
use dravr_tronc.Json.{Value}
use dravr_tronc.Pagination.{cursor_param, paginate}
use dravr_tronc.Tools.{ToolContext}
use dravr_tronc.Tasks.{TaskOwner, TaskError, DetailedTask}
use dravr_tronc.Tasks.Manager.{TaskManager}
use dravr_tronc.Tasks.Manager as Manager
use dravr_tronc.Protocol.{success, error, error_with}
use dravr_tronc.Protocol.Modern.{and_get, and_str}
use dravr_tronc.Transport.Mirror.{Headers}
use dravr_tronc.Server.{
  World, McpServer, list_tools, call_tool, CallToolOutcome, immediate, unknown_tool, task,
  input_required, success_or_error, handle_task_method, acknowledge, shown, update_task, on_task,
  and_fields, map_of, owner_of,
}
use dravr_tronc.Server.Handlers.{
  handle_initialize, handle_set_level, handle_tools_list, page_of, handle_tools_call,
  outcome_response, call_context, arguments_of, call_of, headers_agree, level_param, negotiated,
  requested_version,
}
use dravr_tronc.Server.Dispatch.{Clock}

module _ (c : Clock) (s : McpServer) where
  pub id-success_or_error : (id v : Option Value) → (success_or_error id v).id ≡ id
  unfolding success_or_error error error_with success
  id-success_or_error id none = refl
  id-success_or_error id (some v) = refl

  pub id-handle_tools_list :
      (id params : Option Value) (ctx : ToolContext) (w : World)
      → (handle_tools_list c.codec s id params ctx w).1.id ≡ id
  unfolding handle_tools_list error error_with success
  id-handle_tools_list id params ctx w = elim (Result-cases (cursor_param params)) [
    | inr (e, bad) ↦ rw (bad, handle_tools_list) refl
    | inl (cursor, good) ↦
        elim (Result-cases
          (paginate s.host.tool_key c.codec (list_tools s ctx) cursor s.list_page_size)) [
            | inr (e, bad) ↦ rw (good, bad, handle_tools_list) refl
            | inl (page, paged) ↦ elim (Option-cases (s.host.print_tools page.items)) [
              | inl unprinted ↦ rw (good, paged, handle_tools_list, unprinted, page_of) refl
              | inr (v, printed) ↦ rw (good, paged, handle_tools_list, printed, page_of) refl
            ]
          ]
  ]

  pub id-outcome_response :
      (id : Option Value) (is_modern allow_tasks : Bool) (o : CallToolOutcome) (w : World)
      → (outcome_response s id is_modern allow_tasks o w).id ≡ id
  unfolding outcome_response success_or_error error error_with success
  id-outcome_response id is_modern allow_tasks (immediate v) w = id-success_or_error id v
  id-outcome_response id is_modern allow_tasks unknown_tool w = refl
  id-outcome_response id is_modern allow_tasks (task t) w =
      elim (Bool-cases (allow_tasks && is_some w.task_manager)) [
        | inl allowed ↦
            rw (allowed, outcome_response) (id-success_or_error id (s.host.print_handle t))
        | inr barred ↦ rw (barred, outcome_response) refl
      ]
  id-outcome_response id is_modern allow_tasks (input_required v) w = elim (Bool-cases is_modern) [
    | inl late ↦ rw (late, outcome_response) (id-success_or_error id v)
    | inr early ↦ rw (early, outcome_response) refl
  ]

  pub id-handle_tools_call :
      (id params : Option Value) (ctx : ToolContext) (is_modern allow_tasks : Bool)
      (headers : Option Headers) (w : World)
      → (handle_tools_call c.f64 c.base64 s id params ctx is_modern allow_tasks headers w).1.id ≡ id
  unfolding handle_tools_call error error_with
  id-handle_tools_call id params ctx is_modern allow_tasks headers w =
      elim (Option-cases (call_of params)) [
        | inl unread ↦ rw (unread, handle_tools_call) refl
        | inr (call, read) ↦
            elim (Bool-cases (headers_agree c.f64 c.base64 s call ctx is_modern headers)) [
              | inr apart ↦ rw (read, handle_tools_call, apart) refl
              | inl agreed ↦
                  let out = call_tool s call.name (call_context call ctx) (arguments_of call) w in
                  rw (read, handle_tools_call, agreed)
                    (id-outcome_response id is_modern allow_tasks out.1 out.0)
            ]
      ]

  pub id-handle_initialize :
      (id params : Option Value) (ctx : ToolContext) (w : World)
      → (handle_initialize c.read_initialize s id params ctx w).1.id ≡ id
  unfolding handle_initialize
  id-handle_initialize id params ctx w =
      let version = negotiated s (requested_version c.read_initialize params) in
      let kept = id-success_or_error id (s.host.print_initialize version) in
      elim (Option-cases ctx.session) [
        | inl nowhere ↦ rw (nowhere, handle_initialize) kept
        | inr (r, there) ↦ rw (there, handle_initialize) kept
      ]

  pub id-handle_set_level :
      (id params : Option Value) (ctx : ToolContext) (w : World)
      → (handle_set_level s id params ctx w).1.id ≡ id
  unfolding handle_set_level error error_with success
  id-handle_set_level id params ctx w = elim (Option-cases (level_param s params)) [
    | inl unnamed ↦ rw (unnamed, handle_set_level) refl
    | inr (level, named) ↦ elim (Option-cases ctx.session) [
      | inl nowhere ↦ rw (named, handle_set_level, nowhere) refl
      | inr (r, there) ↦ rw (named, handle_set_level, there) refl
    ]
  ]

  pub id-acknowledge :
      (id : Option Value) (r : Result DetailedTask TaskError)
      → (acknowledge c.chrono c.bus c.now c.meanwhile s id r).id ≡ id
  unfolding error error_with
  id-acknowledge id (ok d) = id-success_or_error id s.host.print_ack
  id-acknowledge id (err e) = refl

  pub id-shown :
      (id : Option Value) (r : Result DetailedTask TaskError)
      → (shown c.chrono c.bus c.now c.meanwhile s id r).id ≡ id
  unfolding error error_with
  id-shown id (ok d) = id-success_or_error id (s.host.print_task d)
  id-shown id (err e) = refl

  pub id-update_task :
      (m : TaskManager) (id params : Option Value) (owner : TaskOwner) (task_id : String)
      (w : World)
      → (update_task c.chrono c.bus c.now c.meanwhile s m id params owner task_id w).1.id ≡ id
  unfolding error error_with
  id-update_task m id params owner task_id w =
      elim (Option-cases (and_fields (and_get "inputResponses" params))) [
        | inl missing ↦ rw (missing, update_task) refl
        | inr (responses, given) ↦
            let out =
              Manager.apply_input c.chrono c.bus c.now owner task_id (map_of responses) c.meanwhile
                m in
            rw (given, update_task) (id-acknowledge id out.1)
      ]

  pub id-on_task :
      (m : TaskManager) (method : String) (id params : Option Value) (ctx : ToolContext)
      (task_id : String) (w : World)
      → (on_task c.chrono c.bus c.now c.meanwhile s m method id params ctx task_id w).1.id ≡ id
  unfolding error error_with
  id-on_task m method id params ctx task_id w =
      let owner = owner_of c.chrono c.bus c.now c.meanwhile ctx in
      elim (Bool-cases (method == "tasks/get")) [
        | inl gets ↦
            rw (gets, on_task) (id-shown id (Manager.get c.chrono c.bus c.now owner task_id m))
        | inr other ↦ elim (Bool-cases (method == "tasks/update")) [
          | inl updates ↦ rw (other, on_task, updates) (id-update_task m id params owner task_id w)
          | inr neither ↦ elim (Bool-cases (method == "tasks/cancel")) [
            | inl cancels ↦
                rw (other, on_task, neither, cancels)
                  (id-acknowledge id (Manager.cancel c.chrono c.bus c.now owner task_id m).1)
            | inr none_of ↦ rw (other, on_task, neither, none_of) refl
          ]
        ]
      ]

  pub id-handle_task_method :
      (m : TaskManager) (method : String) (id params : Option Value) (ctx : ToolContext) (w : World)
      → (handle_task_method c.chrono c.bus c.now c.meanwhile s m method id params ctx w).1.id ≡ id
  unfolding handle_task_method error error_with
  id-handle_task_method m method id params ctx w =
      elim (Option-cases (and_str (and_get "taskId" params))) [
        | inl missing ↦ rw (missing, handle_task_method) refl
        | inr (task_id, named) ↦
            rw (named, handle_task_method) (id-on_task m method id params ctx task_id w)
      ]
