-- ===== src/Server/Dispatch/Replies.antt =====
-- mcp/server.rs: what a request is answered with.
use dravr_tronc.Common.{
  ◌⊎◌, ◌∙◌, sym, ap, ◌≡◌, inl, inr, refl, true, false, Option, some, String, string_eq, arith,
  Bool-cases, Option-cases,
}
use dravr_tronc.Json.{Value}
use dravr_tronc.Protocol.Modern.{removed_methods, is_one_of}
use dravr_tronc.Tools.{ToolContext, supports_tasks, with_client_capabilities}
use dravr_tronc.Protocol.{JsonRpcRequest, JsonRpcResponse, success, error, error_with, get_metadata}
use dravr_tronc.Protocol.Modern.{
  ModernRequestMeta, ModernMeta, legacy, modern, malformed, header_mismatched, detect,
  protocol_version_header,
}
use dravr_tronc.Server.{
  World, McpServer, supports_version, unsupported_version_error, missing_capability_error,
}
use dravr_tronc.Server.Handlers.{handle_server_discover, handle_unknown_method}
use dravr_tronc.Server.Dispatch.{
  Clock, frame_modern_result, process_legacy, process_modern, modern_response, on_task_method,
  route, route_era,
}
use dravr_tronc.Server.Dispatch.Ids.{
  id-handle_initialize, id-handle_set_level, id-handle_task_method, id-handle_tools_call,
  id-handle_tools_list, id-success_or_error,
}

-- The response is what the host's handler of methods gave, in some call with this method, id and
-- parameters.
unfoldable pub IsHostAnswer :
    McpServer → String → Option Value → Option Value → JsonRpcResponse → Type 0
IsHostAnswer s method id params response =
    (ctx : ToolContext) × (w : World) × ((s.host.method_handler method id params ctx w).1
      ≡ some response)

-- It has the id of the request, or is what the host's handler gave.
unfoldable pub Answers : McpServer → String → Option Value → Option Value → JsonRpcResponse → Type 0
Answers s method id params response = (response.id ≡ id) ⊎ IsHostAnswer s method id params response

module _ (c : Clock) (s : McpServer) where
  handle_unknown_method-Answers :
      (method : String) (id params : Option Value) (ctx : ToolContext) (w : World)
      → Answers s method id params (handle_unknown_method s method id params ctx w).1
  unfolding handle_unknown_method error error_with Answers IsHostAnswer
  handle_unknown_method-Answers method id params ctx w =
      elim (Option-cases (s.host.method_handler method id params ctx w).1) [
        | inl declined ↦ inl (rw (declined, handle_unknown_method) refl)
        | inr (r, answered) ↦
            let given : (handle_unknown_method s method id params ctx w).1 ≡ r =
              rw (answered, handle_unknown_method) refl in
            inr (ctx, w, answered ∙ ap some (sym given))
      ]

  of_id :
      (r : JsonRpcRequest) (response : JsonRpcResponse)
      → response.id ≡ r.id
      → Answers s r.method r.id r.params response
  unfolding Answers
  of_id r response e = inl e

  on_task_method-Answers :
      (r : JsonRpcRequest) (ctx : ToolContext) (w : World)
      → Answers s r.method r.id r.params (on_task_method c s r ctx w).1
  unfolding on_task_method missing_capability_error error_with
  on_task_method-Answers r ctx w = elim (Option-cases w.task_manager) [
    | inl unmanaged ↦
        rw (unmanaged, on_task_method) (handle_unknown_method-Answers r.method r.id r.params ctx w)
    | inr (m, managed) ↦ elim (Bool-cases (supports_tasks ctx)) [
      | inl declared ↦
          rw (managed, on_task_method, declared)
            (of_id r _ (id-handle_task_method c s m r.method r.id r.params ctx w))
      | inr undeclared ↦ rw (managed, on_task_method, undeclared) (of_id r _ refl)
    ]
  ]

  -- A response that has the request's id or is another that answers.
  via-Answers :
      (r : JsonRpcRequest) (response other : JsonRpcResponse)
      → ((response.id ≡ r.id) ⊎ (response ≡ other))
      → Answers s r.method r.id r.params other
      → Answers s r.method r.id r.params response
  via-Answers r response other (inl same) a = of_id r response same
  via-Answers r response other (inr same) a = rw same a

  process_legacy_cases :
      (r : JsonRpcRequest) (ctx : ToolContext) (w : World)
      → ((process_legacy c s r ctx w).1.id ≡ r.id)
        ⊎ ((process_legacy c s r ctx w).1
            ≡ (handle_unknown_method s r.method r.id r.params ctx w).1)
  unfolding process_legacy handle_server_discover success
  process_legacy_cases r ctx w = ground (
    arith,
    id-handle_initialize c s r.id r.params ctx w,
    id-handle_set_level c s r.id r.params ctx w,
    id-handle_tools_list c s r.id r.params ctx w,
    id-handle_tools_call c s r.id r.params ctx false false r.headers w,
    id-success_or_error c s r.id s.host.print_discover,
  )

  process_legacy-Answers :
      (r : JsonRpcRequest) (ctx : ToolContext) (w : World)
      → Answers s r.method r.id r.params (process_legacy c s r ctx w).1
  process_legacy-Answers r ctx w =
      via-Answers r (process_legacy c s r ctx w).1
        (handle_unknown_method s r.method r.id r.params ctx w).1 (process_legacy_cases r ctx w)
        (handle_unknown_method-Answers r.method r.id r.params ctx w)

  modern_response_cases :
      (r : JsonRpcRequest) (ctx : ToolContext) (w : World)
      → ((modern_response c s r ctx w).1.id ≡ r.id)
        ⊎ ((modern_response c s r ctx w).1 ≡ (on_task_method c s r ctx w).1)
        ⊎ ((modern_response c s r ctx w).1
            ≡ (handle_unknown_method s r.method r.id r.params ctx w).1)
  unfolding modern_response handle_server_discover
  modern_response_cases r ctx w = ground (
    arith,
    id-handle_tools_list c s r.id r.params ctx w,
    id-handle_tools_call c s r.id r.params ctx true (supports_tasks ctx) r.headers w,
    id-success_or_error c s r.id s.host.print_discover,
  )

  modern_response-Answers :
      (r : JsonRpcRequest) (ctx : ToolContext) (w : World)
      → Answers s r.method r.id r.params (modern_response c s r ctx w).1
  modern_response-Answers r ctx w = elim (modern_response_cases r ctx w) [
    | inl same ↦ of_id r (modern_response c s r ctx w).1 same
    | inr (inl routed) ↦ rw routed (on_task_method-Answers r ctx w)
    | inr (inr given) ↦ rw given (handle_unknown_method-Answers r.method r.id r.params ctx w)
  ]

  -- As `Answers`, of a response that may have been framed.
  unfoldable pub Replies : JsonRpcRequest → JsonRpcResponse → Type 0
  Replies r response =
      (response.id ≡ r.id)
      ⊎ ((given : JsonRpcResponse) × IsHostAnswer s r.method r.id r.params given
          × ((response ≡ given) ⊎ (response ≡ frame_modern_result r.method given)))

  plain-Replies :
      (r : JsonRpcRequest) (response : JsonRpcResponse)
      → Answers s r.method r.id r.params response
      → Replies r response
  unfolding Answers Replies
  plain-Replies r response (inl same) = inl same
  plain-Replies r response (inr given) = inr (response, given, inl refl)

  frame_modern_result-Replies :
      (r : JsonRpcRequest) (response : JsonRpcResponse)
      → Answers s r.method r.id r.params response
      → Replies r (frame_modern_result r.method response)
  unfolding Answers Replies frame_modern_result
  frame_modern_result-Replies r response (inl same) = inl same
  frame_modern_result-Replies r response (inr given) = inr (response, given, inr refl)

  pub id-Replies :
      (r : JsonRpcRequest) (response : JsonRpcResponse) → response.id ≡ r.id → Replies r response
  unfolding Replies
  id-Replies r response e = inl e

  process_modern-Replies :
      (r : JsonRpcRequest) (meta : ModernRequestMeta) (ctx : ToolContext) (w : World)
      → Replies r (process_modern c s r meta ctx w).1
  unfolding process_modern unsupported_version_error error error_with
  process_modern-Replies r meta ctx w =
      let declared = with_client_capabilities meta.client_capabilities ctx in
      elim (Bool-cases (supports_version meta.version s)) [
        | inr unsupported ↦ rw (unsupported, process_modern) (id-Replies r _ refl)
        | inl supported ↦ elim (Bool-cases (is_one_of r.method removed_methods)) [
          | inl removed ↦ rw (supported, removed, process_modern) (id-Replies r _ refl)
          | inr kept ↦
              rw (supported, kept, process_modern)
                (frame_modern_result-Replies r (modern_response c s r declared w).1
                  (modern_response-Answers r declared w))
        ]
      ]

  route_era-Replies :
      (r : JsonRpcRequest) (ctx : ToolContext) (era : ModernMeta) (w : World)
      → Replies r (route_era c s r ctx era w).1
  unfolding error error_with
  route_era-Replies r ctx legacy w = plain-Replies r _ (process_legacy-Answers r ctx w)
  route_era-Replies r ctx (modern meta) w = process_modern-Replies r meta ctx w
  route_era-Replies r ctx malformed w = id-Replies r _ refl
  route_era-Replies r ctx header_mismatched w = id-Replies r _ refl

  pub route-Replies :
      (r : JsonRpcRequest) (ctx : ToolContext) (w : World) → Replies r (route c s r ctx w).1
  unfolding route
  route-Replies r ctx w =
      route_era-Replies r ctx (detect (get_metadata protocol_version_header r) r.params) w
