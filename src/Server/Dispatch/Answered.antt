-- ===== src/Server/Dispatch/Answered.antt =====
-- mcp/server.rs: which requests are answered, and how.
use dravr_tronc.Common.{
  ◌≡◌, refl, ◌∙◌, inl, inr, Bool, false, Option, some, String, ◌==◌, string_eq, nat_eq, same_refl,
  arith, Bool-cases,
}
use dravr_tronc.Json.{Value}
use dravr_tronc.Caller.{CallerKey}
use dravr_tronc.Cancellation.{InFlightRequests, register}
use dravr_tronc.Tools.{ToolContext}
use dravr_tronc.Protocol.{
  JsonRpcRequest, JsonRpcResponse, error, error_with, invalid_request, jsonrpc_version,
}
use dravr_tronc.Server.{World, McpServer}
use dravr_tronc.Server.Dispatch.{
  Clock, route, dispatch, completes, register_and_await, with_in_flight,
}
use dravr_tronc.Server.Dispatch.Replies.{Replies, id-Replies, route-Replies}

fired-register :
    (caller : CallerKey) (request : String) (parent : Bool) (f : InFlightRequests)
    → (register caller request parent f).0.fired (register caller request parent f).1.token ≡ parent
unfolding register
fired-register caller request parent f = ground (arith, same_refl f.next_token)

module _ (c : Clock) (s : McpServer) where
  -- There is an answer. It has the request's id, or is what the host's handler of methods gave for
  -- the request, framed or not.
  unfoldable pub IsAnswered : JsonRpcRequest → Option JsonRpcResponse → Type 0
  IsAnswered r answer =
      (response : JsonRpcResponse) × (answer ≡ some response) × Replies c s r response

  route-IsAnswered :
      (r : JsonRpcRequest) (ctx : ToolContext) (w : World)
      → IsAnswered r (some (route c s r ctx w).1)
  unfolding IsAnswered
  route-IsAnswered r ctx w = ((route c s r ctx w).1, refl, route-Replies c s r ctx w)

  register_and_await-IsAnswered :
      (r : JsonRpcRequest) (id : Value) (ctx : ToolContext) (w : World)
      → ctx.parent ≡ false
      → IsAnswered r (register_and_await c s completes r id ctx w).1
  register_and_await-IsAnswered r id ctx w live =
      let f = (register ctx.caller (s.host.print_id id) ctx.parent w.in_flight).0 in
      let g = (register ctx.caller (s.host.print_id id) ctx.parent w.in_flight).1 in
      let quiet : f.fired g.token ≡ false =
        fired-register ctx.caller (s.host.print_id id) ctx.parent w.in_flight ∙ live in
      rw (quiet, register_and_await)
        (route-IsAnswered r (record ctx { parent = false }) (with_in_flight c s w f))

  refused-IsAnswered : (r : JsonRpcRequest) → IsAnswered r (some (error r.id invalid_request))
  unfolding IsAnswered error error_with
  refused-IsAnswered r =
      (error r.id invalid_request, refl, id-Replies c s r (error r.id invalid_request) refl)

  -- Every request with an id whose handler comes to its end is answered, unless its transport had
  -- been cancelled before. The answer has the request's id, or is what the host's handler of methods
  -- gave when it was handed the request's method, id and parameters, framed or not: the engine does
  -- not check the id that the host gives.
  pub dispatch_answers :
      (r : JsonRpcRequest) (id : Value) (ctx : ToolContext) (w : World)
      → r.id ≡ some id
      → ctx.parent ≡ false
      → IsAnswered r (dispatch c s completes r ctx w).1
  unfolding dispatch
  dispatch_answers r id ctx w named live = elim (Bool-cases (r.jsonrpc == jsonrpc_version)) [
    | inr other ↦ rw (other, dispatch) (refused-IsAnswered r)
    | inl spoken ↦ elim (Bool-cases (r.method == "initialize")) [
      | inl first ↦
          let routed : (dispatch c s completes r ctx w).1 ≡ some (route c s r ctx w).1 =
            ground (arith, spoken, named, first) in
          rw routed (route-IsAnswered r ctx w)
      | inr later ↦
          let awaited : (dispatch c s completes r ctx w).1
              ≡ (register_and_await c s completes r id ctx w).1 =
            ground (arith, spoken, named, later) in
          rw awaited (register_and_await-IsAnswered r id ctx w live)
    ]
  ]
