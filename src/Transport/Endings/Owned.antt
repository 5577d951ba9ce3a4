-- ===== src/Transport/Endings/Owned.antt =====
-- mcp/transport/http.rs: who may end a session.
use dravr_tronc.Common.{
  ℕ, ◌≡◌, ◌⊎◌, inl, inr, refl, true, false, Option, none, some, String, Result, ok, arith, ◌==◌,
  nat_eq, Bool-cases, Option-cases, Result-cases,
}
use dravr_tronc.Guard.Text.{Text}
use dravr_tronc.Guard.Deny.{IpAddr}
use dravr_tronc.Http.{HeaderMap}
use dravr_tronc.Session.{ToolContext, is_owned_by}
use dravr_tronc.Session.Store.{World, find, end}
use dravr_tronc.Protocol.{JsonRpcRequest}
use dravr_tronc.Transport.Headers.{session_id_header, bearer_token}
use dravr_tronc.Transport.Hosts.{check_origin_and_host}
use dravr_tronc.Transport.Posts.{Transport, host_status}
use dravr_tronc.Transport.Endings.{
  AuthError, no_credential, forbidden, scope_missing, over_budget, interrupted, Answer,
  plain_answer, auth_refusal_response, owned, owned_session, delete_owned, deletion_message,
  delete_named, delete_admitted, handle_mcp_delete,
}

module _ (read_text : Text → String) (parse_ip : Text → Option IpAddr)
    (authenticate : JsonRpcRequest → Option Text → Result ToolContext AuthError) where
  -- The request names a session, in its one header, that is listed and belongs to the caller that
  -- the hook resolves; it is answered with 204 and the session is ended.
  pub record EndsOwn (now : ℕ) (headers : HeaderMap) (w : World) (out : World × Answer)
      : Type 0 where
    pub id : Text
    pub caller : ToolContext
    pub r : ℕ
    pub is_named : session_id_header headers ≡ ok (some id)
    pub is_caller :
        authenticate
          (deletion_message read_text parse_ip authenticate headers)
          (bearer_token headers)
        ≡ ok caller
    pub is_listed : (find now (read_text id) w).1 ≡ some r
    pub is_owned : is_owned_by caller ((find now (read_text id) w).0.heap r) ≡ true
    pub is_ended :
        out ≡ ((end (read_text id) (find now (read_text id) w).0).0, plain_answer 204 none)

  -- Nothing is done but what a search does, and the answer is not 204.
  unfoldable pub Spares : ℕ → World → World × Answer → Type 0
  Spares now w out =
      ((out.0 ≡ w) ⊎ ((id : String) × (out.0 ≡ (find now id w).0)))
      × ((out.1.status == 204) ≡ false)

  refusal-Spares : (now : ℕ) (w : World) (e : AuthError) → Spares now w (w, auth_refusal_response e)
  unfolding Spares auth_refusal_response
  refusal-Spares now w (no_credential challenge) = (inl refl, refl)
  refusal-Spares now w forbidden = (inl refl, refl)
  refusal-Spares now w (scope_missing challenge) = (inl refl, refl)
  refusal-Spares now w (over_budget seconds) = (inl refl, refl)
  refusal-Spares now w interrupted = (inl refl, refl)

  delete_named_owned :
      (now : ℕ) (headers : HeaderMap) (id : Text) (w : World)
      → session_id_header headers ≡ ok (some id)
      → let out = delete_named read_text parse_ip authenticate now headers id w in
        EndsOwn now headers w out ⊎ Spares now w out
  unfolding owned_session Spares
  delete_named_owned now headers id w named =
      elim (Result-cases (
        authenticate (deletion_message read_text parse_ip authenticate headers)
          (bearer_token headers))) [
            | inr (why, refused) ↦ rw (refused, delete_named) (inr (refusal-Spares now w why))
            | inl (ctx, resolved) ↦ elim (Option-cases (find now (read_text id) w).1) [
              | inl missing ↦
                  rw (resolved, delete_named, delete_owned, missing, owned)
                    (inr (inr (read_text id, refl), refl))
              | inr (r, there) ↦
                  elim (Bool-cases (is_owned_by ctx ((find now (read_text id) w).0.heap r))) [
                    | inr strange ↦
                        rw (resolved, delete_named, delete_owned, there, owned, strange)
                          (inr (inr (read_text id, refl), refl))
                    | inl own ↦
                        rw (resolved, delete_named, delete_owned, there, owned, own)
                          (inl (record {
                            id = id;
                            caller = ctx;
                            r = r;
                            is_named = named;
                            is_caller = resolved;
                            is_listed = there;
                            is_owned = own;
                            is_ended = refl;
                          }))
                  ]
            ]
          ]

  -- A DELETE ends the session that it names, which belongs to its caller, and is answered with 204;
  -- or it does nothing but what a search does, and is answered otherwise.
  pub handle_mcp_delete_owned :
      (now : ℕ) (t : Transport) (headers : HeaderMap) (target : Option Text) (w : World)
      → let out = handle_mcp_delete read_text parse_ip authenticate now t headers target w in
        EndsOwn now headers w out ⊎ Spares now w out
  unfolding handle_mcp_delete Spares
  handle_mcp_delete_owned now t headers target w =
      elim (Result-cases
        (check_origin_and_host parse_ip t.allowed_origins t.allowed_hosts headers target)) [
          | inr (why, refused) ↦
              rw (refused, handle_mcp_delete) (inr (inl refl, ground (arith, host_status why)))
          | inl (u, passed) ↦ elim (Result-cases (session_id_header headers)) [
            | inr (fault, unread) ↦
                rw (passed, handle_mcp_delete, delete_admitted, unread) (inr (inl refl, refl))
            | inl (none, nameless) ↦
                rw (passed, handle_mcp_delete, delete_admitted, nameless) (inr (inl refl, refl))
            | inl (some id, named) ↦
                rw (passed, handle_mcp_delete, delete_admitted, named)
                  (delete_named_owned now headers id w named)
          ]
        ]
