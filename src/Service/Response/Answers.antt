-- ===== src/Service/Response/Answers.antt =====
-- service_client/response.rs with server/shed.rs, server/request_guard.rs and error.rs: a client
-- reads what a service's guards answer as what they mean.
use dravr_tronc.Common.{
  ℕ, ◌<◌, ◌≡◌, inl, inr, refl, false, Option, none, some, String, [], ◌==◌, nat_eq, string_eq,
  option_eq, leb, leb→le, err, arith, Option-cases,
}
use dravr_tronc.Common.Assoc.{insert as put}
use dravr_tronc.Common.Bytes.{Bytes}
use dravr_tronc.Guard.Text.{Text}
use dravr_tronc.Json.{Value}
use dravr_tronc.Http.{
  HeaderMap, visible, is_success, ErrorResponse, new, to_value, from_value, read_detail,
}
use dravr_tronc.Requests.{
  Response, shed_response, failure_response, guard_requests, enforce_deadline, from_headers,
  handler_panic, request_timeout, request_id_header, with_request_id,
}
use dravr_tronc.Service.{Exchange, shed, unfinished, Unfinished, service_deadline, handler_panicked}
use dravr_tronc.Service.Response.{unfinished_kind, named_wait, classify}

-- An error is read back from its JSON.
from_value-to_value : (e : ErrorResponse) → from_value (to_value e) ≡ some e
unfolding from_value to_value read_detail
from_value-to_value e = refl

module _ (parse_json : Bytes → Option Value) (print_u64 : ℕ → String) (read_u64 : String → Option ℕ)
    (print_header : ℕ → Text) where
  -- A shed is read with the wait and the reason that the service named, when its body parses as it
  -- was printed and so does the number of seconds.
  pub classify-shed_response :
      (e : Exchange) (marker reason : String) (wait : ℕ) (bytes : Bytes)
      → let r = shed_response print_u64 print_header marker reason wait in
        read_u64 (print_u64 wait) ≡ some wait
        → parse_json bytes ≡ some r.body
        → classify parse_json read_u64 e r.status r.headers bytes
          ≡ err (shed e 503 wait (some reason))
  unfolding classify shed_response named_wait
  classify-shed_response e marker reason wait bytes back parsed = ground (arith, parsed, back)

module _ (parse_json : Bytes → Option Value) (read_u64 : String → Option ℕ) where
  error-classify :
      (e : Exchange) (headers : HeaderMap) (bytes : Bytes) (error_type message : String)
      (status : ℕ) (kind : Unfinished)
      → parse_json bytes ≡ some (to_value (new error_type message))
      → is_success status ≡ false
      → (status == 503) ≡ false
      → unfinished_kind status (some (new error_type message)) ≡ some kind
      → classify parse_json read_u64 e status headers bytes
        ≡ err (unfinished e status kind (some message))
  unfolding classify named_wait new from_value to_value read_detail
  error-classify e headers bytes error_type message status kind parsed bad unshed known =
      ground (arith, parsed, bad, unshed, known)

  -- The answer of the guard for a handler that panicked is read as that, with its message, when its
  -- body parses as it was printed.
  classify-guard_requests :
      (e : Exchange) (next : Text → Option Response) (message : Text → String) (minted : Text)
      (headers : HeaderMap) (bytes : Bytes)
      → let r = guard_requests next message minted headers in
        let id = from_headers minted headers in
        next id ≡ none
        → parse_json bytes ≡ some r.body
        → classify parse_json read_u64 e r.status r.headers bytes
          ≡ err (unfinished e 500 handler_panicked (some (message id)))
  unfolding guard_requests unfinished_kind new failure_response
  classify-guard_requests e next message minted headers bytes panics parsed =
      let id = from_headers minted headers in
      let failure = failure_response 500 handler_panic (message id) in
      let whole : guard_requests next message minted headers ≡ with_request_id id failure =
        rw (panics, guard_requests) refl in
      elim (Option-cases (visible id)) [
        | inl hidden ↦
            let body : parse_json bytes ≡ some (to_value (new handler_panic (message id))) =
              ground (arith, parsed, panics, hidden) in
            rw (whole, hidden, with_request_id)
              (error-classify e [] bytes handler_panic (message id) 500 handler_panicked body refl
                refl refl)
        | inr (value, shown) ↦
            let body : parse_json bytes ≡ some (to_value (new handler_panic (message id))) =
              ground (arith, parsed, panics, shown) in
            rw (whole, shown, with_request_id)
              (error-classify e (put request_id_header value []) bytes handler_panic (message id)
                500 handler_panicked body refl refl refl)
      ]

  -- The answer for a handler that outlives the deadline is read as the service's own deadline, with
  -- its message, when its body parses as it was printed.
  pub classify-enforce_deadline :
      (e : Exchange) (deadline took : ℕ) (late : String) (answer : Response) (bytes : Bytes)
      → let r = enforce_deadline deadline took late answer in
        deadline < took
        → parse_json bytes ≡ some r.body
        → classify parse_json read_u64 e r.status r.headers bytes
          ≡ err (unfinished e 504 service_deadline (some late))
  unfolding enforce_deadline unfinished_kind new failure_response
  classify-enforce_deadline e deadline took late answer bytes slow parsed =
      let passed : leb took deadline ≡ false = ground (arith, slow, leb→le took deadline) in
      let body : parse_json bytes ≡ some (to_value (new request_timeout late)) =
        ground (arith, parsed, passed) in
      rw (passed, enforce_deadline)
        (error-classify e [] bytes request_timeout late 504 service_deadline body refl refl refl)
