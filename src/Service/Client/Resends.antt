-- ===== src/Service/Client/Resends.antt =====
-- service_client/client.rs: how often a call sends its request.
use dravr_tronc.Common.{
  ℕ, ◌≤◌, ◌≡◌, ◌⊎◌, inl, inr, refl, sym, Bool, true, false, ◌&&◌, Option, none, some, String, List,
  [], ◌∷◌, ◌++◌, nat_eq, string_eq, option_eq, list_eq, err, arith, Bool-cases, Option-cases,
  Result-cases,
}
use dravr_tronc.Common.Lists.{length, length-append}
use dravr_tronc.Common.Bytes.{Bytes}
use dravr_tronc.Json.{Value}
use dravr_tronc.Http.{HeaderMap, visible}
use dravr_tronc.Iam.{malformed_token}
use dravr_tronc.Service.{
  Exchange, ServiceError, transport, TransportFailure, timed_out, unreachable,
  closed_before_response, other,
}
use dravr_tronc.Service.Transport.{TransportError, of}
use dravr_tronc.Service.Response.{classify, unfinished_kind, and_error}
use dravr_tronc.Service.Client.{
  Request, RequestBuilder, ServiceClient, ServiceRequest, origin, origin_beq,
}
use dravr_tronc.Service.Client.Attempts.{
  Outcome, failed, answered, Surroundings, authorization, attempt, is_unanswered, send,
  read_outcome, authorize, execute, exchange, bearer_space, identity_error, identified, authorized,
}

module _ (parse_json : Bytes → Option Value) (read_u64 : String → Option ℕ) where
  classify_answered :
      (e : Exchange) (status : ℕ) (headers : HeaderMap) (bytes : Bytes)
      → is_unanswered parse_json read_u64 (classify parse_json read_u64 e status headers bytes)
        ≡ false
  unfolding classify
  classify_answered e status headers bytes =
      elim (Option-cases (unfinished_kind status (and_error (parse_json bytes)))) [
        | inl whole ↦ ground (arith, whole)
        | inr (kind, cut) ↦ ground (arith, cut)
      ]

  -- The request went out, and its connection was closed before a response.
  unfoldable pub Closed : Surroundings → List Request → Type 0
  Closed around outs =
      (out : Request) × (error : TransportError) × (outs ≡ out ∷ [])
      × (around.network out ≡ failed error)
      × (of error ≡ closed_before_response)

  unanswered_failure :
      (e : Exchange) (f : TransportFailure)
      → is_unanswered parse_json read_u64 (err (transport e f)) ≡ true
      → f ≡ closed_before_response
  unanswered_failure e timed_out u = absurd (ground (arith, u))
  unanswered_failure e unreachable u = absurd (ground (arith, u))
  unanswered_failure e closed_before_response u = refl
  unanswered_failure e other u = absurd (ground (arith, u))

  read_outcome_closed :
      (e : Exchange) (outcome : Outcome)
      → is_unanswered parse_json read_u64 (read_outcome parse_json read_u64 e outcome) ≡ true
      → (error : TransportError) × (outcome ≡ failed error) × (of error ≡ closed_before_response)
  unfolding read_outcome
  read_outcome_closed e (failed error) u = (error, refl, unanswered_failure e (of error) u)
  read_outcome_closed e (answered status headers (some bytes)) u =
      absurd (ground (arith, u, classify_answered e status headers bytes))
  read_outcome_closed e (answered status headers none) u =
      absurd (ground (arith, u, classify_answered e status headers []))

  authorization_err :
      (operation : String) (around : Surroundings) (client : ServiceClient) (why : ServiceError)
      → (authorization operation around client).1 ≡ err why
      → is_unanswered parse_json read_u64 (err why) ≡ false
  unfolding authorization
  authorization_err operation around client why e = elim (Option-cases client.tokens) [
    | inl local ↦ absurd (ground (arith, e, local))
    | inr (source, held) ↦ elim (Result-cases (around.mint source).1) [
      | inr (cause, refused) ↦
          let same : identity_error operation client cause ≡ why =
            ground (arith, e, held, refused) in
          rw (sym same) refl
      | inl (token, minted) ↦ elim (Option-cases (visible (bearer_space ++ token))) [
        | inl bad ↦
            let same : identity_error operation client malformed_token ≡ why =
              ground (arith, e, held, minted, bad) in
            rw (sym same) refl
        | inr (v, good) ↦ absurd (ground (arith, e, held, minted, good))
      ]
    ]
  ]

  attempt-Closed :
      (operation : String) (builder : RequestBuilder) (resent : Bool) (around : Surroundings)
      (client : ServiceClient)
      → let a = attempt parse_json read_u64 operation builder resent around client in
        (length a.sent ≤ 1)
        × (is_unanswered parse_json read_u64 a.answer ≡ true → Closed around a.sent)
  unfolding attempt Closed
  attempt-Closed operation builder resent around client = elim (Option-cases builder.built) [
    | inl unbuilt ↦ rw (unbuilt, attempt) (omega arith, λ u. absurd (ground (arith, u)))
    | inr (r, built) ↦ elim (Bool-cases (origin_beq (origin r.url) (origin client.base))) [
      | inr foreign ↦ rw (built, foreign, attempt) (omega arith, λ u. absurd (ground (arith, u)))
      | inl home ↦ elim (Result-cases (authorization operation around client).1) [
        | inr (why, refused) ↦
            rw (built, home, attempt, refused, authorize)
              (
                omega arith,
                λ u.
                    absurd
                      (ground (arith, u, authorization_err operation around client why refused)),
              )
        | inl (value, given) ↦ elim (Option-cases (visible around.request_id)) [
          | inl bad ↦
              rw (built, home, attempt, given, authorize, bad, execute)
                (omega arith, λ u. absurd (ground (arith, u)))
          | inr (id, good) ↦
              rw (built, home, attempt, given, authorize, good, execute)
                (
                  omega arith,
                  λ u.
                      let out = identified id (authorized value r) in
                      let after = (authorization operation around client).0 in
                      let (error, lost, closed) =
                        read_outcome_closed
                          (exchange operation around.request_id around.elapsed resent after)
                          (around.network out) u in
                      (out, error, refl, lost, closed),
                )
        ]
      ]
    ]
  ]

  -- A call sends its request at most once; or twice, where the request is marked as one that may be
  -- repeated, as `get` marks it, and the connection of the first was closed before any response.
  pub send_bounded :
      (around later : Surroundings) (r : ServiceRequest)
      → let sent = (send parse_json read_u64 around later r).sent in
        (length sent ≤ 1)
        ⊎ ((length sent ≤ 2)
            × (r.resend_after_close ≡ true)
            × Closed around
                (attempt parse_json read_u64 r.operation r.builder false around r.client).sent)
  unfolding send
  send_bounded around later r =
      let first = attempt parse_json read_u64 r.operation r.builder false around r.client in
      let (one, closed) = attempt-Closed r.operation r.builder false around r.client in
      let second = attempt parse_json read_u64 r.operation r.builder true later first.client in
      let two = (attempt-Closed r.operation r.builder true later first.client).0 in
      elim (Bool-cases r.refused) [
        | inl refused ↦ rw (refused, send) (inl (omega arith))
        | inr fine ↦
            elim (Bool-cases (
              r.resend_after_close
              && r.builder.can_clone
              && is_unanswered parse_json read_u64 first.answer)) [
                | inr once ↦ rw (fine, once, send) (inl one)
                | inl again ↦
                    rw (fine, again, send)
                      (inr (
                        omega (arith, length-append first.sent second.sent, one, two),
                        ground (arith, again),
                        closed (ground (arith, again)),
                      ))
              ]
      ]
