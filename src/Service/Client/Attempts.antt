-- ===== src/Service/Client/Attempts.antt =====
-- service_client/client.rs: the sending of a request, once, and once more where a GET's connection
-- closed unanswered.
use dravr_tronc.Common.{
  ℕ, Bool, true, false, not, ◌&&◌, Option, none, some, String, List, [], ◌∷◌, ◌++◌, nat_eq,
  string_eq, if◌then◌else◌, Result, ok, err,
}
use dravr_tronc.Common.Assoc.{without, insert as put}
use dravr_tronc.Common.Bytes.{Bytes}
use dravr_tronc.Guard.Text.{Text}
use dravr_tronc.Json.{Value}
use dravr_tronc.Http.{HeaderMap, visible}
use dravr_tronc.Requests.{request_id_header}
use dravr_tronc.Iam.{IamError, malformed_token}
use dravr_tronc.Iam.TokenSource.{IdTokenSource}
use dravr_tronc.Service.{
  Exchange, ServiceError, identity, transport, body, other, closed_before_response,
}
use dravr_tronc.Service.Transport.{TransportError, of}
use dravr_tronc.Service.Response.{ServiceResponse, classify}
use dravr_tronc.Service.Client.{
  Request, RequestBuilder, ServiceClient, ServiceRequest, origin, origin_beq,
}

pub data Outcome : Type 0 where
  failed : TransportError → Outcome
  -- The status, the headers, and the body where it arrived whole.
  answered : ℕ → HeaderMap → Option Bytes → Outcome

-- What an attempt meets: the call of the token source, the ids that it draws, the network and the
-- time that passes.
pub record Surroundings : Type 0 where
  pub mint : IdTokenSource → IdTokenSource × Result Text IamError
  pub request_id : Text
  pub network : Request → Outcome
  pub elapsed : ℕ

-- What an attempt did: the client after it, the requests that went out and the answer.
pub record Attempt : Type 0 where
  pub client : ServiceClient
  pub sent : List Request
  pub answer : Result ServiceResponse ServiceError

abbrev pub bearer_space : Text
bearer_space = b'B' ∷ b'e' ∷ b'a' ∷ b'r' ∷ b'e' ∷ b'r' ∷ 32 ∷ []

abbrev pub exchange : String → Text → ℕ → Bool → ServiceClient → Exchange
exchange operation request_id elapsed resent client = record {
  service = client.service;
  operation = operation;
  request_id = request_id;
  elapsed = elapsed;
  resent = resent;
}

abbrev pub unsendable : String → Text → Bool → ServiceClient → ServiceError
unsendable operation id resent client = transport (exchange operation id 0 resent client) other

abbrev pub identity_error : String → ServiceClient → IamError → ServiceError
identity_error operation client source = identity client.service operation source

abbrev pub bearer_value : String → ServiceClient → Text → Result (Option Text) ServiceError
bearer_value operation client token = elim (visible (bearer_space ++ token)) [
  | none ↦ err (identity_error operation client malformed_token)
  | some value ↦ ok (some value)
]

unfoldable pub authorization :
    String → Surroundings → ServiceClient → ServiceClient × Result (Option Text) ServiceError
authorization operation around client = elim client.tokens [
  | none ↦ (client, ok none)
  | some source ↦
      let (source', minted) = around.mint source in
      (
        record client { tokens = some source' },
        elim minted [
          | err why ↦ err (identity_error operation client why)
          | ok token ↦ bearer_value operation client token
        ],
      )
]

abbrev pub authorized : Option Text → Request → Request
authorized none r = record r { headers = without "authorization" r.headers }
authorized (some value) r = record r { headers = put "authorization" value r.headers }

abbrev pub identified : Text → Request → Request
identified id r = record r { headers = put request_id_header id r.headers }

abbrev pub nothing_sent : ServiceClient → ServiceError → Attempt
nothing_sent client why = record { client = client; sent = []; answer = err why }

-- `parse_json` and `read_u64` are those of `classify`.
module _ (parse_json : Bytes → Option Value) (read_u64 : String → Option ℕ) where
  abbrev pub cut_body :
      Exchange → ℕ → Result ServiceResponse ServiceError → Result ServiceResponse ServiceError
  cut_body e status (err why) = err why
  cut_body e status (ok response) = err (body e status)

  unfoldable pub read_outcome : Exchange → Outcome → Result ServiceResponse ServiceError
  read_outcome e (failed error) = err (transport e (of error))
  read_outcome e (answered status headers (some bytes)) =
      classify parse_json read_u64 e status headers bytes
  read_outcome e (answered status headers none) =
      cut_body e status (classify parse_json read_u64 e status headers [])

  -- The rest of `attempt`, with what is to stand under `Authorization`.
  abbrev pub execute :
      String → Bool → Surroundings → Option Text → Request → ServiceClient → Attempt
  execute operation resent around value r client = elim (visible around.request_id) [
    | none ↦ nothing_sent client (unsendable operation around.request_id resent client)
    | some id ↦
        let out = identified id (authorized value r) in
        record {
          client = client;
          sent = out ∷ [];
          answer =
              read_outcome (exchange operation around.request_id around.elapsed resent client)
                (around.network out);
        }
  ]

  abbrev pub authorize : String → Bool → Surroundings → Request → ServiceClient → Attempt
  authorize operation resent around r client =
      let (client', value) = authorization operation around client in
      elim value [
        | err why ↦ nothing_sent client' why
        | ok header ↦ execute operation resent around header r client'
      ]

  unfoldable pub attempt : String → RequestBuilder → Bool → Surroundings → ServiceClient → Attempt
  attempt operation builder resent around client =
      let refusal = nothing_sent client (unsendable operation around.request_id resent client) in
      elim builder.built [
        | none ↦ refusal
        | some r ↦
            if not (origin_beq (origin r.url) (origin client.base))
            then refusal
            else authorize operation resent around r client
      ]

  abbrev pub is_unanswered : Result ServiceResponse ServiceError → Bool
  is_unanswered (err (transport e closed_before_response)) = true
  is_unanswered _ = false

  -- `send`, by what its first attempt meets and what a second would.
  unfoldable pub send : Surroundings → Surroundings → ServiceRequest → Attempt
  send around later r =
      let first = attempt r.operation r.builder false around r.client in
      let second = attempt r.operation r.builder true later first.client in
      if r.refused
      then nothing_sent r.client (unsendable r.operation around.request_id false r.client)
      else if r.resend_after_close && r.builder.can_clone && is_unanswered first.answer
      then record second { sent = first.sent ++ second.sent }
      else first
