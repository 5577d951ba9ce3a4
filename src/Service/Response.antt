-- ===== src/Service/Response.antt =====
-- service_client/response.rs: what a service's answer is read as. The reading of JSON is a
-- parameter.
pub mod Answers
use dravr_tronc.Common.{
  ℕ, Bool, true, false, ◌&&◌, ◌||◌, Option, none, some, String, List, [], ◌∷◌, ◌==◌, nat_eq,
  string_eq, option_eq, if◌then◌else◌, Result, ok, err, is_some,
}
use dravr_tronc.Common.Assoc.{lookup}
use dravr_tronc.Common.Bytes.{Bytes}
use dravr_tronc.Guard.Text.{Text, unwrap_or}
use dravr_tronc.Auth.{trim}
use dravr_tronc.Json.{Value, number, get, as_str, null}
use dravr_tronc.Http.{HeaderMap, visible, is_success, parse_u64, ErrorResponse, from_value}
use dravr_tronc.Requests.{handler_panic, request_timeout, retry_after_secs_field, shed_reason_field}
use dravr_tronc.Service.{
  Exchange, ServiceError, Unfinished, service_deadline, gateway_deadline, bad_gateway,
  handler_panicked, shed, unfinished, decode,
}

abbrev pub default_shed_retry_after_secs : ℕ
default_shed_retry_after_secs = 30

pub record ServiceResponse : Type 0 where
  pub exchange : Exchange
  pub status : ℕ
  pub headers : HeaderMap
  pub body : Bytes

unfoldable pub header_wait : HeaderMap → Option ℕ
header_wait headers = elim (lookup "retry-after" headers) [
  | none ↦ none
  | some value ↦ elim (visible value) [ none ↦ none | some text ↦ parse_u64 (trim text) ]
]

abbrev pub type_of : Option ErrorResponse → Option String
type_of none = none
type_of (some guard) = some guard.error.error_type

unfoldable pub unfinished_kind : ℕ → Option ErrorResponse → Option Unfinished
unfinished_kind status guard =
    if (status == 504) && (type_of guard == some request_timeout)
    then some service_deadline
    else if status == 504
    then some gateway_deadline
    else if status == 502
    then some bad_gateway
    else if (status == 500) && (type_of guard == some handler_panic)
    then some handler_panicked
    else none

abbrev pub and_get : String → Option Value → Option Value
and_get k none = none
and_get k (some v) = get k v

abbrev pub and_str : Option Value → Option String
and_str none = none
and_str (some v) = as_str v

abbrev pub and_error : Option Value → Option ErrorResponse
and_error none = none
and_error (some v) = from_value v

abbrev pub message_of : Option ErrorResponse → Option String
message_of none = none
message_of (some guard) = some guard.error.message

abbrev pub or_else : Option ℕ → Option ℕ → Option ℕ
or_else none b = b
or_else (some a) b = some a

-- `parse_json` is `serde_json::from_slice`, and `read_u64` the reading of a number as a `u64`.
module _ (parse_json : Bytes → Option Value) (read_u64 : String → Option ℕ) where
  -- `Value::as_u64`.
  abbrev pub as_u64 : Option Value → Option ℕ
  as_u64 (some (number n)) = read_u64 n
  as_u64 _ = none

  unfoldable pub named_wait : Option Value → Option ℕ
  named_wait json = as_u64 (and_get retry_after_secs_field json)

  abbrev pub shed_of : Exchange → ℕ → HeaderMap → Option Value → ServiceError
  shed_of exchange status headers json =
      shed exchange status
        (unwrap_or default_shed_retry_after_secs (or_else (named_wait json) (header_wait headers)))
        (and_str (and_get shed_reason_field json))

  -- The rest of `classify`, where nothing was shed.
  abbrev pub finish_or :
      Exchange → ℕ → Option ErrorResponse → ServiceResponse → Result ServiceResponse ServiceError
  finish_or exchange status guard response = elim (unfinished_kind status guard) [
    | none ↦ ok response
    | some kind ↦ err (unfinished exchange status kind (message_of guard))
  ]

  unfoldable pub classify : Exchange → ℕ → HeaderMap → Bytes → Result ServiceResponse ServiceError
  classify exchange status headers body =
      let response : ServiceResponse = record {
        exchange = exchange;
        status = status;
        headers = headers;
        body = body;
      } in
      let json = parse_json body in
      if is_success status
      then ok response
      else if (status == 503) || is_some (named_wait json)
      then err (shed_of exchange status headers json)
      else finish_or exchange status (and_error json) response

  -- `ServiceResponse::json_value`.
  unfoldable pub json_value : ServiceResponse → Value
  json_value r = unwrap_or null (parse_json r.body)

-- `ServiceResponse::json`, with the reading of the type that is asked for.
unfoldable pub json {ℓ} :
    {A : Type ℓ} → (Bytes → Option A) → ServiceResponse → Result A ServiceError
json parse r = elim (parse r.body) [ some a ↦ ok a | none ↦ err (decode r.exchange r.status) ]
