-- ===== src/Requests.antt =====
-- server/request_guard.rs and server/shed.rs: the id of a request, the guard against a handler that
-- panics or is late, and the answer of a service that is saturated. The logging, and with it the
-- record of a request in flight, is left out. A body is kept as the value that it is printed from.
use dravr_tronc.Common.{
  ℕ, zero, suc, Bool, ◌&&◌, ◌||◌, not, Option, none, some, String, [], ◌∷◌, ◌==◌, nat_eq, string_eq,
  leb, if◌then◌else◌,
}
use dravr_tronc.Common.Lists.{all, any, length}
use dravr_tronc.Common.Assoc.{lookup, insert as put}
use dravr_tronc.Guard.Text.{Text}
use dravr_tronc.Json.{Value, object, string, number, field, end}
use dravr_tronc.Http.{HeaderMap, visible, parse_u64, new, to_value}
use dravr_tronc.Auth.{trim, is_empty}

abbrev pub request_id_header : String
request_id_header = "x-request-id"

abbrev pub handler_panic : String
handler_panic = "handler_panic"

abbrev pub request_timeout : String
request_timeout = "request_timeout"

abbrev pub max_request_id_len : ℕ
max_request_id_len = 128

-- `u8::is_ascii_alphanumeric`.
abbrev pub is_alphanumeric : ℕ → Bool
is_alphanumeric c =
    (leb b'0' c && leb c b'9') || (leb b'A' c && leb c b'Z') || (leb b'a' c && leb c b'z')

abbrev pub is_id_byte : ℕ → Bool
is_id_byte c = is_alphanumeric c || any (λ p. c == p) (b'-' ∷ b'_' ∷ b'.' ∷ b':' ∷ [])

unfoldable pub is_usable_request_id : Text → Bool
is_usable_request_id id =
    not (is_empty id) && leb (length id) max_request_id_len && all is_id_byte id

-- `RequestId::from_headers`, with the id that `mint` would give.
unfoldable pub from_headers : Text → HeaderMap → Text
from_headers minted headers = elim (lookup request_id_header headers) [
  | none ↦ minted
  | some value ↦ elim (visible value) [
    | none ↦ minted
    | some id ↦ if is_usable_request_id id then id else minted
  ]
]

-- In milliseconds.
abbrev pub default_slow_request_threshold : ℕ
default_slow_request_threshold = 10000

abbrev pub threshold_of : Text → Option ℕ
threshold_of raw = elim (parse_u64 raw) [
  | none ↦ some default_slow_request_threshold
  | some zero ↦ none
  | some (suc ms) ↦ some (suc ms)
]

unfoldable pub parse_slow_request_threshold : Option Text → Option ℕ
parse_slow_request_threshold none = some default_slow_request_threshold
parse_slow_request_threshold (some raw) =
    if is_empty (trim raw) then some default_slow_request_threshold else threshold_of (trim raw)

pub record Response : Type 0 where
  pub status : ℕ
  pub headers : HeaderMap
  pub body : Value

unfoldable pub failure_response : ℕ → String → String → Response
unfolding to_value new
failure_response status error_type message = record {
  status = status;
  headers = [];
  body = to_value (new error_type message);
}

-- `response.headers_mut().insert(REQUEST_ID_HEADER, value)`.
abbrev pub with_request_id : Text → Response → Response
with_request_id id response = elim (visible id) [
  | none ↦ response
  | some value ↦ record response { headers = put request_id_header value response.headers }
]

-- `guard_requests`, by what the handler does with the request and its id: it answers, or it panics,
-- and then `message` is the text of the answer.
unfoldable pub guard_requests :
    (Text → Option Response) → (Text → String) → Text → HeaderMap → Response
guard_requests next message minted headers =
    let id = from_headers minted headers in
    let response : Response = elim (next id) [
      | some answer ↦ answer
      | none ↦ failure_response 500 handler_panic (message id)
    ] in
    with_request_id id response

-- `enforce_deadline`, by what the handler answers and after how long.
unfoldable pub enforce_deadline : ℕ → ℕ → String → Response → Response
enforce_deadline deadline took message answer =
    if leb took deadline then answer else failure_response 504 request_timeout message

abbrev pub retry_after_secs_field : String
retry_after_secs_field = "retry_after_secs"

abbrev pub shed_reason_field : String
shed_reason_field = "reason"

-- `shed_response`. The printing of a number in JSON and in a header is an argument.
unfoldable pub shed_response : (ℕ → String) → (ℕ → Text) → String → String → ℕ → Response
shed_response print_json print_header marker reason retry_after_secs = record {
  status = 503;
  headers = put "retry-after" (print_header retry_after_secs) [];
  body = object (
      field "error" (string marker) (
        field shed_reason_field (string reason)
          (field retry_after_secs_field (number (print_json retry_after_secs)) end)));
}
