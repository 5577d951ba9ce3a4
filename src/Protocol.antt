-- ===== src/Protocol.antt =====
-- mcp/protocol.rs: the messages of JSON-RPC. An error is known by its code; its text is left out, as
-- is the token of a request, which the transport sets.
pub mod Text
pub mod Modern
pub mod Messages
use dravr_tronc.Common.{
  ℕ, Bool, true, false, not, ◌&&◌, ◌||◌, Option, none, some, String, List, [], ◌∷◌, ◌==◌, string_eq,
  if◌then◌else◌, Result, ok, err, is_some, is_none,
}
use dravr_tronc.Common.Assoc.{lookup, insert as put}
use dravr_tronc.Json.{
  Value, Items, Fields, null, number, string, array, object, cons, nil, get, get_field,
  contains_key,
}

-- The codes of error.rs that the engine answers with, and any other.
pub data ErrorCode : Type 0 where
  parse_error invalid_request method_not_found invalid_params internal_error : ErrorCode
  header_mismatch missing_required_client_capability unsupported_protocol_version : ErrorCode
  unauthorized rate_limited : ErrorCode
  other_code : String → ErrorCode

abbrev pub jsonrpc_version : String
jsonrpc_version = "2.0"

abbrev pub protocol_version : String
protocol_version = "2025-11-25"

pub record JsonRpcRequest : Type 0 where
  pub jsonrpc : String
  pub method : String
  pub params : Option Value
  pub id : Option Value
  pub headers : Option (List (String × Value))
  pub metadata : List (String × String)

pub record JsonRpcError : Type 0 where
  pub code : ErrorCode
  pub detail : Option Value

pub record JsonRpcResponse : Type 0 where
  pub jsonrpc : String
  pub result : Option Value
  pub error : Option JsonRpcError
  pub id : Option Value

pub data JsonRpcMessage : Type 0 where
  request : JsonRpcRequest → JsonRpcMessage
  response : JsonRpcResponse → JsonRpcMessage

unfoldable pub success : Option Value → Value → JsonRpcResponse
success id result = record {
  jsonrpc = jsonrpc_version;
  result = some result;
  error = none;
  id = id;
}

unfoldable pub error_with : Option Value → ErrorCode → Option Value → JsonRpcResponse
error_with id code extra = record {
  jsonrpc = jsonrpc_version;
  result = none;
  error = some (record { code = code; detail = extra });
  id = id;
}

unfoldable pub error : Option Value → ErrorCode → JsonRpcResponse
unfolding error_with
error id code = error_with id code none

abbrev pub invalid : JsonRpcResponse
invalid = error none invalid_request

-- `Option<Value>` of a field: `null` is read as none.
abbrev pub optional : Option Value → Option Value
optional (some null) = none
optional v = v

abbrev pub get_str : String → Fields → Option String
get_str k fs = elim (get_field k fs) [ some (string s) ↦ some s | _ ↦ none ]

-- `is_i64` or `is_u64` of a number, and whether it is an `i32`, are parameters.
module _ (is_integer : String → Bool) (is_i32 : String → Bool) where
  unfoldable pub is_request_id : Value → Bool
  is_request_id (string s) = true
  is_request_id (number n) = is_integer n
  is_request_id _ = false

  -- `from_value::<JsonRpcRequest>` of an object.
  unfoldable pub request_of : Fields → Option JsonRpcRequest
  request_of fs = elim (get_str "jsonrpc" fs) [
    | none ↦ none
    | some version ↦ elim (get_str "method" fs) [
      | none ↦ none
      | some method ↦ some (record {
        jsonrpc = version;
        method = method;
        params = optional (get_field "params" fs);
        id = optional (get_field "id" fs);
        headers = none;
        metadata = [];
      })
    ]
  ]

  abbrev pub error_parts : Option Value → Option Value → Option Value → Option JsonRpcError
  error_parts (some (number code)) (some (string message)) extra =
      if is_i32 code
      then some (record { code = other_code code; detail = optional extra })
      else none
  error_parts _ _ _ = none

  -- `from_value::<JsonRpcError>`: an object, or an array of the three fields.
  unfoldable pub error_of : Value → Option JsonRpcError
  error_of (object fs) =
      error_parts (get_field "code" fs) (get_field "message" fs) (get_field "data" fs)
  error_of (array (cons code (cons message (cons extra nil)))) =
      error_parts (some code) (some message) (some extra)
  error_of _ = none

  abbrev pub with_error : Fields → String → Option JsonRpcError → JsonRpcResponse
  with_error fs version e = record {
    jsonrpc = version;
    result = optional (get_field "result" fs);
    error = e;
    id = optional (get_field "id" fs);
  }

  -- `from_value::<JsonRpcResponse>` of an object.
  unfoldable pub response_of : Fields → Option JsonRpcResponse
  response_of fs = elim (get_str "jsonrpc" fs) [
    | none ↦ none
    | some version ↦ elim (optional (get_field "error" fs)) [
      | none ↦ some (with_error fs version none)
      | some v ↦ elim (error_of v) [ none ↦ none | some e ↦ some (with_error fs version (some e)) ]
    ]
  ]

  abbrev pub has : String → Fields → Bool
  has k fs = is_some (get_field k fs)

  abbrev pub answers_id : Option Value → Bool
  answers_id none = false
  answers_id (some null) = true
  answers_id (some id) = is_request_id id

  abbrev pub bad_id : Option Value → Bool
  bad_id none = false
  bad_id (some id) = not (is_request_id id)

  abbrev pub same_bool : Bool → Bool → Bool
  same_bool true b = b
  same_bool false b = not b

  abbrev pub as_message : Option JsonRpcResponse → Result JsonRpcMessage JsonRpcResponse
  as_message none = err invalid
  as_message (some r) = ok (response r)

  abbrev pub as_request : Option JsonRpcRequest → Result JsonRpcMessage JsonRpcResponse
  as_request none = err invalid
  as_request (some r) = ok (request r)

  unfoldable pub parse_response : Fields → Result JsonRpcMessage JsonRpcResponse
  parse_response fs =
      if not (answers_id (get_field "id" fs))
        || same_bool (has "result" fs) (has "error" fs)
        || not (has "jsonrpc" fs)
      then err invalid
      else as_message (response_of fs)

  abbrev pub parse_object : Fields → Result JsonRpcMessage JsonRpcResponse
  parse_object fs =
      if not (contains_key "method" fs)
      then parse_response fs
      else if bad_id (get_field "id" fs)
      then err invalid
      else as_request (request_of fs)

  -- `JsonRpcMessage::parse`, by the JSON that the text is.
  unfoldable pub parse_message : Option Value → Result JsonRpcMessage JsonRpcResponse
  parse_message none = err (error none parse_error)
  parse_message (some (object fs)) = parse_object fs
  parse_message (some _) = err invalid

  -- `JsonRpcRequest::parse`.
  unfoldable pub parse_request : Option Value → Result JsonRpcRequest JsonRpcResponse
  parse_request json = elim (parse_message json) [
    | err refusal ↦ err refusal
    | ok (request r) ↦ ok r
    | ok (response r) ↦ err invalid
  ]

unfoldable pub with_metadata : String → String → JsonRpcRequest → JsonRpcRequest
with_metadata k v r = record r { metadata = put k v r.metadata }

unfoldable pub get_metadata : String → JsonRpcRequest → Option String
get_metadata k r = lookup k r.metadata

unfoldable pub is_success : JsonRpcResponse → Bool
is_success r = is_none r.error && is_some r.result

unfoldable pub is_error : JsonRpcResponse → Bool
is_error r = is_some r.error
