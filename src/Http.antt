-- ===== src/Http.antt =====
-- What the program uses of the http crate: header maps and status codes; and error.rs, the body of
-- an error.
use dravr_tronc.Common.{
  ℕ, ◌+◌, ◌*◌, ◌-◌, ◌^◌, Bool, ◌&&◌, ◌||◌, Option, none, some, String, List, [], ◌∷◌, ◌==◌, nat_eq,
  string_eq, leb, ltb, if◌then◌else◌,
}
use dravr_tronc.Common.Lists.{all}
use dravr_tronc.Guard.Text.{Text}
use dravr_tronc.Json.{Value, array, object, string, field, end, cons, nil, get}

-- The values in order, each with its name in lower case.
abbrev pub HeaderMap : Type 0
HeaderMap = List (String × Text)

-- `is_visible_ascii`, of the http crate.
abbrev pub is_visible : ℕ → Bool
is_visible c = (leb 32 c && ltb c 127) || (c == 9)

-- `HeaderValue::from_str` and `HeaderValue::to_str`.
unfoldable pub visible : Text → Option Text
visible t = if all is_visible t then some t else none

-- `StatusCode::is_success`.
abbrev pub is_success : ℕ → Bool
is_success status = leb 200 status && ltb status 300

abbrev pub digits_value : ℕ → Text → Option ℕ
digits_value n [] = some n
digits_value n (c ∷ cs) =
    let m = n * 10 + (c - b'0') in
    let rest = digits_value m cs in
    if leb b'0' c && leb c b'9' && ltb m (2 ^ 64) then rest else none

abbrev pub unsigned : Text → Option ℕ
unsigned [] = none
unsigned (c ∷ cs) = digits_value 0 (c ∷ cs)

-- `str::parse::<u64>`: digits, after at most one plus sign.
unfoldable pub parse_u64 : Text → Option ℕ
parse_u64 [] = none
parse_u64 (c ∷ cs) = if c == b'+' then unsigned cs else unsigned (c ∷ cs)

pub record ErrorDetail : Type 0 where
  pub error_type : String
  pub message : String

pub record ErrorResponse : Type 0 where
  pub error : ErrorDetail

unfoldable pub new : String → String → ErrorResponse
new error_type message = record { error = record { error_type = error_type; message = message } }

-- `ErrorResponse` to JSON.
unfoldable pub to_value : ErrorResponse → Value
to_value e = object (
    field "error"
      (object
        (field "type" (string e.error.error_type) (field "message" (string e.error.message) end)))
      end)

abbrev pub detail_of : Option Value → Option Value → Option ErrorDetail
detail_of (some (string t)) (some (string m)) = some (record { error_type = t; message = m })
detail_of _ _ = none

-- A derived `Deserialize` reads a struct from an object, or from an array of its fields.
unfoldable pub read_detail : Value → Option ErrorDetail
read_detail (object fs) = detail_of (get "type" (object fs)) (get "message" (object fs))
read_detail (array (cons t (cons m nil))) = detail_of (some t) (some m)
read_detail _ = none

abbrev pub read_error : Option Value → Option ErrorResponse
read_error none = none
read_error (some v) = elim (read_detail v) [ none ↦ none | some d ↦ some (record { error = d }) ]

-- `serde_json::from_value::<ErrorResponse>`.
unfoldable pub from_value : Value → Option ErrorResponse
from_value (object fs) = read_error (get "error" (object fs))
from_value (array (cons d nil)) = read_error (some d)
from_value _ = none
