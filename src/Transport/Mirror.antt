-- ===== src/Transport/Mirror.antt =====
-- mcp/transport/mirror.rs: headers that repeat what a body says. A value of a header is Base64 where
-- it says so.
use dravr_tronc.Common.{
  Bool, false, not, ◌&&◌, ◌||◌, Option, none, some, String, List, [], ◌∷◌, ◌++◌, ◌==◌, nat_eq,
  list_eq, string_eq, if◌then◌else◌, is_some,
}
use dravr_tronc.Common.Lists.{all, take, drop, length}
use dravr_tronc.Guard.Text.{Text, to_ascii_lowercase, eq_ignore_ascii_case}
use dravr_tronc.Auth.{trim}
use dravr_tronc.Json.{Value, Fields, boolean, number, string, object, field, end, get}
use dravr_tronc.Protocol.Text.{text_of}
use dravr_tronc.Protocol.Modern.{and_get, and_str}

abbrev pub mirrored_name_field : String → Option String
mirrored_name_field method =
    if method == "resources/read"
    then some "uri"
    else if (method == "tools/call") || (method == "prompts/get")
    then some "name"
    else none

abbrev pub param_prefix : Text
param_prefix = text_of "mcp-param-"

unfoldable pub is_param_header : String → Bool
is_param_header name = eq_ignore_ascii_case (take (length param_prefix) (text_of name)) param_prefix

abbrev pub base64_prefix : Text
base64_prefix = b'=' ∷ b'?' ∷ b'b' ∷ b'a' ∷ b's' ∷ b'e' ∷ b'6' ∷ b'4' ∷ b'?' ∷ []

abbrev pub base64_suffix : Text
base64_suffix = b'?' ∷ b'=' ∷ []

-- `str::strip_prefix` and `str::strip_suffix` of a text.
abbrev pub without_prefix : Text → Text → Option Text
without_prefix p t = if take (length p) t == p then some (drop (length p) t) else none

unfoldable pub without_suffix : Text → Text → Option Text
without_suffix p [] = if p == [] then some [] else none
without_suffix p (c ∷ cs) =
    let rest = without_suffix p cs in
    if p == c ∷ cs then some [] else elim rest [ none ↦ none | some t ↦ some (c ∷ t) ]

abbrev pub payload : Text → Option Text
payload text = elim (without_prefix base64_prefix text) [
  | none ↦ none
  | some rest ↦ without_suffix base64_suffix rest
]

-- `base64` decodes a payload to the text that its bytes are, where they are one.
unfoldable pub decode_header_value : (Text → Option Text) → Text → Option Text
decode_header_value base64 raw = elim (payload (trim raw)) [
  | none ↦ some (trim raw)
  | some wrapped ↦ base64 wrapped
]

pub record MirroredArgument : Type 0 where
  pub header : Text
  pub path : List String

-- What the property at a path asks for itself.
abbrev pub asked : List String → Option String → List MirroredArgument
asked path none = []
asked path (some name) =
    record { header = param_prefix ++ to_ascii_lowercase (text_of name); path = path } ∷ []

unfoldable mutual
  -- `walk`, along the fields of a schema to its properties, and along these.
  pub walk : List String → Value → List MirroredArgument
  walk path (object fs) = walk_fields path fs
  walk path _ = []

  pub walk_fields : List String → Fields → List MirroredArgument
  walk_fields path end = []
  walk_fields path (field k v fs) =
      let here = walk_properties path v in
      let later = walk_fields path fs in if k == "properties" then here else later

  pub walk_properties : List String → Value → List MirroredArgument
  walk_properties path (object ps) = walk_each path ps
  walk_properties path _ = []

  pub walk_each : List String → Fields → List MirroredArgument
  walk_each path end = []
  walk_each path (field k v ps) =
      let here = path ++ k ∷ [] in
      asked here (and_str (get "x-mcp-header" v)) ++ walk here v ++ walk_each path ps

unfoldable pub mirrored_arguments : Value → List MirroredArgument
mirrored_arguments schema = walk [] schema

unfoldable pub mirrorable : Option Value → Option Text
mirrorable (some (string s)) = some (text_of s)
mirrorable (some (boolean b)) = some (text_of (if b then "true" else "false"))
mirrorable (some (number n)) = some (text_of n)
mirrorable _ = none

-- An `f64`: `as_f64` of a number, `parse`, `total_cmp`, and the tests of its size.
pub record Float : Type 1 where
  pub F : Type 0
  pub of_number : String → F
  pub parse : Text → Option F
  pub is_equal : F → F → Bool
  pub is_finite : F → Bool
  pub is_over_safe_integer : F → Bool

abbrev pub Headers : Type 0
Headers = List (String × Value)

unfoldable pub header_value : Text → Headers → Option Value
header_value name [] = none
header_value name ((n, v) ∷ hs) =
    let rest = header_value name hs in if text_of n == name then some v else rest

unfoldable pub at_path : List String → Option Value → Option Value
at_path [] v = v
at_path (k ∷ ks) v = at_path ks (and_get k v)

module _ (f64 : Float) (base64 : Text → Option Text) where
  abbrev pub is_parsed : f64.F → Option f64.F → Bool
  is_parsed n none = false
  is_parsed n (some parsed) = f64.is_equal parsed n

  unfoldable pub mirrors : Value → Text → Text → Bool
  mirrors (number n) body_text header = is_parsed (f64.of_number n) (f64.parse header)
  mirrors body body_text header = header == body_text

  abbrev pub is_unsafe : Value → Bool
  is_unsafe (number n) =
      not (f64.is_finite (f64.of_number n)) || f64.is_over_safe_integer (f64.of_number n)
  is_unsafe body = false

  abbrev pub decoded_mirrors : Value → Text → Option Text → Bool
  decoded_mirrors body body_text none = false
  decoded_mirrors body body_text (some decoded) = mirrors body body_text decoded

  -- One argument: the header that it came with, and its value in the body.
  unfoldable pub is_mirrored : Bool → Option String → Option Value → Bool
  is_mirrored modern none body = not (modern && is_some (mirrorable body))
  is_mirrored modern (some raw) none = false
  is_mirrored modern (some raw) (some body) = elim (mirrorable (some body)) [
    | none ↦ false
    | some body_text ↦
        not (is_unsafe body)
        && decoded_mirrors body body_text (decode_header_value base64 (text_of raw))
  ]

  abbrev pub argument_mirrored : Option Value → Headers → Bool → MirroredArgument → Bool
  argument_mirrored arguments headers modern a =
      is_mirrored modern (and_str (header_value a.header headers)) (at_path a.path arguments)

  -- `check_param_headers`.
  unfoldable pub check_param_headers : Value → Option Value → Headers → Bool → Bool
  check_param_headers schema arguments headers modern =
      all (argument_mirrored arguments headers modern) (mirrored_arguments schema)
