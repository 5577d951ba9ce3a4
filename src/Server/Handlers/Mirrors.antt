-- ===== src/Server/Handlers/Mirrors.antt =====
-- mcp/server.rs and mcp/transport/mirror.rs: which calls run whose headers repeat their arguments.
use dravr_tronc.Common.{
  ◌≡◌, ◌⊎◌, inl, inr, refl, Bool, true, false, Option, none, some, String, List, [], ◌∷◌, list_eq,
  nat_eq, arith, Bool-cases, Option-cases,
}
use dravr_tronc.Common.Lists.{all, All}
use dravr_tronc.Guard.Text.{Text}
use dravr_tronc.Json.{Value}
use dravr_tronc.Tools.{ToolContext}
use dravr_tronc.Protocol.{error, header_mismatch}
use dravr_tronc.Protocol.Modern.{and_str}
use dravr_tronc.Protocol.Text.{text_of}
use dravr_tronc.Transport.Mirror.{
  MirroredArgument, mirrored_arguments, mirrorable, Float, Headers, header_value, at_path, mirrors,
  is_unsafe, is_mirrored, argument_mirrored, check_param_headers, decode_header_value,
}
use dravr_tronc.Server.{World, McpServer, ToolCall, input_schema_of}
use dravr_tronc.Server.Handlers.{call_of, run_call, handle_tools_call}

module _ (f64 : Float) (base64 : Text → Option Text) where
  -- An argument came without its header; it may, in an old call, or when it has no value that a
  -- header could carry.
  unfoldable pub IsUnnamed : Bool → Option String → Option Value → Type 0
  IsUnnamed modern raw body = (raw ≡ none) × ((modern ≡ false) ⊎ (mirrorable body ≡ none))

  -- The header says, once it is decoded, what the body does, which is no number beyond the safe ones.
  pub record Says (raw : Option String) (body : Option Value) : Type 0 where
    pub value : Value
    pub header : String
    pub shown : Text
    pub decoded : Text
    pub is_there : body ≡ some value
    pub is_sent : raw ≡ some header
    pub is_shown : mirrorable (some value) ≡ some shown
    pub is_decoded : decode_header_value base64 (text_of header) ≡ some decoded
    pub is_safe : is_unsafe f64 base64 value ≡ false
    pub is_same : mirrors f64 base64 value shown decoded ≡ true

  is_mirrored-Says :
      (modern : Bool) (raw : Option String) (body : Option Value)
      → is_mirrored f64 base64 modern raw body ≡ true
      → IsUnnamed modern raw body ⊎ Says raw body
  unfolding is_mirrored IsUnnamed
  is_mirrored-Says false none body e = inl (refl, inl refl)
  is_mirrored-Says true none body e = elim (Option-cases (mirrorable body)) [
    | inl bare ↦ inl (refl, inr bare)
    | inr (t, shown) ↦ absurd (ground (arith, e, shown))
  ]
  is_mirrored-Says modern (some raw) none e = absurd (ground (arith, e))
  is_mirrored-Says modern (some raw) (some body) e = elim (Option-cases (mirrorable (some body))) [
    | inl bare ↦ absurd (ground (arith, e, bare))
    | inr (t, shown) ↦ elim (Option-cases (decode_header_value base64 (text_of raw))) [
      | inl unread ↦ absurd (ground (arith, e, shown, unread))
      | inr (d, read) ↦ inr (record {
        value = body;
        header = raw;
        shown = t;
        decoded = d;
        is_there = refl;
        is_sent = refl;
        is_shown = shown;
        is_decoded = read;
        is_safe = ground (arith, e, shown, read);
        is_same = ground (arith, e, shown, read);
      })
    ]
  ]

  unfoldable pub Mirrored : Bool → Option Value → Headers → MirroredArgument → Type 0
  Mirrored modern arguments headers a =
      IsUnnamed modern (and_str (header_value a.header headers)) (at_path a.path arguments)
      ⊎ Says (and_str (header_value a.header headers)) (at_path a.path arguments)

  all-Mirrored :
      (modern : Bool) (arguments : Option Value) (headers : Headers) (as' : List MirroredArgument)
      → all (argument_mirrored f64 base64 arguments headers modern) as' ≡ true
      → All (Mirrored modern arguments headers) as'
  unfolding Mirrored
  all-Mirrored modern arguments headers [] e = tt
  all-Mirrored modern arguments headers (a ∷ as') e = (
    is_mirrored-Says modern (and_str (header_value a.header headers)) (at_path a.path arguments)
        (ground (arith, e)),
    all-Mirrored modern arguments headers as' (ground (arith, e)),
  )

  unfoldable pub AllMirrored : Value → ToolCall → Headers → Type 0
  AllMirrored schema call headers =
      All (Mirrored true call.arguments headers) (mirrored_arguments schema)

  checked-AllMirrored :
      (schema : Value) (call : ToolCall) (headers : Headers)
      → check_param_headers f64 base64 schema call.arguments headers true ≡ true
      → AllMirrored schema call headers
  unfolding check_param_headers AllMirrored
  checked-AllMirrored schema call headers e =
      all-Mirrored true call.arguments headers (mirrored_arguments schema) e

  -- A modern call with headers, of a tool that has a schema, runs the tool, and each argument that
  -- the schema wants in a header is said by its header or has no value that a header could carry; or
  -- it changes nothing and is answered with a mismatch of headers.
  pub handle_tools_call_mirrors :
      (s : McpServer) (id params : Option Value) (ctx : ToolContext) (allow_tasks : Bool)
      (headers : Headers) (w : World) (call : ToolCall) (schema : Value)
      → call_of params ≡ some call
      → input_schema_of s call.name ctx ≡ some schema
      → let out = handle_tools_call f64 base64 s id params ctx true allow_tasks (some headers) w in
        (AllMirrored schema call headers × (out ≡ run_call s id call ctx true allow_tasks w))
        ⊎ (out ≡ (w, error id header_mismatch))
  unfolding handle_tools_call
  handle_tools_call_mirrors s id params ctx allow_tasks headers w call schema read there =
      elim (Bool-cases (check_param_headers f64 base64 schema call.arguments headers true)) [
        | inl agreed ↦ inl (
          checked-AllMirrored schema call headers agreed,
          rw (read, handle_tools_call, there, agreed) refl,
        )
        | inr apart ↦ inr (rw (read, handle_tools_call, there, apart) refl)
      ]
