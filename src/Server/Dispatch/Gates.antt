-- ===== src/Server/Dispatch/Gates.antt =====
-- mcp/server.rs and mcp/modern.rs: which requests reach the handlers of which era.
use dravr_tronc.Common.{
  ◌≡◌, ◌⊎◌, ◌↔◌, inl, inr, refl, sym, true, false, Option, none, some, String, ◌==◌, string_eq,
  nat_eq, list_eq, Bool-cases, Option-cases, arith,
}
use dravr_tronc.Guard.Text.{text_eq_iff}
use dravr_tronc.Auth.{trim}
use dravr_tronc.Json.{Value}
use dravr_tronc.Tools.{ToolContext, with_client_capabilities}
use dravr_tronc.Protocol.{
  JsonRpcRequest, JsonRpcResponse, error, error_with, is_error, get_metadata,
}
use dravr_tronc.Protocol.Text.{text_of}
use dravr_tronc.Protocol.Modern.{
  ModernRequestMeta, ModernMeta, legacy, modern, malformed, header_mismatched, detect, held_to,
  from_params, is_modern_revision, removed_methods, is_one_of, protocol_version_header, and_get,
  and_str, version_key, capabilities_key, log_level_key,
}
use dravr_tronc.Server.{World, McpServer, supports_version, unsupported_version_error}
use dravr_tronc.Server.Dispatch.{
  Clock, route, route_era, process_legacy, process_modern, modern_response, frame_modern_result,
}

-- The entry of `_meta` under a key.
abbrev pub stated : String → Option Value → Option Value
stated key params = and_get key (and_get "_meta" params)

-- The header, where there is one, names no modern revision.
unfoldable pub IsEarly : Option String → Type 0
IsEarly none = Unit
IsEarly (some header) = is_modern_revision (trim (text_of header)) ≡ false

-- The header, where there is one, names this version.
unfoldable pub Agrees : Option String → String → Type 0
Agrees none version = Unit
Agrees (some header) version = text_of version ≡ trim (text_of header)

-- Neither the body nor the header states a version of the modern revisions.
unfoldable pub IsLegacy : Option String → Option Value → Type 0
IsLegacy header params = (and_str (stated version_key params) ≡ none) × IsEarly header

-- The body states a version, in no other words than the header, and the capabilities of the client.
unfoldable pub IsModern : Option String → Option Value → ModernRequestMeta → Type 0
IsModern header params meta =
    (and_str (stated version_key params) ≡ some meta.version)
    × (stated capabilities_key params ≡ some meta.client_capabilities)
    × (and_str (stated log_level_key params) ≡ meta.log_level)
    × Agrees header meta.version

from_params-legacy :
    (params : Option Value)
    → (from_params params ≡ legacy) ↔ (and_str (stated version_key params) ≡ none)
unfolding from_params
from_params-legacy params = elim (Option-cases (and_str (stated version_key params))) [
  | inl mute ↦ (λ e. mute, λ v. ground (arith, mute))
  | inr (version, spoken) ↦ elim (Option-cases (stated capabilities_key params)) [
    | inl bare ↦
        (λ e. absurd (ground (arith, e, spoken, bare)), λ v. absurd (ground (arith, v, spoken)))
    | inr (caps, declared) ↦
        (λ e. absurd (ground (arith, e, spoken, declared)), λ v. absurd (ground (arith, v, spoken)))
  ]
]

abbrev States : Option Value → ModernRequestMeta → Type 0
States params meta =
    (and_str (stated version_key params) ≡ some meta.version)
    × (stated capabilities_key params ≡ some meta.client_capabilities)
    × (and_str (stated log_level_key params) ≡ meta.log_level)

from_params-modern :
    (params : Option Value) (meta : ModernRequestMeta)
    → (from_params params ≡ modern meta) ↔ States params meta
unfolding from_params
from_params-modern params meta = elim (Option-cases (and_str (stated version_key params))) [
  | inl mute ↦
      (λ e. absurd (ground (arith, e, mute)), λ (v, d, l). absurd (ground (arith, v, mute)))
  | inr (version, spoken) ↦ elim (Option-cases (stated capabilities_key params)) [
    | inl bare ↦ (
      λ e. absurd (ground (arith, e, spoken, bare)),
      λ (v, d, l). absurd (ground (arith, d, bare)),
    )
    | inr (caps, declared) ↦ (
      λ e.
          let same = rw (spoken, from_params, declared) at e in
          (ground (arith, same, spoken), ground (arith, same, declared), ground (arith, same)),
      λ (v, d, l). rw (spoken, from_params, declared) (ground (arith, spoken, declared, v, d, l)),
    )
  ]
]

held_to-legacy :
    (header : String) (body : ModernMeta)
    → (held_to (trim (text_of header)) body ≡ legacy) ↔ ((body ≡ legacy) × IsEarly (some header))
unfolding IsEarly
held_to-legacy header legacy = elim (Bool-cases (is_modern_revision (trim (text_of header)))) [
  | inl late ↦ (λ e. absurd (ground (arith, e, late)), λ (b, v). absurd (ground (arith, v, late)))
  | inr early ↦ (λ e. (refl, early), λ (b, v). ground (arith, early))
]
held_to-legacy header (modern meta) =
    elim (Bool-cases (text_of meta.version == trim (text_of header))) [
      | inl same ↦ (λ e. absurd (ground (arith, e, same)), λ (b, v). absurd (ground (arith, b)))
      | inr apart ↦ (λ e. absurd (ground (arith, e, apart)), λ (b, v). absurd (ground (arith, b)))
    ]
held_to-legacy header malformed =
    (λ e. absurd (ground (arith, e)), λ (b, v). absurd (ground (arith, b)))
held_to-legacy header header_mismatched =
    (λ e. absurd (ground (arith, e)), λ (b, v). absurd (ground (arith, b)))

held_to-modern :
    (header : String) (body : ModernMeta) (meta : ModernRequestMeta)
    → (held_to (trim (text_of header)) body ≡ modern meta)
      ↔ ((body ≡ modern meta) × Agrees (some header) meta.version)
unfolding Agrees
held_to-modern header legacy meta = elim (Bool-cases (is_modern_revision (trim (text_of header)))) [
  | inl late ↦ (λ e. absurd (ground (arith, e, late)), λ (b, v). absurd (ground (arith, b)))
  | inr early ↦ (λ e. absurd (ground (arith, e, early)), λ (b, v). absurd (ground (arith, b)))
]
held_to-modern header (modern m) meta =
    let iff = text_eq_iff (text_of m.version) (trim (text_of header)) in
    elim (Bool-cases (text_of m.version == trim (text_of header))) [
      | inr apart ↦ (
        λ e. absurd (ground (arith, e, apart)),
        λ (b, v).
            let same : m ≡ meta = ground (arith, b) in
            absurd (ground (arith, apart, iff.1 (rw same v))),
      )
      | inl agreed ↦ (
        λ e.
            let same : m ≡ meta = ground (arith, e, agreed) in
            (ground (arith, same), rw (sym same) (iff.0 agreed)),
        λ (b, v). ground (arith, agreed, b),
      )
    ]
held_to-modern header malformed meta =
    (λ e. absurd (ground (arith, e)), λ (b, v). absurd (ground (arith, b)))
held_to-modern header header_mismatched meta =
    (λ e. absurd (ground (arith, e)), λ (b, v). absurd (ground (arith, b)))

detect-IsLegacy :
    (header : Option String) (params : Option Value)
    → (detect header params ≡ legacy) ↔ IsLegacy header params
unfolding detect IsLegacy IsEarly
detect-IsLegacy none params =
    let body = from_params-legacy params in (λ e. (body.0 e, tt), λ (v, u). body.1 v)
detect-IsLegacy (some header) params =
    let body = from_params-legacy params in
    let held = held_to-legacy header (from_params params) in
    (λ e. let (b, early) = held.0 e in (body.0 b, early), λ (v, early). held.1 (body.1 v, early))

detect-IsModern :
    (header : Option String) (params : Option Value) (meta : ModernRequestMeta)
    → (detect header params ≡ modern meta) ↔ IsModern header params meta
unfolding detect IsModern Agrees
detect-IsModern none params meta =
    let body = from_params-modern params meta in
    (λ e. let (v, d, l) = body.0 e in (v, d, l, tt), λ (v, d, l, u). body.1 (v, d, l))
detect-IsModern (some header) params meta =
    let body = from_params-modern params meta in
    let held = held_to-modern header (from_params params) meta in
    (
      λ e. let (b, same) = held.0 e in let (v, d, l) = body.0 b in (v, d, l, same),
      λ (v, d, l, same). held.1 (body.1 (v, d, l), same),
    )

-- The server supports the version, and the method is none that the modern revisions removed.
unfoldable pub Accepts : McpServer → JsonRpcRequest → ModernRequestMeta → Type 0
Accepts s r meta =
    (supports_version meta.version s ≡ true) × (is_one_of r.method removed_methods ≡ false)

-- A modern request that the server can serve.
unfoldable pub IsServable : McpServer → JsonRpcRequest → Option String → Type 0
IsServable s r header =
    (meta : ModernRequestMeta) × IsModern header r.params meta × Accepts s r meta

-- The world is as it was, and the answer is an error under the request's id.
unfoldable pub IsRefusal : JsonRpcRequest → World → World × JsonRpcResponse → Type 0
IsRefusal r w out = (out.0 ≡ w) × (is_error out.1 ≡ true) × (out.1.id ≡ r.id)

module _ (c : Clock) (s : McpServer) (r : JsonRpcRequest) (ctx : ToolContext) (w : World) where
  abbrev pub modern_handled : ModernRequestMeta → World × JsonRpcResponse
  modern_handled meta =
      modern_response c s r (with_client_capabilities meta.client_capabilities ctx) w

  -- A request of the old era is handled as one. A modern one that the server can serve is handled
  -- as one, with the capabilities that it states, and its result is framed. Any other is refused.
  unfoldable pub Gated : Option String → World × JsonRpcResponse → Type 0
  Gated header out =
      (IsLegacy header r.params × (out ≡ process_legacy c s r ctx w))
      ⊎ ((meta : ModernRequestMeta) × IsModern header r.params meta
          × Accepts s r meta
          × (out ≡ ((modern_handled meta).0, frame_modern_result r.method (modern_handled meta).1)))
      ⊎ ((¬ IsLegacy header r.params) × (¬ IsServable s r header) × IsRefusal r w out)

  modern-Gated :
      (header : Option String) (meta : ModernRequestMeta)
      → detect header r.params ≡ modern meta
      → Gated header (process_modern c s r meta ctx w)
  unfolding Gated process_modern unsupported_version_error error error_with is_error IsRefusal
      IsServable Accepts
  modern-Gated header meta e =
      let is_modern = (detect-IsModern header r.params meta).0 e in
      let not_legacy : ¬ IsLegacy header r.params =
        λ old. absurd (ground (arith, e, (detect-IsLegacy header r.params).1 old)) in
      let same : (m : ModernRequestMeta) → IsModern header r.params m → m ≡ meta =
        λ m there. ground (arith, e, (detect-IsModern header r.params m).1 there) in
      let out = process_modern c s r meta ctx w in
      elim (Bool-cases (supports_version meta.version s)) [
        | inr unsupported ↦
            let refused : IsRefusal r w out = rw (unsupported, process_modern) (refl, refl, refl) in
            let barred : ¬ IsServable s r header = λ (m, there, (supported, kept)).
              absurd (ground (arith, rw (same m there) at supported, unsupported)) in
            inr (inr (not_legacy, barred, refused))
        | inl supported ↦ elim (Bool-cases (is_one_of r.method removed_methods)) [
          | inl removed ↦
              let refused : IsRefusal r w out =
                rw (supported, removed, process_modern) (refl, refl, refl) in
              let barred : ¬ IsServable s r header =
                λ (m, there, (supports, kept)). absurd (ground (arith, kept, removed)) in
              inr (inr (not_legacy, barred, refused))
          | inr kept ↦
              let handled : out ≡ (
                (modern_handled meta).0,
                frame_modern_result r.method (modern_handled meta).1,
              ) =
                rw (supported, kept, process_modern) refl in
              inr (inl (meta, is_modern, (supported, kept), handled))
        ]
      ]

  unread-Gated :
      (header : Option String) (era : ModernMeta) (out : World × JsonRpcResponse)
      → detect header r.params ≡ era
      → ¬ (era ≡ legacy)
      → ¬ ((meta : ModernRequestMeta) × (era ≡ modern meta))
      → IsRefusal r w out
      → Gated header out
  unfolding Gated IsServable
  unread-Gated header era out e not_legacy not_modern refused = inr (
      inr (
        λ old. not_legacy (ground (arith, e, (detect-IsLegacy header r.params).1 old)),
        λ (m, there, fits).
            not_modern (m, ground (arith, e, (detect-IsModern header r.params m).1 there)),
        refused,
      ))

  era-Gated :
      (header : Option String) (era : ModernMeta)
      → detect header r.params ≡ era
      → Gated header (route_era c s r ctx era w)
  unfolding Gated error error_with is_error IsRefusal
  era-Gated header legacy e = inl ((detect-IsLegacy header r.params).0 e, refl)
  era-Gated header (modern meta) e = modern-Gated header meta e
  era-Gated header malformed e =
      unread-Gated header malformed (route_era c s r ctx malformed w) e
        (λ x. absurd (ground (arith, x))) (λ (m, x). absurd (ground (arith, x))) (refl, refl, refl)
  era-Gated header header_mismatched e =
      unread-Gated header header_mismatched (route_era c s r ctx header_mismatched w) e
        (λ x. absurd (ground (arith, x))) (λ (m, x). absurd (ground (arith, x))) (refl, refl, refl)

  -- A request whose body and header state no modern version is handled as one of the old era. One
  -- whose body states a version that the server supports, and the capabilities of its client, whose
  -- header names no other version and whose method was not removed is handled as a modern one, with
  -- those capabilities, and its result is framed. Any other changes nothing and is answered with an
  -- error under its id.
  pub route-Gated : Gated (get_metadata protocol_version_header r) (route c s r ctx w)
  unfolding route
  route-Gated =
      let header = get_metadata protocol_version_header r in
      era-Gated header (detect header r.params) refl
