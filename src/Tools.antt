-- ===== src/Tools.antt =====
-- mcp/tool.rs: the context of a call, and the registry of tools with its checks of the caller. The
-- build is the one without the feature `schema-validation`; a tool is its name and what the registry
-- reads of it.
pub mod Access
use dravr_tronc.Common.{
  ℕ, Bool, true, false, not, ◌&&◌, ◌||◌, Option, none, some, String, List, [], ◌∷◌, ◌==◌, string_eq,
  if◌then◌else◌, is_some, is_none,
}
use dravr_tronc.Common.Lists.{any, retain}
use dravr_tronc.Common.Assoc.{lookup, insert as put}
use dravr_tronc.Caller.{CallerKey}
use dravr_tronc.Json.{Value, Fields, get}
use dravr_tronc.Protocol.Modern.{and_get}

-- The flags that the registry reads.
pub record ToolCapabilities : Type 0 where
  pub requires_auth : Bool
  pub requires_tenant : Bool
  pub admin_only : Bool

-- The caller's identity, its key, the session that it holds, and what the call declares. `parent`
-- tells whether the transport's cancellation token has fired.
pub record ToolContext : Type 0 where
  pub user_id : Option String
  pub tenant_id : Option String
  pub scopes : List String
  pub is_admin : Bool
  pub caller : CallerKey
  pub session : Option ℕ
  pub parent : Bool
  pub client_capabilities : Option Value
  pub input_responses : Option Fields
  pub request_state : Option String

abbrev pub tasks_extension_id : String
tasks_extension_id = "io.modelcontextprotocol/tasks"

unfoldable pub with_client_capabilities : Value → ToolContext → ToolContext
with_client_capabilities capabilities ctx = record ctx { client_capabilities = some capabilities }

unfoldable pub declares_extension : String → ToolContext → Bool
declares_extension id ctx = is_some (and_get id (and_get "extensions" ctx.client_capabilities))

unfoldable pub supports_tasks : ToolContext → Bool
unfolding declares_extension
supports_tasks ctx = declares_extension tasks_extension_id ctx

pub record Tool : Type 0 where
  pub name : String
  pub definition : Value
  pub input_schema : Value

-- What `refusal` names.
pub data Refused : Type 0 where
  needs_admin needs_caller needs_tenant : Refused
  needs_scope : String → Refused

-- `is_some_and(|id| !id.is_empty())`.
abbrev pub is_named : Option String → Bool
is_named none = false
is_named (some id) = not (id == "")

abbrev pub granted : List String → String → Bool
granted scopes scope = any (λ g. g == scope) scopes

unfoldable pub first_missing : List String → List String → Option String
first_missing scopes [] = none
first_missing scopes (s ∷ ss) =
    let rest = first_missing scopes ss in if granted scopes s then rest else some s

abbrev pub scope_refusal : Option String → Option Refused
scope_refusal none = none
scope_refusal (some missing) = some (needs_scope missing)

unfoldable pub refusal : ToolCapabilities → List String → ToolContext → Option Refused
refusal caps scopes ctx =
    if caps.admin_only && not ctx.is_admin
    then some needs_admin
    else if (caps.requires_auth || caps.requires_tenant) && not (is_named ctx.user_id)
    then some needs_caller
    else if caps.requires_tenant && not (is_named ctx.tenant_id)
    then some needs_tenant
    else scope_refusal (first_missing ctx.scopes scopes)

-- A tool's run takes the state of the world, `W`, and its response is an `R`.
module _ (W : Type 0) (R : Type 0) where
  pub record McpTool : Type 0 where
    pub tool : Tool
    pub capabilities : ToolCapabilities
    pub required_scopes : List String
    pub execute : ToolContext → Value → W → W × R

  abbrev pub Registry : Type 0
  Registry = List (String × McpTool)

  abbrev pub is_listed : Bool → String × McpTool → Bool
  is_listed is_admin (name, t) = is_admin || not t.capabilities.admin_only

  abbrev pub definition : String × McpTool → Tool
  definition (name, t) = t.tool

  unfoldable pub definitions : Registry → List Tool
  definitions [] = []
  definitions (t ∷ ts) = definition t ∷ definitions ts

  unfoldable pub list_definitions_for : Bool → Registry → List Tool
  unfolding definitions
  list_definitions_for is_admin tools = definitions (retain (is_listed is_admin) tools)

  unfoldable pub definition_of : String → Registry → Option Tool
  definition_of name tools = elim (lookup name tools) [ none ↦ none | some t ↦ some t.tool ]

  -- `ToolRegistry::insert`, by whether the output schema of the tool has a defect.
  unfoldable pub insert : Bool → McpTool → Registry → Registry
  insert defect t tools = if defect then tools else put t.tool.name t tools

  abbrev pub run_or_refuse : (Refused → R) → ToolContext → Value → McpTool → W → W × R
  run_or_refuse refuse ctx arguments t w = elim (refusal t.capabilities t.required_scopes ctx) [
    | some why ↦ (w, refuse why)
    | none ↦ t.execute ctx arguments w
  ]

  -- `ToolRegistry::execute`. `refuse` is the error response with a reason.
  unfoldable pub execute :
      (Refused → R) → String → ToolContext → Value → Registry → W → W × Option R
  execute refuse name ctx arguments tools w = elim (lookup name tools) [
    | none ↦ (w, none)
    | some t ↦ let (w', r) = run_or_refuse refuse ctx arguments t w in (w', some r)
  ]
