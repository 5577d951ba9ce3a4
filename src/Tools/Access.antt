-- ===== src/Tools/Access.antt =====
-- mcp/tool.rs: who runs a tool, and who is shown it.
use dravr_tronc.Common.{
  ◌≡◌, ◌⊎◌, inl, inr, refl, true, not, ◌||◌, Option, none, some, String, List, [], ◌∷◌, string_eq,
  arith, Bool-cases, Option-cases,
}
use dravr_tronc.Common.Lists.{All}
use dravr_tronc.Common.Assoc.{lookup}
use dravr_tronc.Json.{Value}
use dravr_tronc.Tools.{
  ToolCapabilities, ToolContext, Refused, is_named, granted, first_missing, refusal, McpTool,
  Registry, run_or_refuse, execute,
}

-- The caller is what the tool requires: an admin, a caller with a name, one with a tenant, and one
-- who was granted every scope.
pub record IsPermitted (caps : ToolCapabilities) (scopes : List String) (ctx : ToolContext)
    : Type 0 where
  pub admin : (not caps.admin_only || ctx.is_admin) ≡ true
  pub identified : (not (caps.requires_auth || caps.requires_tenant) || is_named ctx.user_id) ≡ true
  pub tenanted : (not caps.requires_tenant || is_named ctx.tenant_id) ≡ true
  pub scoped : All (λ s. granted ctx.scopes s ≡ true) scopes

first_missing_scoped :
    (have need : List String)
    → first_missing have need ≡ none
    → All (λ s. granted have s ≡ true) need
unfolding first_missing
first_missing_scoped have [] e = tt
first_missing_scoped have (s ∷ ss) e = elim (Bool-cases (granted have s)) [
  | inl there ↦ (there, first_missing_scoped have ss (ground (arith, e, there)))
  | inr missing ↦ absurd (ground (arith, e, missing))
]

scoped_first_missing :
    (have need : List String)
    → All (λ s. granted have s ≡ true) need
    → first_missing have need ≡ none
unfolding first_missing
scoped_first_missing have [] a = refl
scoped_first_missing have (s ∷ ss) a = ground (arith, a.0, scoped_first_missing have ss a.1)

refusal-none :
    (caps : ToolCapabilities) (scopes : List String) (ctx : ToolContext)
    → refusal caps scopes ctx ≡ none
    → IsPermitted caps scopes ctx
unfolding refusal
refusal-none caps scopes ctx e = record {
  admin = ground (arith, e);
  identified = ground (arith, e);
  tenanted = ground (arith, e);
  scoped = first_missing_scoped ctx.scopes scopes (ground (arith, e));
}

permitted-refusal :
    (caps : ToolCapabilities) (scopes : List String) (ctx : ToolContext)
    → IsPermitted caps scopes ctx
    → refusal caps scopes ctx ≡ none
unfolding refusal
permitted-refusal caps scopes ctx p =
    ground
      (arith, p.admin, p.identified, p.tenanted, scoped_first_missing ctx.scopes scopes p.scoped)

module _ (W : Type 0) (R : Type 0) (refuse : Refused → R) where
  -- A call of a registered tool runs the tool, when the caller is what it requires; or changes
  -- nothing and is answered with a refusal, when the caller is not.
  unfoldable pub RunsOrRefuses : McpTool W R → ToolContext → Value → W → W × Option R → Type 0
  RunsOrRefuses t ctx arguments w out =
      (IsPermitted t.capabilities t.required_scopes ctx
        × (out ≡ ((t.execute ctx arguments w).0, some (t.execute ctx arguments w).1)))
      ⊎ ((¬ IsPermitted t.capabilities t.required_scopes ctx)
          × ((why : Refused) × (out ≡ (w, some (refuse why)))))

  pub execute-RunsOrRefuses :
      (name : String) (ctx : ToolContext) (arguments : Value) (tools : Registry W R) (w : W)
      (t : McpTool W R)
      → lookup name tools ≡ some t
      → RunsOrRefuses t ctx arguments w (execute W R refuse name ctx arguments tools w)
  unfolding execute RunsOrRefuses
  execute-RunsOrRefuses name ctx arguments tools w t there =
      elim (Option-cases (refusal t.capabilities t.required_scopes ctx)) [
        | inl fine ↦
            rw (there, execute, fine, run_or_refuse)
              (inl (refusal-none t.capabilities t.required_scopes ctx fine, refl))
        | inr (why, refused) ↦
            rw (there, execute, refused, run_or_refuse)
              (inr (
                λ p. absurd (
                    ground
                      (arith, refused, permitted-refusal t.capabilities t.required_scopes ctx p)),
                (why, refl),
              ))
      ]
