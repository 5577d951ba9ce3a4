-- ===== src/Auth/Gate.antt =====
-- server/auth.rs: who gets past the gate of a server that has started.
use dravr_tronc.Common.{
  ◌≡◌, ◌↔◌, ◌⊎◌, inl, inr, refl, true, false, Option, none, some, Result, ok, err, arith,
  Bool-cases, Option-cases,
}
use dravr_tronc.Guard.Text.{Text, text_eq_iff}
use dravr_tronc.Guard.Deny.{IpAddr}
use dravr_tronc.Auth.{
  bearer_credential, configured_key, api_key_configured, require_auth, passes, AuthMode,
  InsecureBindError, is_loopback_host, resolve_startup_auth, startup_auth,
}

-- The credential that the request presents.
unfoldable pub presented : Option Text → Option Text
presented none = none
presented (some value) = bearer_credential value

pub require_auth_iff :
    (variable header : Option Text) (key : Text)
    → configured_key variable ≡ some key
    → (require_auth variable header ≡ passes) ↔ (presented header ≡ some key)
unfolding require_auth presented
require_auth_iff variable none key set = ground (arith, set)
require_auth_iff variable (some value) key set = elim (Option-cases (bearer_credential value)) [
  | inl b ↦ ground (arith, set, b)
  | inr (token, b) ↦ ground (arith, set, b, text_eq_iff token key)
]

module _ (parse_ip : Text → Option IpAddr) (env_var : Text) (variable header : Option Text)
    (host : Text) where
  unfoldable pub IsGuarded : Result AuthMode InsecureBindError → Type 0
  IsGuarded (ok mode) =
      (is_loopback_host parse_ip host ≡ true)
      ⊎ ((require_auth variable header ≡ passes)
          ↔ ((key : Text) × (configured_key variable ≡ some key) × (presented header ≡ some key)))
  IsGuarded (err refused) =
      (refused ≡ record { host = host; gate = some env_var })
      × (configured_key variable ≡ none)
      × (is_loopback_host parse_ip host ≡ false)

  -- A server that starts binds a loopback host, or a request gets past its gate exactly when it
  -- presents the configured key as a bearer credential. One that is refused names the host and the
  -- variable, has no key, and would have bound a host that is not loopback.
  pub startup_auth-IsGuarded : IsGuarded (startup_auth parse_ip env_var variable host)
  unfolding IsGuarded startup_auth resolve_startup_auth api_key_configured
  startup_auth-IsGuarded = elim (Option-cases (configured_key variable)) [
    | inl unset ↦ elim (Bool-cases (is_loopback_host parse_ip host)) [
      | inl local ↦ rw (unset, local, IsGuarded, startup_auth, resolve_startup_auth) (inl local)
      | inr reachable ↦
          rw (unset, reachable, IsGuarded, startup_auth, resolve_startup_auth)
            (refl, unset, reachable)
    ]
    | inr (key, set) ↦
        rw (set, IsGuarded, startup_auth, resolve_startup_auth)
          (inr (
            λ passed. (key, set, (require_auth_iff variable header key set).0 passed),
            λ (key', set', shown). (require_auth_iff variable header key' set').1 shown,
          ))
  ]
