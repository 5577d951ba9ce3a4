-- ===== src/Session.antt =====
-- mcp/session.rs: what one session holds. Sessions are shared by `Arc`, so they stand in a heap
-- that is read by reference; their cancellation tokens are the set of the references that fired.
pub mod Store
use dravr_tronc.Common.{
  ℕ, ◌+◌, ◌-◌, ◌%◌, ◌^◌, Bool, true, false, ◌&&◌, ◌||◌, Option, none, some, String, ◌==◌, nat_eq,
  string_eq, option_eq, leb, if◌then◌else◌, Result, ok, err,
}
use dravr_tronc.Json
use dravr_tronc.Json.{Value}

-- `LogLevel` is read by its position in the order of severity.
pub record DeclaredCapabilities : Type 0 where
  pub sampling : Bool
  pub form_elicitation : Bool

abbrev pub no_capabilities : DeclaredCapabilities
no_capabilities = record { sampling = false; form_elicitation = false }

abbrev object_there : Option Value → Bool
object_there none = false
object_there (some v) = Json.is_object v

abbrev admits_form : Option Value → Bool
admits_form none = false
admits_form (some v) = elim (Json.as_object v) [
  | none ↦ false
  | some fs ↦ Json.is_empty fs || Json.contains_key "form" fs
]

pub from_initialize : Option Value → DeclaredCapabilities
from_initialize none = no_capabilities
from_initialize (some capabilities) = record {
  sampling = object_there (Json.get "sampling" capabilities);
  form_elicitation = admits_form (Json.get "elicitation" capabilities);
}

-- The part of `ToolContext` that a session reads.
pub record ToolContext : Type 0 where
  pub user_id : Option String
  pub tenant_id : Option String

pub record Session : Type 0 where
  pub id : Option String
  pub user : Option String
  pub tenant : Option String
  pub capabilities : DeclaredCapabilities
  pub log_level : Option ℕ
  pub last_seen : ℕ
  pub active : ℕ

-- An `AtomicUsize` wraps.
abbrev pub usize : ℕ
usize = 2 ^ 64

unfoldable pub new : ℕ → Option String → ToolContext → Session
new now id ctx = record {
  id = id;
  user = ctx.user_id;
  tenant = ctx.tenant_id;
  capabilities = no_capabilities;
  log_level = none;
  last_seen = now;
  active = 0;
}

-- `Session::mint`: the id comes from the system's randomness, which may fail.
pub mint : {E : Type 0} → ℕ → Result String E → ToolContext → Result Session E
unfolding new
mint now (ok id) ctx = ok (new now (some id) ctx)
mint now (err e) ctx = err e

unfoldable pub connection : ℕ → Session
unfolding new
connection now = new now none (record { user_id = none; tenant_id = none })

unfoldable pub is_owned_by : ToolContext → Session → Bool
is_owned_by ctx s = (s.user == ctx.user_id) && (s.tenant == ctx.tenant_id)

unfoldable pub shares_caller_with : Session → Session → Bool
shares_caller_with other s = (s.user == other.user) && (s.tenant == other.tenant)

pub record_capabilities : Option Value → Session → Session
record_capabilities declared s = record s { capabilities = from_initialize declared }

pub set_log_level : ℕ → Session → Session
set_log_level level s = record s { log_level = some level }

-- `Session::enter`: one more request in flight.
unfoldable pub begin_use : Session → Session
begin_use s = record s { active = (s.active + 1) % usize }

-- The `Drop` of a `SessionUse`.
unfoldable pub end_use : ℕ → Session → Session
end_use now s = record s { last_seen = now; active = (s.active + usize - 1) % usize }

unfoldable pub is_idle : Session → Bool
is_idle s = s.active == 0

-- `saturating_duration_since` is `-` on ℕ.
unfoldable pub is_expired : ℕ → ℕ → Session → Bool
unfolding is_idle
is_expired ttl now s = is_idle s && leb ttl (now - s.last_seen)
