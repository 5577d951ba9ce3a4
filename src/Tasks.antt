-- ===== src/Tasks.antt =====
-- mcp/tasks.rs: the data of a task, its status and payload, and its wire form. Times are
-- milliseconds; the timestamps of the chrono crate are a parameter.
pub mod Wire
pub mod Store
pub mod Manager
use dravr_tronc.Common.{
  ℕ, ◌+◌, ◌-◌, ◌^◌, ◌≡◌, Bool, true, false, Option, none, some, String, List, [], ◌∷◌, ltb, min,
  if◌then◌else◌, Result, ok, err, PartialEq, option_eq, option_beq_iff, string_eq, ◌==◌, ◌&&◌,
  arith, ◌↔◌,
}
use dravr_tronc.Json.{Value}

-- `DateTime::parse_from_rfc3339` and `to_rfc3339_opts` of the chrono crate.
pub record Chrono : Type 0 where
  pub parse : String → Option ℕ
  pub format : ℕ → String
  pub parse-format : (t : ℕ) → parse (format t) ≡ some t

-- `serde_json::Map`.
abbrev pub Map : Type 0
Map = List (String × Value)

pub data TaskStatus : Type 0 where
  working input_required completed failed cancelled : TaskStatus

unfoldable pub is_terminal : TaskStatus → Bool
is_terminal completed = true
is_terminal failed = true
is_terminal cancelled = true
is_terminal _ = false

pub record Task : Type 0 where
  pub task_id : String
  pub status : TaskStatus
  pub status_message : Option String
  pub created_at : String
  pub last_updated_at : String
  pub ttl_ms : Option ℕ
  pub poll_interval_ms : Option ℕ

pub data TaskPayload : Type 0 where
  working : TaskPayload
  input_required : Map → TaskPayload
  completed : Map → TaskPayload
  failed : Map → TaskPayload
  cancelled : TaskPayload

-- `TaskPayload::status`.
unfoldable pub status : TaskPayload → TaskStatus
status TaskPayload.working = TaskStatus.working
status (TaskPayload.input_required requests) = TaskStatus.input_required
status (TaskPayload.completed result) = TaskStatus.completed
status (TaskPayload.failed error) = TaskStatus.failed
status TaskPayload.cancelled = TaskStatus.cancelled

pub record DetailedTask : Type 0 where
  pub task : Task
  pub payload : TaskPayload

-- `DetailedTask::new`: the status is always that of the payload.
unfoldable pub detailed : Task → TaskPayload → DetailedTask
detailed t p = record { task = record t { status = status p }; payload = p }

pub record TaskOwner : Type 0 where
  pub user_id : Option String
  pub tenant_id : Option String

abbrev pub owner_beq : TaskOwner → TaskOwner → Bool
owner_beq a b = (a.user_id == b.user_id) && (a.tenant_id == b.tenant_id)

pub owner_beq_iff : (a b : TaskOwner) → (owner_beq a b ≡ true) ↔ (a ≡ b)
owner_beq_iff a b =
    ground (arith, option_beq_iff a.user_id b.user_id, option_beq_iff a.tenant_id b.tenant_id)

instance abbrev pub owner_eq : PartialEq TaskOwner
owner_eq = record { same = owner_beq; same_iff = owner_beq_iff }

-- Why a client's input is refused.
pub data InputProblem : Type 0 where
  no_response : String → InputProblem
  unknown : String → InputProblem

pub data TaskError : Type 0 where
  not_found : String → TaskError
  invalid_state : String → TaskStatus → TaskError
  invalid_input : String → InputProblem → TaskError
  detached : String → TaskError
  store_failure : String → TaskError

abbrev pub i64_max : ℕ
i64_max = 2 ^ 63 - 1

-- A task with no readable creation time, or none to live, never expires.
unfoldable pub is_expired : Chrono → ℕ → Task → Bool
is_expired chrono now t = elim t.ttl_ms [
  | none ↦ false
  | some ttl ↦ elim (chrono.parse t.created_at) [
    | none ↦ false
    | some created ↦ ltb (min ttl i64_max) (now - created)
  ]
]

unfoldable pub new_task : Chrono → ℕ → String → Option ℕ → Option ℕ → Task
new_task chrono now id ttl poll = record {
  task_id = id;
  status = TaskStatus.working;
  status_message = none;
  created_at = chrono.format now;
  last_updated_at = chrono.format now;
  ttl_ms = ttl;
  poll_interval_ms = poll;
}
