-- ===== src/Tasks/Manager.antt =====
-- mcp/tasks.rs: `TaskManager`, over the in-memory store, and the operations of a `TaskRun`. The
-- host's signal bus is a parameter. A running operation is known by a handle: its cancellation
-- token and its inbox of client input.
pub mod Lifecycle
pub mod Calls
pub mod Input
pub mod Delivery
use dravr_tronc.Common.{
  ℕ, suc, Bool, true, false, not, ◌&&◌, Option, none, some, String, List, [], ◌∷◌, ◌++◌, ◌==◌,
  nat_eq, string_eq, is_none, is_some, if◌then◌else◌, Result, ok, err, map,
}
use dravr_tronc.Common.Lists.{retain, any, length}
use dravr_tronc.Common.Assoc.{lookup, without, insert as put}
use dravr_tronc.Json.{Value}
use dravr_tronc.Json
use dravr_tronc.Tasks.{
  Chrono, Map, Task, TaskStatus, TaskPayload, DetailedTask, TaskOwner, TaskError, InputProblem,
  no_response, unknown, not_found, invalid_state, invalid_input, store_failure, is_terminal,
  detailed, new_task,
}
use dravr_tronc.Tasks
use dravr_tronc.Tasks.Store
use dravr_tronc.Tasks.Store.{Entries, TaskUpdate}

pub data TaskSignal : Type 0 where
  cancelled : String → TaskSignal
  input : String → Map → TaskSignal

unfoldable pub signal_task_id : TaskSignal → String
signal_task_id (cancelled id) = id
signal_task_id (input id responses) = id

-- `TaskSignalBus::publish`, where the host installed a bus.
abbrev pub Bus : Type 0
Bus = Option (TaskSignal → Result (Unit {0}) TaskError)

-- The receiving end of a run's input: open until the run is dropped.
pub record Inbox : Type 0 where
  pub is_open : Bool
  pub queue : List Map

pub record TaskOptions : Type 0 where
  pub ttl_ms : Option ℕ
  pub poll_interval_ms : ℕ

pub record TaskManager : Type 0 where
  pub options : TaskOptions
  pub entries : Entries
  pub runs : List (String × ℕ)
  pub fired : ℕ → Bool
  pub inboxes : ℕ → Inbox
  pub published : List TaskSignal
  pub next_handle : ℕ

pub record TaskRun : Type 0 where
  pub owner : TaskOwner
  pub task : Task
  pub handle : ℕ

abbrev pub with_entries : TaskManager → Entries → TaskManager
with_entries s m = record s { entries = m }

abbrev pub fire : TaskManager → ℕ → TaskManager
fire s h = record s { fired = λ x. if x == h then true else s.fired x }

abbrev pub write_inbox : TaskManager → ℕ → Inbox → TaskManager
write_inbox s h box = record s { inboxes = λ x. if x == h then box else s.inboxes x }

-- `UnboundedSender::send`: fails once the receiver is gone.
unfoldable pub send : ℕ → Map → TaskManager → TaskManager × Bool
send h responses s =
    let box = s.inboxes h in
    if box.is_open
    then (write_inbox s h (record box { queue = box.queue ++ responses ∷ [] }), true)
    else (s, false)

unfoldable pub deliver : TaskSignal → TaskManager → TaskManager × Bool
unfolding signal_task_id send
deliver signal s = elim (lookup (signal_task_id signal) s.runs) [
  | none ↦ (s, false)
  | some h ↦ elim signal [
    | cancelled id ↦ (fire s h, true)
    | input id responses ↦ send h responses s
  ]
]

-- The first key of `requests` that `responses` lacks.
unfoldable pub first_missing : Map → Map → Option String
first_missing [] other = none
first_missing ((k, v) ∷ m) other =
    let rest = first_missing m other in if is_none (lookup k other) then some k else rest

unfoldable pub validate_input_keys : String → Map → Map → Result (Unit {0}) TaskError
validate_input_keys id requests responses = elim (first_missing requests responses) [
  | some missing ↦ err (invalid_input id (no_response missing))
  | none ↦ elim (first_missing responses requests) [
    | some extra ↦ err (invalid_input id (unknown extra))
    | none ↦ ok tt
  ]
]

module _ (chrono : Chrono) (bus : Bus) where
  unfoldable pub publish : TaskSignal → TaskManager → TaskManager × Result Bool TaskError
  publish signal s = elim bus [
    | none ↦ (s, ok false)
    | some send_out ↦ elim (send_out signal) [
      | ok _ ↦ (record s { published = s.published ++ signal ∷ [] }, ok true)
      | err e ↦ (s, err e)
    ]
  ]

  -- `TaskId::generate` draws the id from the system's randomness, which may fail.
  unfoldable pub create :
      ℕ → TaskOwner → Result String String → TaskManager → TaskManager × Result TaskRun TaskError
  create now owner (err reason) s = (s, err (store_failure reason))
  create now owner (ok id) s =
      let task = new_task chrono now id s.options.ttl_ms (some s.options.poll_interval_ms) in
      let h = s.next_handle in
      (
        record s {
          entries = Store.create owner (detailed task TaskPayload.working) s.entries;
          runs = put id h s.runs;
          fired = λ x. if x == h then false else s.fired x;
          inboxes = λ x. if x == h then record { is_open = true; queue = [] } else s.inboxes x;
          next_handle = suc h;
        },
        ok (record { owner = owner; task = task; handle = h }),
      )

  unfoldable pub get : ℕ → TaskOwner → String → TaskManager → Result DetailedTask TaskError
  get now owner id s = elim (Store.get chrono now owner id s.entries) [
    | none ↦ err (not_found id)
    | some d ↦ ok d
  ]

  abbrev pub touch : ℕ → Task → Task
  touch now t = record t { last_updated_at = chrono.format now }

  -- The update that `transition` hands to the store.
  unfoldable pub settle : ℕ → String → TaskPayload → TaskUpdate
  settle now id payload current =
      if is_terminal current.task.status
      then err (invalid_state id current.task.status)
      else ok (detailed (touch now current.task) payload)

  abbrev pub stored :
      TaskManager
      → Entries × Result DetailedTask TaskError
      → TaskManager × Result DetailedTask TaskError
  stored s (m, r) = (with_entries s m, r)

  unfoldable pub transition :
      ℕ
      → TaskOwner
      → String
      → TaskPayload
      → TaskManager
      → TaskManager × Result DetailedTask TaskError
  transition now owner id payload s =
      stored s (Store.update chrono now owner id (settle now id payload) s.entries)

  unfoldable pub complete :
      ℕ → TaskOwner → String → Map → TaskManager → TaskManager × Result DetailedTask TaskError
  unfolding transition
  complete now owner id result s = transition now owner id (TaskPayload.completed result) s

  unfoldable pub fail :
      ℕ → TaskOwner → String → Map → TaskManager → TaskManager × Result DetailedTask TaskError
  unfolding transition
  fail now owner id error s = transition now owner id (TaskPayload.failed error) s

  unfoldable pub request_input :
      ℕ → TaskOwner → String → Map → TaskManager → TaskManager × Result DetailedTask TaskError
  unfolding transition
  request_input now owner id requests s =
      transition now owner id (TaskPayload.input_required requests) s

  -- The update that `apply_input` hands to the store.
  unfoldable pub resume : ℕ → String → Map → TaskUpdate
  resume now id responses current = elim current.payload [
    | TaskPayload.input_required requests ↦ elim (validate_input_keys id requests responses) [
      | ok _ ↦ ok (detailed (touch now current.task) TaskPayload.working)
      | err e ↦ err e
    ]
    | _ ↦ err (invalid_state id current.task.status)
  ]

  -- Whether the input reached the run or the bus.
  unfoldable pub hand : String → Map → Option ℕ → TaskManager → TaskManager × Bool
  hand id responses (some h) s = send h responses s
  hand id responses none s =
      let (s', published) = publish (input id responses) s in
      (s', elim published [ ok carried ↦ carried | err e ↦ false ])

  unfoldable pub undelivered_error : Option ℕ → Map
  undelivered_error local =
      ("code", Json.number "-32603")
      ∷ (
        "message",
        Json.string (
            if is_some local
            then "task operation ended before receiving its input"
            else "task input could not be carried to the instance running the operation"),
      )
      ∷ []

  abbrev pub detached_after :
      String
      → TaskManager × Result DetailedTask TaskError
      → TaskManager × Result DetailedTask TaskError
  detached_after id (s, ok d) = (s, err (Tasks.detached id))
  detached_after id (s, err e) = (s, err e)

  unfoldable pub hand_over :
      ℕ
      → TaskOwner
      → String
      → Map
      → Option ℕ
      → DetailedTask
      → TaskManager
      → TaskManager × Result DetailedTask TaskError
  hand_over now owner id responses local working s =
      let (s', handed) = hand id responses local s in
      if handed
      then (s', ok working)
      else detached_after id (fail now owner id (undelivered_error local) s')

  -- `meanwhile` is what other calls do between the update of the store and the sending of the input.
  unfoldable pub apply_input :
      ℕ
      → TaskOwner
      → String
      → Map
      → (TaskManager → TaskManager)
      → TaskManager
      → TaskManager × Result DetailedTask TaskError
  apply_input now owner id responses meanwhile s =
      let local = lookup id s.runs in
      let (m, updated) = Store.update chrono now owner id (resume now id responses) s.entries in
      elim (get now owner id s) [
        | err e ↦ (s, err e)
        | ok _ ↦
            if is_none local && is_none bus then (s, err (Tasks.detached id)) else elim updated [
              | err e ↦ (with_entries s m, err e)
              | ok working ↦
                  hand_over now owner id responses local working (meanwhile (with_entries s m))
            ]
      ]

  unfoldable pub signal_cancelled : String → TaskManager → TaskManager
  signal_cancelled id s =
      let (s', local) = deliver (cancelled id) s in
      if local then s' else (publish (cancelled id) s').0

  unfoldable pub cancel :
      ℕ → TaskOwner → String → TaskManager → TaskManager × Result DetailedTask TaskError
  cancel now owner id s =
      let (s', r) = transition now owner id TaskPayload.cancelled s in
      elim r [ err e ↦ (s', err e) | ok d ↦ (signal_cancelled id s', ok d) ]

  unfoldable pub signal_all : List String → TaskManager → TaskManager
  signal_all [] s = s
  signal_all (id ∷ ids) s = signal_all ids (signal_cancelled id s)

  unfoldable pub sweep_expired : ℕ → TaskManager → TaskManager × ℕ
  sweep_expired now s =
      let (m, removed) = Store.sweep_expired chrono now s.entries in
      (signal_all removed (with_entries s m), length removed)

-- The `Drop` of a `TaskRun`: its entry leaves `runs`, and its inbox closes.
unfoldable pub drop_run : TaskRun → TaskManager → TaskManager
drop_run run s =
    record (write_inbox s run.handle (record (s.inboxes run.handle) { is_open = false })) {
      runs = without run.task.task_id s.runs;
    }

-- What `TaskRun::request_input` waits for: cancellation first, then the next input, then the end
-- of the senders. `none` is to wait on.
unfoldable pub receive : TaskRun → TaskManager → TaskManager × Option (Result Map TaskError)
receive run s =
    let box = s.inboxes run.handle in
    if s.fired run.handle
    then (s, some (err (invalid_state run.task.task_id TaskStatus.cancelled)))
    else elim box.queue [
      | responses ∷ rest ↦
          (write_inbox s run.handle (record box { queue = rest }), some (ok responses))
      | [] ↦
          if any (λ (id, h). h == run.handle) s.runs
          then (s, none)
          else (s, some (err (Tasks.detached run.task.task_id)))
    ]

module _ (chrono : Chrono) (bus : Bus) where
  -- `TaskRun::complete` and `TaskRun::fail` consume the run.
  unfoldable pub complete_run :
      ℕ → TaskRun → Map → TaskManager → TaskManager × Result DetailedTask TaskError
  unfolding drop_run
  complete_run now run result s =
      let (s', r) = complete chrono bus now run.owner run.task.task_id result s in
      (drop_run run s', r)

  unfoldable pub fail_run :
      ℕ → TaskRun → Map → TaskManager → TaskManager × Result DetailedTask TaskError
  unfolding drop_run
  fail_run now run error s =
      let (s', r) = fail chrono bus now run.owner run.task.task_id error s in (drop_run run s', r)
