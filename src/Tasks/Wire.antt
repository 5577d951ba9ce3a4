-- ===== src/Tasks/Wire.antt =====
-- mcp/tasks.rs: the wire form of a task, written and read back.
use dravr_tronc.Common.{
  ◌≡◌, refl, ap, inl, inr, Result-cases, Option, none, some, Result, ok, err, arith,
}
use dravr_tronc.Tasks.{Map, Task, TaskStatus, TaskPayload, DetailedTask, status, detailed}

pub record DetailedTaskWire : Type 0 where
  pub task : Task
  pub input_requests : Option Map
  pub result : Option Map
  pub error : Option Map

pub data WireError : Type 0 where
  missing_input_requests missing_result missing_error : WireError

abbrev wire : Task → Option Map → Option Map → Option Map → DetailedTaskWire
wire t i r e = record { task = t; input_requests = i; result = r; error = e }

payload_to_wire : Task → TaskPayload → DetailedTaskWire
payload_to_wire t TaskPayload.working = wire t none none none
payload_to_wire t TaskPayload.cancelled = wire t none none none
payload_to_wire t (TaskPayload.input_required requests) = wire t (some requests) none none
payload_to_wire t (TaskPayload.completed result) = wire t none (some result) none
payload_to_wire t (TaskPayload.failed error) = wire t none none (some error)

unfoldable pub to_wire : DetailedTask → DetailedTaskWire
unfolding payload_to_wire
to_wire d = payload_to_wire d.task d.payload

require : Option Map → WireError → (Map → TaskPayload) → Result TaskPayload WireError
require none e make = err e
require (some m) e make = ok (make m)

payload_of_wire : TaskStatus → DetailedTaskWire → Result TaskPayload WireError
unfolding require
payload_of_wire TaskStatus.working w = ok TaskPayload.working
payload_of_wire TaskStatus.cancelled w = ok TaskPayload.cancelled
payload_of_wire TaskStatus.input_required w =
    require w.input_requests missing_input_requests TaskPayload.input_required
payload_of_wire TaskStatus.completed w = require w.result missing_result TaskPayload.completed
payload_of_wire TaskStatus.failed w = require w.error missing_error TaskPayload.failed

abbrev with_task : Task → Result TaskPayload WireError → Result DetailedTask WireError
with_task t (ok p) = ok (record { task = t; payload = p })
with_task t (err e) = err e

unfoldable pub of_wire : DetailedTaskWire → Result DetailedTask WireError
unfolding payload_of_wire
of_wire w = with_task w.task (payload_of_wire w.task.status w)

payload_round_trip :
    (t : Task) (p : TaskPayload)
    → of_wire (payload_to_wire (record t { status = status p }) p)
      ≡ ok (record { task = record t { status = status p }; payload = p })
unfolding of_wire payload_to_wire status
payload_round_trip t TaskPayload.working = refl
payload_round_trip t TaskPayload.cancelled = refl
payload_round_trip t (TaskPayload.input_required requests) = refl
payload_round_trip t (TaskPayload.completed result) = refl
payload_round_trip t (TaskPayload.failed error) = refl

-- A task as the engine builds it is read back from its wire form as it was.
pub of_wire-to_wire :
    (t : Task) (p : TaskPayload) → of_wire (to_wire (detailed t p)) ≡ ok (detailed t p)
unfolding to_wire detailed
of_wire-to_wire t p = payload_round_trip t p

require_some :
    (m : Option Map) (x : WireError) (make : Map → TaskPayload) (p : TaskPayload)
    → require m x make ≡ ok p
    → (r : Map) × (p ≡ make r)
unfolding require
require_some none x make p e = absurd (ground arith)
require_some (some r) x make p e = (r, ground arith)

status-payload_of_wire :
    (s : TaskStatus) (w : DetailedTaskWire) (p : TaskPayload)
    → payload_of_wire s w ≡ ok p
    → status p ≡ s
unfolding payload_of_wire status
status-payload_of_wire TaskStatus.working w p e = ground (arith, e)
status-payload_of_wire TaskStatus.cancelled w p e = ground (arith, e)
status-payload_of_wire TaskStatus.input_required w p e =
    ap status (require_some w.input_requests _ TaskPayload.input_required p e).1
status-payload_of_wire TaskStatus.completed w p e =
    ap status (require_some w.result _ TaskPayload.completed p e).1
status-payload_of_wire TaskStatus.failed w p e =
    ap status (require_some w.error _ TaskPayload.failed p e).1

-- Whatever wire form is accepted, the task read from it is the one that it carries, and has the
-- payload of its status.
pub of_wire_consistent :
    (w : DetailedTaskWire) (d : DetailedTask)
    → of_wire w ≡ ok d
    → (d.task ≡ w.task) × (status d.payload ≡ d.task.status)
unfolding of_wire
of_wire_consistent w d e = elim (Result-cases (payload_of_wire w.task.status w)) [
  | inl (p, q) ↦
      let same = rw (q, of_wire) at e in
      (ground (arith, same), ground (arith, same, status-payload_of_wire w.task.status w p q))
  | inr (x, q) ↦ absurd (ground (arith, e, q))
]
