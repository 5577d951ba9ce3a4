-- ===== src/Tests/TaskCalls.antt =====
-- mcp/tasks.rs on concrete inputs.
use dravr_tronc.Common.{
  ℕ, ◌≡◌, ◌≢◌, refl, ◌⊎◌, false, none, some, List, [], ◌∷◌, arith, ok, err, string_eq, nat_eq,
}
use dravr_tronc.Common.Assoc.{lookup, without, insert as put}
use dravr_tronc.Json.{Value}
use dravr_tronc.Json
use dravr_tronc.Tasks.{
  Map, Task, TaskStatus, TaskPayload, DetailedTask, TaskOwner, TaskError, not_found, invalid_state,
  is_terminal, detailed, status, new_task, is_expired, owner_eq,
}
use dravr_tronc.Tasks
use dravr_tronc.Tasks.Store
use dravr_tronc.Tasks.Wire.{to_wire, of_wire, of_wire-to_wire}
use dravr_tronc.Tasks.Manager.{
  TaskManager, TaskRun, create, get, transition, complete, request_input, cancel, apply_input,
  receive, signal_cancelled, deliver, validate_input_keys, undelivered_error, touch, drop_run,
  settle, resume, hand, hand_over, send, first_missing, fail,
}
use dravr_tronc.Tasks.Manager.Calls.{
  Call, step, run, run_settled, creates, transitions, inputs, cancels, sweeps,
}
use dravr_tronc.Tasks.Manager.Input.{cancel_wins}
use dravr_tronc.Tasks.Manager.Delivery.{Reached, Waiting, put_back, apply_input_ok, apply_input_err}
use dravr_tronc.Tests.Codec.{chrono, unary, walk, ones, first}

abbrev ann : TaskOwner
ann = record { user_id = some "ann"; tenant_id = none }

abbrev bob : TaskOwner
bob = record { user_id = some "bob"; tenant_id = none }

abbrev started : TaskManager
started = record {
  options = record { ttl_ms = some 100; poll_interval_ms = 5 };
  entries = [];
  runs = [];
  fired = λ h. false;
  inboxes = λ h. record { is_open = false; queue = [] };
  published = [];
  next_handle = 0;
}

-- Ann's task "t" asks for the color at 2.
abbrev asked : Map
asked = ("color", Json.null) ∷ []

abbrev given : Map
given = ("color", Json.string "red") ∷ []

abbrev running : TaskManager
running = (create chrono none 1 ann (ok "t") started).0

abbrev waiting : TaskManager
waiting = (request_input chrono none 2 ann "t" asked running).0

all_ops : Unit {0}
unfolding create request_input transition settle resume hand hand_over send first_missing fail
    complete cancel apply_input receive drop_run get Store.create Store.get Store.update
    Store.is_visible is_expired is_terminal detailed status new_task lookup without put
    validate_input_keys unary walk ones first step run signal_cancelled deliver
all_ops = tt

abbrev held : TaskRun
held = record { owner = ann; task = new_task chrono 1 "t" (some 100) (some 5); handle = 0 }

abbrev stored : TaskPayload → ℕ → DetailedTask
stored p now = detailed (record (held.task) { last_updated_at = chrono.format now }) p

-- The run is dropped, then Bob and Ann go on.
answers :
    ((apply_input chrono none 3 ann "t" given (λ v. v) waiting).1
      ≡ ok (stored TaskPayload.working 3))
    × ((receive held (apply_input chrono none 3 ann "t" given (λ v. v) waiting).0).1
        ≡ some (ok given))
    × ((apply_input chrono none 3 bob "t" given (λ v. v) waiting).1 ≡ err (not_found "t"))
    × ((apply_input chrono none 3 ann "t" [] (λ v. v) waiting).1
        ≡ err (Tasks.invalid_input "t" (Tasks.no_response "color")))
unfolding all_ops
answers = (refl, refl, refl, refl)

of_wire-to_wire_example :
    of_wire (to_wire (detailed held.task (TaskPayload.completed given)))
    ≡ ok (detailed held.task (TaskPayload.completed given))
of_wire-to_wire_example = of_wire-to_wire held.task (TaskPayload.completed given)

abbrev ended : TaskManager
ended = (cancel chrono none 4 ann "t" waiting).0

cancel_wins_example :
    (lookup "t" ended.entries ≡ some (ann, stored TaskPayload.cancelled 4))
    × ((stored TaskPayload.cancelled 4).task.status ≡ TaskStatus.cancelled)
    × ((receive held ended).1 ≡ some (err (invalid_state "t" TaskStatus.cancelled)))
    × ((transition chrono none 5 ann "t" (TaskPayload.completed given) ended).1
        ≢ ok (stored (TaskPayload.completed given) 5))
unfolding all_ops
cancel_wins_example =
    cancel_wins chrono none ann "t" 4 waiting held (stored TaskPayload.cancelled 4) 5
      (TaskPayload.completed given) (stored (TaskPayload.completed given) 5) refl refl refl

abbrev tries : List Call
tries =
    cancels 5 ann "t"
    ∷ inputs 6 ann "t" given
    ∷ creates 7 bob "u"
    ∷ transitions 8 bob "t" TaskPayload.working
    ∷ sweeps 9
    ∷ []

run_settled_example :
    let s = run chrono none tries ended in
    (get chrono none 50 ann "t" s ≡ err (not_found "t"))
    ⊎ ((ann ≡ ann) × (get chrono none 50 ann "t" s ≡ ok (stored TaskPayload.cancelled 4)))
unfolding all_ops
run_settled_example =
    run_settled chrono none ann ann "t" (stored TaskPayload.cancelled 4) ended tries 50 (refl, tt)
      refl (record { terminal = refl; consistent = refl })
      (tt, (tt, ((λ e. ground (arith, e, string_eq.same_iff "u" "t")), (tt, (tt, tt)))))

apply_input_ok_example :
    let (s, r) = apply_input chrono none 3 ann "t" given (λ v. v) waiting in
    (before : DetailedTask) × Waiting chrono none 3 ann "t" given waiting before
    × (stored TaskPayload.working 3
        ≡ detailed (touch chrono none 3 before.task) TaskPayload.working)
    × Reached chrono none 3 ann "t" given
        (lookup "t" waiting.runs)
        (put_back chrono none 3 ann "t" given (stored TaskPayload.working 3) waiting)
        s
unfolding all_ops
apply_input_ok_example =
    apply_input_ok chrono none 3 ann "t" given (λ v. v) waiting (stored TaskPayload.working 3) refl

-- The operation ends while its input is on the way.
apply_input_err_example :
    let s' = (apply_input chrono none 3 ann "t" given (drop_run held) waiting).0 in
    (s'.entries ≡ waiting.entries)
    ⊎ ((d : DetailedTask) × (lookup "t" s'.entries ≡ some (ann, d))
        × (d.payload ≡ TaskPayload.failed (undelivered_error chrono none (lookup "t" waiting.runs)))
        × (Tasks.detached "t" ≡ Tasks.detached "t"))
unfolding all_ops
apply_input_err_example =
    apply_input_err chrono none 3 ann "t" given (drop_run held) waiting (Tasks.detached "t")
      (λ v. refl) refl
