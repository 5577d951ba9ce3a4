-- ===== src/Tasks/Manager/Calls.antt =====
-- mcp/tasks.rs: any sequence of calls of the manager, by any callers.
use mathlib.Core.Path.{subst}
use dravr_tronc.Common.{
  ℕ, ◌≡◌, ◌≢◌, refl, sym, ◌⊎◌, inl, inr, ◌&&◌, Option, some, String, List, [], ◌∷◌, nat_eq,
  string_eq, is_none, ok, err, arith, Option-cases, Result-cases, Bool-cases,
}
use dravr_tronc.Common.Lists.{All, retain}
use dravr_tronc.Common.Assoc.{lookup, lookup-insert, IsMap, insert-IsMap, retain-IsMap}
use dravr_tronc.Tasks.{
  Chrono, Map, TaskPayload, DetailedTask, TaskOwner, not_found, detailed, owner_eq, new_task,
}
use dravr_tronc.Tasks.Store
use dravr_tronc.Tasks.Store.{Entries, TaskUpdate}
use dravr_tronc.Tasks.Store.Laws.{update-none, update-some, update_refused}
use dravr_tronc.Tasks.Manager.{
  TaskManager, TaskRun, TaskSignal, Bus, with_entries, resume, transition, apply_input, hand,
  hand_over, cancel, sweep_expired, drop_run, deliver, create, get, fail, undelivered_error, settle,
}
use dravr_tronc.Tasks.Manager.Lifecycle.{
  IsFinal, IsSettled, transition-Settled, cancel-Settled, sweep_expired-Settled,
  apply_input-Settled, entries-deliver, entries-hand, entries-signal_cancelled, entries-signal_all,
  detached_after_state,
}

pub data Call : Type 0 where
  creates : ℕ → TaskOwner → String → Call
  transitions : ℕ → TaskOwner → String → TaskPayload → Call
  inputs : ℕ → TaskOwner → String → Map → Call
  cancels : ℕ → TaskOwner → String → Call
  sweeps : ℕ → Call
  drops : TaskRun → Call
  delivers : TaskSignal → Call

module _ (chrono : Chrono) (bus : Bus) where
  unfoldable pub step : Call → TaskManager → TaskManager
  step (creates now owner id) s = (create chrono bus now owner (ok id) s).0
  step (transitions now caller id p) s = (transition chrono bus now caller id p s).0
  step (inputs now caller id responses) s =
      (apply_input chrono bus now caller id responses (λ v. v) s).0
  step (cancels now caller id) s = (cancel chrono bus now caller id s).0
  step (sweeps now) s = (sweep_expired chrono bus now s).0
  step (drops r) s = drop_run r s
  step (delivers signal) s = (deliver signal s).0

  unfoldable pub run : List Call → TaskManager → TaskManager
  run [] s = s
  run (c ∷ cs) s = run cs (step c s)

  -- The call draws no id anew that the task `id` has.
  abbrev pub Avoids : String → Call → Type 0
  Avoids id (creates now owner j) = j ≢ id
  Avoids id _ = Unit

  update-IsMap :
      (now : ℕ) (caller : TaskOwner) (id : String) (apply : TaskUpdate) (m : Entries)
      → IsMap m
      → IsMap (Store.update chrono now caller id apply m).0
  update-IsMap now caller id apply m u = elim (Option-cases (Store.get chrono now caller id m)) [
    | inl unseen ↦ rw (update-none chrono now caller id apply m unseen) u
    | inr (d, seen) ↦ elim (Result-cases (apply d)) [
      | inl (d', applied) ↦
          rw (update-some chrono now caller id apply m d d' seen applied)
            (insert-IsMap id (caller, d') m u)
      | inr (e, refused) ↦ rw (update_refused chrono now caller id apply m d e seen refused) u
    ]
  ]

  transition-IsMap :
      (now : ℕ) (caller : TaskOwner) (id : String) (p : TaskPayload) (s : TaskManager)
      → IsMap s.entries
      → IsMap (transition chrono bus now caller id p s).0.entries
  unfolding transition
  transition-IsMap now caller id p s u =
      update-IsMap now caller id (settle chrono bus now id p) s.entries u

  hand_over-IsMap :
      (now : ℕ) (caller : TaskOwner) (id : String) (responses : Map) (local : Option ℕ)
      (working : DetailedTask) (s : TaskManager)
      → IsMap s.entries
      → IsMap (hand_over chrono bus now caller id responses local working s).0.entries
  unfolding hand_over fail
  hand_over-IsMap now caller id responses local working s u =
      let handed = hand chrono bus id responses local s in
      let u' = subst IsMap (sym (entries-hand chrono bus id responses local s)) u in
      let error = undelivered_error chrono bus local in
      elim (Bool-cases handed.1) [
        | inl delivered ↦ rw (delivered, hand_over) u'
        | inr lost ↦ rw lost (
            subst (λ (v : TaskManager). IsMap v.entries)
              (sym
                (detached_after_state chrono bus id (fail chrono bus now caller id error handed.0)))
              (transition-IsMap now caller id (TaskPayload.failed error) handed.0 u'))
      ]

  apply_input-IsMap :
      (now : ℕ) (caller : TaskOwner) (id : String) (responses : Map) (s : TaskManager)
      → IsMap s.entries
      → IsMap (apply_input chrono bus now caller id responses (λ v. v) s).0.entries
  unfolding apply_input
  apply_input-IsMap now caller id responses s u =
      let apply = resume chrono bus now id responses in
      let updated = Store.update chrono now caller id apply s.entries in
      let kept = update-IsMap now caller id apply s.entries u in
      elim (Result-cases (get chrono bus now caller id s)) [
        | inr (e, absent) ↦ rw (absent, apply_input) u
        | inl (t, there) ↦ elim (Bool-cases (is_none (lookup id s.runs) && is_none bus)) [
          | inl alone ↦ rw (there, apply_input, alone) u
          | inr reachable ↦ elim (Result-cases updated.1) [
            | inr (e, refused) ↦ rw (there, apply_input, reachable, refused) kept
            | inl (working, moved) ↦
                rw (there, apply_input, reachable, moved)
                  (hand_over-IsMap now caller id responses (lookup id s.runs) working
                    (with_entries s updated.0) kept)
          ]
        ]
      ]

  cancel-IsMap :
      (now : ℕ) (caller : TaskOwner) (id : String) (s : TaskManager)
      → IsMap s.entries
      → IsMap (cancel chrono bus now caller id s).0.entries
  unfolding cancel
  cancel-IsMap now caller id s u =
      let s' = transition chrono bus now caller id TaskPayload.cancelled s in
      let u' = transition-IsMap now caller id TaskPayload.cancelled s u in
      elim (Result-cases s'.1) [
        | inl (d, done) ↦
            rw (done, cancel) (subst IsMap (sym (entries-signal_cancelled chrono bus id s'.0)) u')
        | inr (e, refused) ↦ rw (refused, cancel) u'
      ]

  sweep_expired-IsMap :
      (now : ℕ) (s : TaskManager)
      → IsMap s.entries
      → IsMap (sweep_expired chrono bus now s).0.entries
  unfolding sweep_expired Store.sweep_expired
  sweep_expired-IsMap now s u =
      rw
        (entries-signal_all chrono bus (Store.expired_ids chrono now s.entries)
          (with_entries s (retain (Store.is_kept chrono now) s.entries)))
        (retain-IsMap (Store.is_kept chrono now) s.entries u)

  abbrev fresh : ℕ → TaskOwner → String → TaskManager → Store.Entry
  fresh now owner id s = (
    owner,
    detailed (new_task chrono now id s.options.ttl_ms (some s.options.poll_interval_ms))
        TaskPayload.working,
  )

  -- No call lists a task twice.
  pub step-IsMap : (c : Call) (s : TaskManager) → IsMap s.entries → IsMap (step c s).entries
  unfolding step create Store.create drop_run detailed new_task
  step-IsMap (creates now owner id) s u = insert-IsMap id (fresh now owner id s) s.entries u
  step-IsMap (transitions now caller id p) s u = transition-IsMap now caller id p s u
  step-IsMap (inputs now caller id responses) s u = apply_input-IsMap now caller id responses s u
  step-IsMap (cancels now caller id) s u = cancel-IsMap now caller id s u
  step-IsMap (sweeps now) s u = sweep_expired-IsMap now s u
  step-IsMap (drops r) s u = u
  step-IsMap (delivers signal) s u = subst IsMap (sym (entries-deliver chrono bus signal s)) u

  module _ (owner : TaskOwner) (id : String) (d : DetailedTask) (f : IsFinal d) where
    create-Settled :
        (now : ℕ) (caller : TaskOwner) (j : String) (s : TaskManager)
        → j ≢ id
        → IsSettled owner id d s.entries
        → IsSettled owner id d (create chrono bus now caller (ok j) s).0.entries
    unfolding create Store.create detailed new_task
    create-Settled now caller j s n h =
        ground
          (arith, lookup-insert j id (fresh now caller j s) s.entries, string_eq.same_iff j id, n)

    step-Settled :
        (c : Call) (s : TaskManager)
        → Avoids id c
        → IsMap s.entries
        → IsSettled owner id d s.entries
        → IsSettled owner id d (step c s).entries
    unfolding step drop_run
    step-Settled (creates now caller j) s a u h = create-Settled now caller j s a h
    step-Settled (transitions now caller j p) s a u h =
        transition-Settled chrono bus owner id d f now caller j p s h
    step-Settled (inputs now caller j responses) s a u h =
        apply_input-Settled chrono bus owner id d f now caller j responses (λ v. v) s (λ v k. k) h
    step-Settled (cancels now caller j) s a u h =
        cancel-Settled chrono bus owner id d f now caller j s h
    step-Settled (sweeps now) s a u h = sweep_expired-Settled chrono bus owner id d f now s u h
    step-Settled (drops r) s a u h = h
    step-Settled (delivers signal) s a u h =
        subst (IsSettled owner id d) (sym (entries-deliver chrono bus signal s)) h

    run-Settled :
        (calls : List Call) (s : TaskManager)
        → All (Avoids id) calls
        → IsMap s.entries
        → IsSettled owner id d s.entries
        → IsSettled owner id d (run calls s).entries
    unfolding run
    run-Settled [] s a u h = h
    run-Settled (c ∷ cs) s a u h =
        run-Settled cs (step c s) a.1 (step-IsMap c s u) (step-Settled c s a.0 u h)

  -- A task that has been settled is never seen changed. After any calls of any callers its owner
  -- reads it as it was settled, or is told that it is not found, and no other caller sees it, as
  -- long as no new task draws its id.
  pub run_settled :
      (owner caller : TaskOwner) (id : String) (d : DetailedTask) (s : TaskManager)
      (calls : List Call) (now : ℕ)
      → IsMap s.entries
      → lookup id s.entries ≡ some (owner, d)
      → IsFinal d
      → All (Avoids id) calls
      → (get chrono bus now caller id (run calls s) ≡ err (not_found id))
        ⊎ ((caller ≡ owner) × (get chrono bus now caller id (run calls s) ≡ ok d))
  unfolding get Store.get Store.is_visible
  run_settled owner caller id d s calls now u there f a =
      elim (run-Settled owner id d f calls s a u (inr there)) [
        | inl gone ↦ inl (rw (gone, get) refl)
        | inr kept ↦ elim (Bool-cases (Store.is_visible chrono now caller (owner, d))) [
          | inl seen ↦
              inr (ground (arith, seen, owner_eq.same_iff owner caller), rw (kept, get, seen) refl)
          | inr unseen ↦ inl (rw (kept, get, unseen) refl)
        ]
      ]
