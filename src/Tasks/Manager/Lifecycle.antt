-- ===== src/Tasks/Manager/Lifecycle.antt =====
-- mcp/tasks.rs: the lifecycle of a task. A settled task stays as it is under every operation of the
-- manager, by any caller; and each success is a step of the lifecycle.
use mathlib.Core.Path.{subst}
use dravr_tronc.Common.{
  ℕ, ◌≡◌, ◌≢◌, refl, sym, ◌∙◌, ◌⊎◌, inl, inr, true, ◌&&◌, Option, none, some, String, List, [], ◌∷◌,
  nat_eq, string_eq, is_none, Result, ok, err, arith, Result-cases, Bool-cases,
}
use dravr_tronc.Common.Assoc.{lookup, IsMap, lookup-retain}
use dravr_tronc.Tasks.{
  Chrono, Map, TaskPayload, DetailedTask, TaskOwner, TaskError, is_terminal, status, owner_eq,
}
use dravr_tronc.Tasks.Store
use dravr_tronc.Tasks.Store.{Entries, TaskUpdate}
use dravr_tronc.Tasks.Store.Laws.{get_entry, lookup-update}
use dravr_tronc.Tasks.Manager.{
  TaskManager, TaskSignal, input, signal_task_id, detached_after, get, Bus, with_entries, settle,
  resume, transition, fail, apply_input, hand, hand_over, cancel, signal_cancelled, signal_all,
  sweep_expired, publish, deliver, send, undelivered_error,
}

-- A stored task has the status of its payload.
abbrev pub IsConsistent : DetailedTask → Type 0
IsConsistent d = d.task.status ≡ status d.payload

-- The entry under `id` is the task `d` of `owner`, or it is gone.
abbrev pub IsSettled : TaskOwner → String → DetailedTask → Entries → Type 0
IsSettled owner id d m = (lookup id m ≡ none) ⊎ (lookup id m ≡ some (owner, d))

module _ (chrono : Chrono) where
  -- An update that refuses `d` leaves the entry of `d` alone, whichever task it is for.
  update-IsSettled :
      (now : ℕ) (owner caller : TaskOwner) (id j : String) (d : DetailedTask) (apply : TaskUpdate)
      (m : Entries)
      → (j ≡ id → (x : DetailedTask) → apply d ≢ ok x)
      → IsSettled owner id d m
      → IsSettled owner id d (Store.update chrono now caller j apply m).0
  update-IsSettled now owner caller id j d apply m n s =
      elim (lookup-update chrono now caller j id apply m) [
        | inl same ↦ elim s [ inl gone ↦ inl (same ∙ gone) | inr there ↦ inr (same ∙ there) ]
        | inr w ↦
            let seen = get_entry chrono now caller j m w.before w.seen in
            elim s [
              | inl gone ↦ absurd (ground (arith, gone, seen, w.same))
              | inr there ↦
                  let same : w.before ≡ d = ground (arith, there, seen, w.same) in
                  absurd (n w.same w.after (rw same at w.applied))
            ]
      ]

  sweep-IsSettled :
      (now : ℕ) (owner : TaskOwner) (id : String) (d : DetailedTask) (m : Entries)
      → IsMap m
      → IsSettled owner id d m
      → IsSettled owner id d (Store.sweep_expired chrono now m).0
  unfolding Store.sweep_expired
  sweep-IsSettled now owner id d m u s =
      let law = lookup-retain (Store.is_kept chrono now) id m u in
      elim s [
        | inl gone ↦ inl (rw (law, gone) refl)
        | inr there ↦ elim (Bool-cases (Store.is_kept chrono now (id, (owner, d)))) [
          | inl kept ↦ inr (rw (law, there, kept) refl)
          | inr dropped ↦ inl (rw (law, there, dropped) refl)
        ]
      ]

-- A task that has been settled, with the payload of its status.
pub record IsFinal (d : DetailedTask) : Type 0 where
  pub terminal : is_terminal d.task.status ≡ true
  pub consistent : d.task.status ≡ status d.payload

module _ (chrono : Chrono) (bus : Bus) where
  settle-refuses :
      (now : ℕ) (id : String) (p : TaskPayload) (d x : DetailedTask)
      → IsFinal d
      → settle chrono bus now id p d ≢ ok x
  unfolding settle
  settle-refuses now id p d x f = ground (arith, f.terminal)

  resume-refuses :
      (now : ℕ) (id : String) (responses : Map) (d x : DetailedTask)
      → IsFinal d
      → resume chrono bus now id responses d ≢ ok x
  unfolding resume is_terminal status
  resume-refuses now id responses d x f = ground (arith, f.terminal, f.consistent)

  entries-publish :
      (signal : TaskSignal) (s : TaskManager) → (publish chrono bus signal s).0.entries ≡ s.entries
  unfolding publish
  entries-publish signal s = ground arith

  entries-send :
      (h : ℕ) (responses : Map) (s : TaskManager) → (send h responses s).0.entries ≡ s.entries
  unfolding send
  entries-send h responses s = ground arith

  pub entries-deliver :
      (signal : TaskSignal) (s : TaskManager) → (deliver signal s).0.entries ≡ s.entries
  unfolding deliver send signal_task_id
  entries-deliver signal s = ground arith

  pub entries-hand :
      (id : String) (responses : Map) (local : Option ℕ) (s : TaskManager)
      → (hand chrono bus id responses local s).0.entries ≡ s.entries
  unfolding hand
  entries-hand id responses none s = entries-publish (input id responses) s
  entries-hand id responses (some h) s = entries-send h responses s

  pub entries-signal_cancelled :
      (id : String) (s : TaskManager) → (signal_cancelled chrono bus id s).entries ≡ s.entries
  unfolding signal_cancelled
  entries-signal_cancelled id s = ground (
    arith,
    entries-deliver (TaskSignal.cancelled id) s,
    entries-publish (TaskSignal.cancelled id) (deliver (TaskSignal.cancelled id) s).0,
  )

  pub entries-signal_all :
      (ids : List String) (s : TaskManager) → (signal_all chrono bus ids s).entries ≡ s.entries
  unfolding signal_all
  entries-signal_all [] s = refl
  entries-signal_all (id ∷ ids) s =
      entries-signal_all ids (signal_cancelled chrono bus id s) ∙ entries-signal_cancelled id s

  pub detached_after_state :
      (id : String) (r : TaskManager × Result DetailedTask TaskError)
      → (detached_after chrono bus id r).0 ≡ r.0
  detached_after_state id (s, ok d) = refl
  detached_after_state id (s, err e) = refl

  module _ (owner : TaskOwner) (id : String) (d : DetailedTask) (f : IsFinal d) where
    abbrev pub Settled : TaskManager → Type 0
    Settled s = IsSettled owner id d s.entries

    pub transition-Settled :
        (now : ℕ) (caller : TaskOwner) (j : String) (p : TaskPayload) (s : TaskManager)
        → Settled s
        → Settled (transition chrono bus now caller j p s).0
    unfolding transition
    transition-Settled now caller j p s h =
        update-IsSettled chrono now owner caller id j d (settle chrono bus now j p) s.entries
          (λ e x. settle-refuses now j p d x f) h

    pub cancel-Settled :
        (now : ℕ) (caller : TaskOwner) (j : String) (s : TaskManager)
        → Settled s
        → Settled (cancel chrono bus now caller j s).0
    unfolding cancel
    cancel-Settled now caller j s h =
        let s' = transition chrono bus now caller j TaskPayload.cancelled s in
        let kept = transition-Settled now caller j TaskPayload.cancelled s h in
        ground (arith, kept, entries-signal_cancelled j s'.0)

    pub sweep_expired-Settled :
        (now : ℕ) (s : TaskManager)
        → IsMap s.entries
        → Settled s
        → Settled (sweep_expired chrono bus now s).0
    unfolding sweep_expired
    sweep_expired-Settled now s u h =
        let (m, removed) = Store.sweep_expired chrono now s.entries in
        rw (entries-signal_all removed (with_entries s m))
          (sweep-IsSettled chrono now owner id d s.entries u h)

    hand_over-Settled :
        (now : ℕ) (caller : TaskOwner) (j : String) (responses : Map) (local : Option ℕ)
        (working : DetailedTask) (s : TaskManager)
        → Settled s
        → Settled (hand_over chrono bus now caller j responses local working s).0
    unfolding hand_over fail
    hand_over-Settled now caller j responses local working s h =
        let handed = hand chrono bus j responses local s in
        let h' : Settled handed.0 =
          subst (IsSettled owner id d) (sym (entries-hand j responses local s)) h in
        let error = undelivered_error chrono bus local in
        elim (Bool-cases handed.1) [
          | inl delivered ↦ rw (delivered, hand_over) h'
          | inr lost ↦ rw lost (
              subst Settled
                (sym (detached_after_state j (fail chrono bus now caller j error handed.0)))
                (transition-Settled now caller j (TaskPayload.failed error) handed.0 h'))
        ]

    pub apply_input-Settled :
        (now : ℕ) (caller : TaskOwner) (j : String) (responses : Map)
        (meanwhile : TaskManager → TaskManager) (s : TaskManager)
        → ((v : TaskManager) → Settled v → Settled (meanwhile v))
        → Settled s
        → Settled (apply_input chrono bus now caller j responses meanwhile s).0
    unfolding apply_input
    apply_input-Settled now caller j responses meanwhile s keep h =
        let apply = resume chrono bus now j responses in
        let updated = Store.update chrono now caller j apply s.entries in
        let kept : Settled (with_entries s updated.0) =
          update-IsSettled chrono now owner caller id j d apply s.entries
            (λ e x. resume-refuses now j responses d x f) h in
        elim (Result-cases (get chrono bus now caller j s)) [
          | inr (e, absent) ↦ rw (absent, apply_input) h
          | inl (t, there) ↦ elim (Bool-cases (is_none (lookup j s.runs) && is_none bus)) [
            | inl alone ↦ rw (there, apply_input, alone) h
            | inr reachable ↦ elim (Result-cases updated.1) [
              | inr (e, refused) ↦ rw (there, apply_input, reachable, refused) kept
              | inl (working, moved) ↦
                  rw (there, apply_input, reachable, moved)
                    (hand_over-Settled now caller j responses (lookup j s.runs) working
                      (meanwhile (with_entries s updated.0)) (keep _ kept))
            ]
          ]
        ]
