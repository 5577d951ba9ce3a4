-- ===== src/Tasks/Manager/Input.antt =====
-- mcp/tasks.rs: what a call of the manager does when it succeeds: the keys of a client's input, the
-- steps of a task's lifecycle, and the way of an input to the operation that waits for it.
use dravr_tronc.Common.{
  ℕ, ◌≡◌, ◌≢◌, ◌↔◌, refl, ap, sym, ◌∙◌, inl, inr, true, false, none, some, String, [], ◌∷◌, nat_eq,
  string_eq, is_some, Result, ok, err, arith, Option-cases, Result-cases, Bool-cases,
}
use dravr_tronc.Common.Assoc.{lookup, insert as put, lookup-insert}
use dravr_tronc.Tasks.{
  Chrono, Map, TaskStatus, TaskPayload, DetailedTask, TaskOwner, TaskError, invalid_state,
  is_terminal, detailed, status, owner_eq,
}
use dravr_tronc.Tasks.Store
use dravr_tronc.Tasks.Store.{Entries, TaskUpdate}
use dravr_tronc.Tasks.Store.Laws.{update-none, update-some, update_refused, get_entry}
use dravr_tronc.Tasks.Manager.{
  TaskManager, TaskRun, first_missing, validate_input_keys, touch, get, Bus, with_entries, settle,
  transition, cancel, signal_cancelled, deliver, receive, signal_task_id,
}
use dravr_tronc.Tasks.Manager.Lifecycle.{entries-signal_cancelled}

first_missing-none :
    (k : String) (m other : Map)
    → first_missing m other ≡ none
    → is_some (lookup k m) ≡ true
    → is_some (lookup k other) ≡ true
unfolding first_missing lookup
first_missing-none k [] other e h = absurd (ground (arith, h))
first_missing-none k ((j, v) ∷ m) other e h =
    ground (arith, e, h, first_missing-none k m other, string_eq.same_iff j k)

none-first_missing :
    (m other : Map)
    → ((k : String) → is_some (lookup k m) ≡ true → is_some (lookup k other) ≡ true)
    → first_missing m other ≡ none
unfolding first_missing lookup
none-first_missing [] other h = refl
none-first_missing ((j, v) ∷ m) other h =
    let here = h j (ground (arith, string_eq.same_iff j j)) in
    let later = none-first_missing m other (λ k k_in. h k (ground (arith, k_in))) in
    ground (arith, here, later)

-- The input is accepted exactly when it answers the keys that were asked for, and no others.
pub validate_input_keys_iff :
    (id : String) (requests responses : Map)
    → (validate_input_keys id requests responses ≡ ok tt)
      ↔ ((k : String) → is_some (lookup k requests) ≡ is_some (lookup k responses))
unfolding validate_input_keys
validate_input_keys_iff id requests responses = (to, from)
  where
    to :
        validate_input_keys id requests responses ≡ ok tt
        → (k : String) → is_some (lookup k requests) ≡ is_some (lookup k responses)
    to e k =
        ground (
          arith,
          e,
          first_missing-none k requests responses,
          first_missing-none k responses requests,
        )

    from :
        ((k : String) → is_some (lookup k requests) ≡ is_some (lookup k responses))
        → validate_input_keys id requests responses ≡ ok tt
    from h = ground (
      arith,
      none-first_missing requests responses (λ k k_in. sym (h k) ∙ k_in),
      none-first_missing responses requests (λ k k_in. h k ∙ k_in),
    )

pub ok_inj :
    {d d' : DetailedTask} {r : Result DetailedTask TaskError} → r ≡ ok d → r ≡ ok d' → d ≡ d'
ok_inj e f = ground (arith, e, f)

module _ (chrono : Chrono) (bus : Bus) (now : ℕ) (owner : TaskOwner) (id : String) where
  pub get_seen :
      (s : TaskManager) (d : DetailedTask)
      → get chrono bus now owner id s ≡ ok d
      → Store.get chrono now owner id s.entries ≡ some d
  unfolding get
  get_seen s d e = ground (arith, e)

  pub seen_get :
      (s : TaskManager) (d : DetailedTask)
      → Store.get chrono now owner id s.entries ≡ some d
      → get chrono bus now owner id s ≡ ok d
  unfolding get
  seen_get s d e = rw (e, get) refl

  -- What a transition that succeeds did.
  pub record Moved (p : TaskPayload) (s s' : TaskManager) (d' : DetailedTask) : Type 0 where
    pub before : DetailedTask
    pub seen : get chrono bus now owner id s ≡ ok before
    pub unsettled : is_terminal before.task.status ≡ false
    pub after : d' ≡ detailed (touch chrono bus now before.task) p
    pub written : s' ≡ with_entries s (put id (owner, d') s.entries)

  pub transition-to :
      (p : TaskPayload) (s : TaskManager) (d : DetailedTask)
      → get chrono bus now owner id s ≡ ok d
      → is_terminal d.task.status ≡ false
      → let d' = detailed (touch chrono bus now d.task) p in
        transition chrono bus now owner id p s
        ≡ (with_entries s (put id (owner, d') s.entries), ok d')
  unfolding transition settle
  transition-to p s d seen unsettled =
      let d' = detailed (touch chrono bus now d.task) p in
      rw
        (
          update-some chrono now owner id (settle chrono bus now id p) s.entries d d'
              (get_seen s d seen) (rw unsettled refl),
          transition,
        )
        refl

  pub transition-Moved :
      (p : TaskPayload) (s : TaskManager) (d' : DetailedTask)
      → (transition chrono bus now owner id p s).1 ≡ ok d'
      → Moved p s (transition chrono bus now owner id p s).0 d'
  unfolding transition settle
  transition-Moved p s d' e = elim (Option-cases (Store.get chrono now owner id s.entries)) [
    | inl unseen ↦ absurd (
        ground
          (arith, e, update-none chrono now owner id (settle chrono bus now id p) s.entries unseen))
    | inr (d, seen) ↦ elim (Bool-cases (is_terminal d.task.status)) [
      | inl settled ↦ absurd (
          ground (
            arith,
            e,
            update_refused chrono now owner id (settle chrono bus now id p) s.entries d
                (invalid_state id d.task.status) seen (rw settled refl),
          ))
      | inr unsettled ↦
          let whole = transition-to p s d (seen_get s d seen) unsettled in
          let same =
            ok_inj e (ap (λ (r : TaskManager × Result DetailedTask TaskError). r.1) whole) in
          record {
            before = d;
            seen = seen_get s d seen;
            unsettled = unsettled;
            after = same;
            written =
                ap (λ (r : TaskManager × Result DetailedTask TaskError). r.0) whole
                ∙ ap (λ (x : DetailedTask). with_entries s (put id (owner, x) s.entries))
                    (sym same);
          }
    ]
  ]

  -- A task moves exactly when its owner sees it and it has not been settled; it then has the new
  -- payload and status, and the time of the move.
  pub transition_iff :
      (p : TaskPayload) (s : TaskManager) (d' : DetailedTask)
      → ((transition chrono bus now owner id p s).1 ≡ ok d') ↔ (
          (d : DetailedTask) × (get chrono bus now owner id s ≡ ok d)
          × (is_terminal d.task.status ≡ false)
          × (d' ≡ detailed (touch chrono bus now d.task) p))
  transition_iff p s d' = (
    (λ e. let m = transition-Moved p s d' e in (m.before, m.seen, m.unsettled, m.after)),
    (λ (d, seen, unsettled, same).
        ap (λ (r : TaskManager × Result DetailedTask TaskError). r.1)
          (transition-to p s d seen unsettled)
        ∙ ap ok (sym same)),
  )

module _ (chrono : Chrono) (bus : Bus) (owner : TaskOwner) (id : String) where
  -- Nothing that has been settled is settled again.
  settled_refuses :
      (later : ℕ) (p : TaskPayload) (s : TaskManager) (d x : DetailedTask)
      → lookup id s.entries ≡ some (owner, d)
      → is_terminal d.task.status ≡ true
      → (transition chrono bus later owner id p s).1 ≢ ok x
  settled_refuses later p s d x there settled e =
      let m = transition-Moved chrono bus later owner id p s x e in
      let seen =
        get_entry chrono later owner id s.entries m.before
          (get_seen chrono bus later owner id s m.before m.seen) in
      ground (arith, there, seen, settled, m.unsettled)

  fired-signal_cancelled :
      (h : ℕ) (s : TaskManager)
      → lookup id s.runs ≡ some h
      → (signal_cancelled chrono bus id s).fired h ≡ true
  unfolding signal_cancelled deliver signal_task_id
  fired-signal_cancelled h s r = ground (arith, r, nat_eq.same_iff h h)

  cancel_eq :
      (now : ℕ) (s : TaskManager) (d : DetailedTask)
      → (cancel chrono bus now owner id s).1 ≡ ok d
      → ((transition chrono bus now owner id TaskPayload.cancelled s).1 ≡ ok d)
        × ((cancel chrono bus now owner id s).0
            ≡ signal_cancelled chrono bus id
                (transition chrono bus now owner id TaskPayload.cancelled s).0)
  unfolding cancel
  cancel_eq now s d e =
      elim (Result-cases (transition chrono bus now owner id TaskPayload.cancelled s).1) [
        | inl (x, q) ↦ let same = rw (q, cancel) at e in (q ∙ same, rw (q, cancel) refl)
        | inr (y, q) ↦ absurd (ground (arith, rw (q, cancel) at e))
      ]

  receive-fired :
      (running : TaskRun) (s : TaskManager)
      → s.fired running.handle ≡ true
      → (receive running s).1 ≡ some (err (invalid_state running.task.task_id TaskStatus.cancelled))
  unfolding receive
  receive-fired running s f = rw (f, receive) refl

  -- A task that is cancelled while its operation runs is stored as cancelled, its operation is told
  -- so when it next waits for input, and what that operation settles later is refused.
  pub cancel_wins :
      (now : ℕ) (s : TaskManager) (running : TaskRun) (d : DetailedTask) (later : ℕ)
      (p : TaskPayload) (x : DetailedTask)
      → lookup id s.runs ≡ some running.handle
      → running.task.task_id ≡ id
      → (cancel chrono bus now owner id s).1 ≡ ok d
      → let s' = (cancel chrono bus now owner id s).0 in
        (lookup id s'.entries ≡ some (owner, d))
        × (d.task.status ≡ TaskStatus.cancelled)
        × ((receive running s').1 ≡ some (err (invalid_state id TaskStatus.cancelled)))
        × ((transition chrono bus later owner id p s').1 ≢ ok x)
  unfolding detailed status is_terminal
  cancel_wins now s running d later p x r named e =
      let t = transition chrono bus now owner id TaskPayload.cancelled s in
      let s' = (cancel chrono bus now owner id s).0 in
      let (moved, whole) = cancel_eq now s d e in
      let m = transition-Moved chrono bus now owner id TaskPayload.cancelled s d moved in
      let entries : s'.entries ≡ put id (owner, d) s.entries =
        ap (λ (v : TaskManager). v.entries) whole
        ∙ entries-signal_cancelled chrono bus id t.0
        ∙ ap (λ (v : TaskManager). v.entries) m.written in
      let there : lookup id s'.entries ≡ some (owner, d) =
        ap (lookup id) entries
        ∙ ground (arith, lookup-insert id id (owner, d) s.entries, string_eq.same_iff id id) in
      let is_cancelled : d.task.status ≡ TaskStatus.cancelled = rw m.after refl in
      let runs : lookup id t.0.runs ≡ some running.handle =
        ap (λ (v : TaskManager). lookup id v.runs) m.written ∙ r in
      let fired : s'.fired running.handle ≡ true =
        ap (λ (v : TaskManager). v.fired running.handle) whole
        ∙ fired-signal_cancelled running.handle t.0 runs in
      (
        there,
        is_cancelled,
        receive-fired running s' fired
            ∙ ap (λ (i : String). some (err (invalid_state i TaskStatus.cancelled))) named,
        settled_refuses later p s' d x there (rw is_cancelled refl),
      )
