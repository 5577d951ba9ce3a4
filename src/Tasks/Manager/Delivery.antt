-- ===== src/Tasks/Manager/Delivery.antt =====
-- mcp/tasks.rs: the way of a client's input, from `apply_input` to the operation that waits for it.
use mathlib.Core.Path.{subst}
use dravr_tronc.Common.{
  ℕ, ◌≡◌, ◌≢◌, refl, ap, sym, ◌∙◌, ◌⊎◌, inl, inr, true, false, ◌&&◌, Option, none, some, String, [],
  ◌∷◌, ◌++◌, nat_eq, string_eq, is_none, is_some, Result, ok, err, arith, Result-cases, Bool-cases,
}
use dravr_tronc.Common.Assoc.{lookup, insert as put, lookup-insert}
use dravr_tronc.Tasks.{
  Chrono, Map, Task, TaskStatus, TaskPayload, DetailedTask, TaskOwner, TaskError, not_found,
  invalid_state, is_terminal, is_expired, detailed, status, owner_eq,
}
use dravr_tronc.Tasks
use dravr_tronc.Tasks.Store
use dravr_tronc.Tasks.Store.{Entries, TaskUpdate}
use dravr_tronc.Tasks.Store.Laws.{update-some, update_refused, get-put, get_entry}
use dravr_tronc.Tasks.Manager.{
  TaskManager, input, validate_input_keys, touch, get, Bus, with_entries, fail, publish, send,
  resume, hand, hand_over, detached_after, undelivered_error, apply_input,
}
use dravr_tronc.Tasks.Manager.Lifecycle.{entries-hand}
use dravr_tronc.Tasks.Manager.Input.{
  validate_input_keys_iff, get_seen, seen_get, transition-to, ok_inj,
}

module _ (chrono : Chrono) (bus : Bus) (now : ℕ) (owner : TaskOwner) (id : String)
    (responses : Map) where
  -- The input is in the inbox of the run, or was published.
  abbrev pub Reached : Option ℕ → TaskManager → TaskManager → Type 0
  Reached (some h) s s' =
      ((s.inboxes h).is_open ≡ true)
      × ((s'.inboxes h).queue ≡ (s.inboxes h).queue ++ responses ∷ [])
  Reached none s s' = s'.published ≡ s.published ++ input id responses ∷ []

  hand-Reached :
      (local : Option ℕ) (s : TaskManager)
      → (hand chrono bus id responses local s).1 ≡ true
      → Reached local s (hand chrono bus id responses local s).0
  unfolding hand send publish
  hand-Reached none s e = ground (arith, e)
  hand-Reached (some h) s e = ground (arith, e, nat_eq.same_iff h h)

  -- The task waits for these responses.
  pub record Waiting (s : TaskManager) (before : DetailedTask) : Type 0 where
    pub seen : get chrono bus now owner id s ≡ ok before
    pub requests : Map
    pub asked : before.payload ≡ TaskPayload.input_required requests
    pub answered : (k : String) → is_some (lookup k requests) ≡ is_some (lookup k responses)

  abbrev pub resumed : DetailedTask → DetailedTask
  resumed d = detailed (touch chrono bus now d.task) TaskPayload.working

  resume-asked :
      (payload : TaskPayload) (t : Task) (d' : DetailedTask)
      → resume chrono bus now id responses (record { task = t; payload = payload }) ≡ ok d'
      → (requests : Map) × (payload ≡ TaskPayload.input_required requests)
        × (validate_input_keys id requests responses ≡ ok tt)
        × (d' ≡ detailed (touch chrono bus now t) TaskPayload.working)
  unfolding resume
  resume-asked (TaskPayload.input_required requests) t d' e =
      elim (Result-cases (validate_input_keys id requests responses)) [
        | inl (u, accepted) ↦
            (requests, refl, accepted, sym (ok_inj (rw (accepted, resume) refl) e))
        | inr (x, refused) ↦ absurd (ground (arith, e, refused))
      ]
  resume-asked TaskPayload.working t d' e = absurd (ground (arith, e))
  resume-asked TaskPayload.cancelled t d' e = absurd (ground (arith, e))
  resume-asked (TaskPayload.completed r) t d' e = absurd (ground (arith, e))
  resume-asked (TaskPayload.failed r) t d' e = absurd (ground (arith, e))

  resume-Waiting :
      (s : TaskManager) (d d' : DetailedTask)
      → get chrono bus now owner id s ≡ ok d
      → resume chrono bus now id responses d ≡ ok d'
      → Waiting s d × (d' ≡ resumed d)
  resume-Waiting s d d' seen e =
      let (requests, asked, accepted, same) = resume-asked d.payload d.task d' e in
      (
        record {
          seen = seen;
          requests = requests;
          asked = asked;
          answered = (validate_input_keys_iff id requests responses).0 accepted;
        },
        same,
      )

  -- The store once the task is back to work.
  abbrev pub put_back : DetailedTask → TaskManager → TaskManager
  put_back d s = with_entries s (put id (owner, d) s.entries)

  -- How a call of `apply_input` goes: refused, or the task is back to work and the input is handed on.
  data Course (meanwhile : TaskManager → TaskManager) (s : TaskManager)
      : TaskManager × Result DetailedTask TaskError → Type 0 where
    refused : (e : TaskError) → Course meanwhile s (s, err e)
    accepted :
        (d : DetailedTask)
        → Waiting s d
        → (is_none (lookup id s.runs) && is_none bus) ≡ false
        → Course meanwhile s (
            hand_over chrono bus now owner id responses
              (lookup id s.runs)
              (resumed d)
              (meanwhile (put_back (resumed d) s)))

  update-course :
      (s : TaskManager) (d : DetailedTask)
      → get chrono bus now owner id s ≡ ok d
      → ((e : TaskError) × (Store.update chrono now owner id
              (resume chrono bus now id responses)
              s.entries
            ≡ (s.entries, err e)))
        ⊎ (Waiting s d
            × (Store.update chrono now owner id (resume chrono bus now id responses) s.entries
                ≡ (put id (owner, resumed d) s.entries, ok (resumed d))))
  update-course s d seen =
      let apply = resume chrono bus now id responses in
      let there = get_seen chrono bus now owner id s d seen in
      elim (Result-cases (apply d)) [
        | inr (e, declined) ↦
            inl (e, update_refused chrono now owner id apply s.entries d e there declined)
        | inl (d', took) ↦
            let (waiting, same) = resume-Waiting s d d' seen took in
            inr (
              waiting,
              update-some chrono now owner id apply s.entries d (resumed d) there
                  (took ∙ ap ok same),
            )
      ]

  apply_input-Course :
      (meanwhile : TaskManager → TaskManager) (s : TaskManager)
      → Course meanwhile s (apply_input chrono bus now owner id responses meanwhile s)
  unfolding apply_input
  apply_input-Course meanwhile s = elim (Result-cases (get chrono bus now owner id s)) [
    | inr (e, absent) ↦ rw (absent, apply_input) (refused e)
    | inl (d, seen) ↦ elim (Bool-cases (is_none (lookup id s.runs) && is_none bus)) [
      | inl alone ↦ rw (seen, apply_input, alone) (refused _)
      | inr reachable ↦ elim (update-course s d seen) [
        | inl (e, declined) ↦ rw (seen, apply_input, reachable, declined, declined) (refused e)
        | inr (waiting, took) ↦
            rw (seen, apply_input, reachable, took, took) (accepted d waiting reachable)
      ]
    ]
  ]

  visible_of :
      (s : TaskManager) (d : DetailedTask)
      → Store.get chrono now owner id s.entries ≡ some d
      → Store.is_visible chrono now owner (owner, d) ≡ true
  unfolding Store.get
  visible_of s d there =
      let entry = get_entry chrono now owner id s.entries d there in
      elim (Bool-cases (Store.is_visible chrono now owner (owner, d))) [
        | inl seen ↦ seen
        | inr unseen ↦ absurd (ground (arith, rw (entry, Store.get, unseen) at there))
      ]

  visible-resumed :
      (d : DetailedTask)
      → Store.is_visible chrono now owner (owner, d) ≡ true
      → Store.visible chrono now owner (some (owner, resumed d)) ≡ some (resumed d)
  unfolding Store.is_visible detailed is_expired
  visible-resumed d v = rw v refl

  -- A task that moves is seen as before: when it was made, and how long it lives, stay.
  resumed_visible :
      (s : TaskManager) (d : DetailedTask)
      → get chrono bus now owner id s ≡ ok d
      → get chrono bus now owner id (put_back (resumed d) s) ≡ ok (resumed d)
  resumed_visible s d seen =
      let v = visible_of s d (get_seen chrono bus now owner id s d seen) in
      seen_get chrono bus now owner id (put_back (resumed d) s) (resumed d) (
        get-put chrono now owner owner id id (resumed d) s.entries
        ∙ rw ((string_eq.same_iff id id).1 refl) (visible-resumed d v))

  hand_over_ok :
      (local : Option ℕ) (working : DetailedTask) (v : TaskManager) (d : DetailedTask)
      → (hand_over chrono bus now owner id responses local working v).1 ≡ ok d
      → (d ≡ working)
        × Reached local v (hand_over chrono bus now owner id responses local working v).0
  unfolding hand_over
  hand_over_ok local working v d e = elim (Bool-cases (hand chrono bus id responses local v).1) [
    | inl handed ↦ (
      ok_inj e (rw (handed, hand_over) refl),
      rw (handed, hand_over) (hand-Reached local v handed),
    )
    | inr lost ↦ absurd (
        never
          (fail chrono bus now owner id (undelivered_error chrono bus local)
            (hand chrono bus id responses local v).0)
          (rw (lost, hand_over) at e))
  ]
    where
      never :
          (r : TaskManager × Result DetailedTask TaskError)
          → (detached_after chrono bus id r).1 ≢ ok d
      never (v, ok x) e = ground (arith, e)
      never (v, err x) e = ground (arith, e)

  Course-ok :
      (meanwhile : TaskManager → TaskManager) (s : TaskManager) (d : DetailedTask)
      {r : TaskManager × Result DetailedTask TaskError}
      → Course meanwhile s r
      → r.1 ≡ ok d
      → (before : DetailedTask) × Waiting s before
        × (d ≡ detailed (touch chrono bus now before.task) TaskPayload.working)
        × Reached (lookup id s.runs) (meanwhile (put_back d s)) r.0
  Course-ok meanwhile s d (refused x) e = absurd (ground (arith, e))
  Course-ok meanwhile s d (accepted before waiting reachable) e =
      let (same, reached) =
        hand_over_ok (lookup id s.runs) (resumed before) (meanwhile (put_back (resumed before) s)) d
          e in
      (
        before,
        waiting,
        same,
        subst
            (λ (x : DetailedTask).
              Reached (lookup id s.runs) (meanwhile (put_back x s))
                (hand_over chrono bus now owner id responses (lookup id s.runs) (resumed before)
                  (meanwhile (put_back (resumed before) s))).0)
            (sym same) reached,
      )

  -- Input that is accepted had been asked for, key by key; its task is working again, and it is in
  -- the inbox of the operation or has been published.
  pub apply_input_ok :
      (meanwhile : TaskManager → TaskManager) (s : TaskManager) (d : DetailedTask)
      → (apply_input chrono bus now owner id responses meanwhile s).1 ≡ ok d
      → (before : DetailedTask) × Waiting s before
        × (d ≡ detailed (touch chrono bus now before.task) TaskPayload.working)
        × Reached
            (lookup id s.runs)
            (meanwhile (put_back d s))
            (apply_input chrono bus now owner id responses meanwhile s).0
  apply_input_ok meanwhile s d e = Course-ok meanwhile s d (apply_input-Course meanwhile s) e

  -- A run that was lost leaves its task failed.
  hand_over_err :
      (local : Option ℕ) (working : DetailedTask) (v : TaskManager) (e : TaskError)
      → get chrono bus now owner id v ≡ ok working
      → is_terminal working.task.status ≡ false
      → (hand_over chrono bus now owner id responses local working v).1 ≡ err e
      → let s' = (hand_over chrono bus now owner id responses local working v).0 in
        (d : DetailedTask) × (lookup id s'.entries ≡ some (owner, d))
        × (d.payload ≡ TaskPayload.failed (undelivered_error chrono bus local))
        × (e ≡ Tasks.detached id)
  unfolding hand_over fail detailed
  hand_over_err local working v e seen unsettled r =
      let handed = hand chrono bus id responses local v in
      let p = TaskPayload.failed (undelivered_error chrono bus local) in
      let d = detailed (touch chrono bus now working.task) p in
      let there : get chrono bus now owner id handed.0 ≡ ok working =
        seen_get chrono bus now owner id handed.0 working (
          ap (Store.get chrono now owner id) (entries-hand chrono bus id responses local v)
          ∙ get_seen chrono bus now owner id v working seen) in
      let settled = transition-to chrono bus now owner id p handed.0 working there unsettled in
      elim (Bool-cases handed.1) [
        | inl took ↦ absurd (ground (arith, rw (took, hand_over) at r))
        | inr lost ↦
            let stored : lookup id (put id (owner, d) handed.0.entries) ≡ some (owner, d) =
              ground (
                arith,
                lookup-insert id id (owner, d) handed.0.entries,
                string_eq.same_iff id id,
              ) in
            (d, rw (lost, settled) stored, refl, ground (arith, rw (lost, settled) at r))
      ]

  Course-err :
      (meanwhile : TaskManager → TaskManager) (s : TaskManager) (e : TaskError)
      {r : TaskManager × Result DetailedTask TaskError}
      → ((v : TaskManager) → (meanwhile v).entries ≡ v.entries)
      → Course meanwhile s r
      → r.1 ≡ err e
      → (r.0.entries ≡ s.entries)
        ⊎ ((d : DetailedTask) × (lookup id r.0.entries ≡ some (owner, d))
            × (d.payload ≡ TaskPayload.failed (undelivered_error chrono bus (lookup id s.runs)))
            × (e ≡ Tasks.detached id))
  unfolding detailed is_terminal status
  Course-err meanwhile s e keep (refused x) r = inl refl
  Course-err meanwhile s e keep (accepted before waiting reachable) r =
      let back = put_back (resumed before) s in
      let v = meanwhile back in
      let seen = seen_get chrono bus now owner id v (resumed before) (
        ap (Store.get chrono now owner id) (keep back)
        ∙ get_seen chrono bus now owner id back (resumed before)
            (resumed_visible s before waiting.seen)) in
      inr (hand_over_err (lookup id s.runs) (resumed before) v e seen refl r)

  -- Input that is refused leaves every task as it was, or its own task failed: none is left working
  -- without an operation. Meanwhile the other calls, such as the end of a run, leave the tasks alone.
  pub apply_input_err :
      (meanwhile : TaskManager → TaskManager) (s : TaskManager) (e : TaskError)
      → ((v : TaskManager) → (meanwhile v).entries ≡ v.entries)
      → (apply_input chrono bus now owner id responses meanwhile s).1 ≡ err e
      → let s' = (apply_input chrono bus now owner id responses meanwhile s).0 in
        (s'.entries ≡ s.entries)
        ⊎ ((d : DetailedTask) × (lookup id s'.entries ≡ some (owner, d))
            × (d.payload ≡ TaskPayload.failed (undelivered_error chrono bus (lookup id s.runs)))
            × (e ≡ Tasks.detached id))
  apply_input_err meanwhile s e keep r =
      Course-err meanwhile s e keep (apply_input-Course meanwhile s) r
