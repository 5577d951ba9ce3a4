-- ===== src/Tasks/Store/Laws.antt =====
-- mcp/tasks.rs: what a client sees of the task store.
use dravr_tronc.Common.{
  ℕ, ◌≡◌, ◌≢◌, ap, refl, ◌⊎◌, inl, inr, none, some, String, ◌==◌, string_eq, if◌then◌else◌, Result,
  ok, err, arith, Option-cases, Result-cases, Bool-cases,
}
use dravr_tronc.Common.Assoc.{lookup, insert as put, lookup-insert, lookup-retain, IsMap}
use dravr_tronc.Tasks.{Chrono, DetailedTask, TaskOwner, TaskError, not_found, is_expired, owner_eq}
use dravr_tronc.Tasks.Store.{
  Entries, TaskUpdate, is_visible, visible, get, update, is_kept, sweep_expired,
}

module _ (chrono : Chrono) (now : ℕ) where
  -- The update of a task that is not there for the caller: absent, expired or another owner's.
  pub update-none :
      (owner : TaskOwner) (id : String) (apply : TaskUpdate) (m : Entries)
      → get chrono now owner id m ≡ none
      → update chrono now owner id apply m ≡ (m, err (not_found id))
  unfolding update
  update-none owner id apply m e = rw (e, update)

  pub update-some :
      (owner : TaskOwner) (id : String) (apply : TaskUpdate) (m : Entries) (d d' : DetailedTask)
      → get chrono now owner id m ≡ some d
      → apply d ≡ ok d'
      → update chrono now owner id apply m ≡ (put id (owner, d') m, ok d')
  unfolding update
  update-some owner id apply m d d' e a = rw (e, update, a) refl

  pub update_refused :
      (owner : TaskOwner) (id : String) (apply : TaskUpdate) (m : Entries) (d : DetailedTask)
      (x : TaskError)
      → get chrono now owner id m ≡ some d
      → apply d ≡ err x
      → update chrono now owner id apply m ≡ (m, err x)
  unfolding update
  update_refused owner id apply m d x e a = rw (e, update, a) refl

  -- A task has one owner: no other sees it.
  pub get_owner :
      (owner other : TaskOwner) (id : String) (m : Entries) (d : DetailedTask)
      → get chrono now owner id m ≡ some d
      → other ≢ owner
      → get chrono now other id m ≡ none
  unfolding get is_visible
  get_owner owner other id m d e n = elim (Option-cases (lookup id m)) [
    | inl none_there ↦ rw (none_there, get) refl
    | inr ((task_owner, t), there) ↦
        rw (there, get)
          (ground (
            arith,
            rw (there, get) at e,
            owner_eq.same_iff task_owner owner,
            owner_eq.same_iff task_owner other,
          ))
  ]

  pub get-put :
      (owner other : TaskOwner) (id j : String) (d : DetailedTask) (m : Entries)
      → get chrono now other j (put id (owner, d) m)
        ≡ (if id == j then visible chrono now other (some (owner, d)) else get chrono now other j m)
  unfolding get
  get-put owner other id j d m = ground (arith, lookup-insert id j (owner, d) m)

  -- At the time of a sweep no caller sees a difference: it gets the same tasks before and after.
  get-sweep_expired :
      (owner : TaskOwner) (id : String) (m : Entries)
      → IsMap m
      → get chrono now owner id (sweep_expired chrono now m).0 ≡ get chrono now owner id m
  unfolding get sweep_expired is_kept is_visible
  get-sweep_expired owner id m u = elim (Option-cases (lookup id m)) [
    | inl none_there ↦ rw (lookup-retain (is_kept chrono now) id m u, none_there, is_kept) refl
    | inr ((task_owner, d), there) ↦ elim (Bool-cases (is_expired chrono now d.task)) [
      | inl old ↦
          rw (lookup-retain (is_kept chrono now) id m u, there, is_kept, old) (ground (arith, old))
      | inr young ↦
          rw (lookup-retain (is_kept chrono now) id m u, there, is_kept, young)
            (ground (arith, young))
    ]
  ]

  pub get_entry :
      (owner : TaskOwner) (id : String) (m : Entries) (d : DetailedTask)
      → get chrono now owner id m ≡ some d
      → lookup id m ≡ some (owner, d)
  unfolding get is_visible
  get_entry owner id m d e = elim (Option-cases (lookup id m)) [
    | inl none_there ↦ absurd (ground (arith, rw (none_there, get) at e))
    | inr ((task_owner, t), there) ↦
        ground (arith, there, rw (there, get) at e, owner_eq.same_iff task_owner owner)
  ]

  -- What one caller's update of `j` wrote under `id`.
  pub record Wrote (caller : TaskOwner) (j id : String) (apply : TaskUpdate) (m : Entries)
      : Type 0 where
    pub same : j ≡ id
    pub before : DetailedTask
    pub after : DetailedTask
    pub seen : get chrono now caller j m ≡ some before
    pub applied : apply before ≡ ok after
    pub written : lookup id (update chrono now caller j apply m).0 ≡ some (caller, after)

  -- An update changes the entry of its own task only, and only to what `apply` made of it.
  pub lookup-update :
      (caller : TaskOwner) (j id : String) (apply : TaskUpdate) (m : Entries)
      → (lookup id (update chrono now caller j apply m).0 ≡ lookup id m) ⊎ Wrote caller j id apply m
  lookup-update caller j id apply m = elim (Option-cases (get chrono now caller j m)) [
    | inl unseen ↦ inl (
        ap (λ (r : Entries × Result DetailedTask TaskError). lookup id r.0)
          (update-none caller j apply m unseen))
    | inr (d, seen) ↦ elim (Result-cases (apply d)) [
      | inr (x, refused) ↦ inl (
          ap (λ (r : Entries × Result DetailedTask TaskError). lookup id r.0)
            (update_refused caller j apply m d x seen refused))
      | inl (d', applied) ↦
          let made =
            ap (λ (r : Entries × Result DetailedTask TaskError). lookup id r.0)
              (update-some caller j apply m d d' seen applied) in
          elim (Bool-cases (j == id)) [
            | inl hit ↦ inr (record {
              same = (string_eq.same_iff j id).0 hit;
              before = d;
              after = d';
              seen = seen;
              applied = applied;
              written = ground (arith, made, lookup-insert j id (caller, d') m);
            })
            | inr miss ↦ inl (ground (arith, made, lookup-insert j id (caller, d') m))
          ]
    ]
  ]
