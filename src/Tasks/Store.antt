-- ===== src/Tasks/Store.antt =====
-- mcp/tasks.rs: the in-memory task store. Each call holds the lock from its start to its end.
pub mod Laws
use dravr_tronc.Common.{
  ℕ, Bool, true, false, not, ◌&&◌, Option, none, some, String, List, [], ◌∷◌, ◌==◌, string_eq,
  if◌then◌else◌, Result, ok, err,
}
use dravr_tronc.Common.Lists.{retain}
use dravr_tronc.Common.Assoc.{lookup, insert as put}
use dravr_tronc.Tasks.{Chrono, DetailedTask, TaskOwner, TaskError, not_found, is_expired, owner_eq}

abbrev pub Entry : Type 0
Entry = TaskOwner × DetailedTask

abbrev pub Entries : Type 0
Entries = List (String × Entry)

abbrev pub TaskUpdate : Type 0
TaskUpdate = DetailedTask → Result DetailedTask TaskError

unfoldable pub create : TaskOwner → DetailedTask → Entries → Entries
create owner d m = put d.task.task_id (owner, d) m

module _ (chrono : Chrono) (now : ℕ) where
  unfoldable pub is_visible : TaskOwner → Entry → Bool
  is_visible owner (task_owner, d) = (task_owner == owner) && not (is_expired chrono now d.task)

  abbrev pub visible : TaskOwner → Option Entry → Option DetailedTask
  visible owner none = none
  visible owner (some (task_owner, d)) = if is_visible owner (task_owner, d) then some d else none

  unfoldable pub get : TaskOwner → String → Entries → Option DetailedTask
  get owner id m = visible owner (lookup id m)

  abbrev pub store_update :
      TaskOwner
      → String
      → Result DetailedTask TaskError
      → Entries
      → Entries × Result DetailedTask TaskError
  store_update owner id (ok d) m = (put id (owner, d) m, ok d)
  store_update owner id (err e) m = (m, err e)

  -- What `apply` returns is stored, an error of it leaves the task untouched.
  unfoldable pub update :
      TaskOwner → String → TaskUpdate → Entries → Entries × Result DetailedTask TaskError
  update owner id apply m = elim (get owner id m) [
    | none ↦ (m, err (not_found id))
    | some stored ↦ store_update owner id (apply stored) m
  ]

  unfoldable pub is_kept : String × Entry → Bool
  is_kept (id, (task_owner, d)) = not (is_expired chrono now d.task)

  unfoldable pub expired_ids : Entries → List String
  expired_ids [] = []
  expired_ids ((id, (task_owner, d)) ∷ m) =
      let rest = expired_ids m in if is_expired chrono now d.task then id ∷ rest else rest

  unfoldable pub sweep_expired : Entries → Entries × List String
  sweep_expired m = (retain is_kept m, expired_ids m)
