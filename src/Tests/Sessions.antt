-- ===== src/Tests/Sessions.antt =====
-- mcp/session.rs on concrete inputs.
use dravr_tronc.Common.{
  ℕ, ◌≤◌, ◌≡◌, ◌↔◌, refl, ◌⊎◌, true, false, none, some, List, [], ◌∷◌, arith, string_eq, nat_eq,
  option_eq, if◌then◌else◌, ◌==◌, err,
}
use dravr_tronc.Common.Assoc.{lookup, without, insert as put, IsMap}
use dravr_tronc.Session.{
  Session, ToolContext, no_capabilities, new, connection, begin_use, end_use, is_idle, is_expired,
  is_owned_by, shares_caller_with,
}
use dravr_tronc.Session.Store.{
  World, SessionStore, SessionLimits, Inserted, server_full, caller_full, insert, find, enter, end,
  sweep_if_due,
}
use dravr_tronc.Session.Store
use dravr_tronc.Session.Store.Held.{held}
use dravr_tronc.Session.Store.Access.{enter_iff}
use dravr_tronc.Session.Store.Bounds.{IsBounded}
use dravr_tronc.Session.Store.Eviction.{GaveWay, AllBusy, insert_caller_full_iff}
use dravr_tronc.Session.Store.Refusals.{insert_keeps, insert_refused_keeps}
use dravr_tronc.Session.Store.Runs.{Event, initializes, enters, step, run, start}
use dravr_tronc.Session.Store.Sound.{IsSound, run-start-IsSound}
use dravr_tronc.Session.Store.Serving.{step_serving}

abbrev ann : ToolContext
ann = record { user_id = some "ann"; tenant_id = none }

abbrev bob : ToolContext
bob = record { user_id = some "bob"; tenant_id = none }

abbrev limits : SessionLimits
limits = record { total = 3; per_caller = 2 }

-- Ann's sessions at 0 and 2, the first used last at 5, the other at 9; Bob's at 1.
abbrev session_of : ToolContext → ℕ → ℕ → Session
session_of ctx seen active = record {
  id = some "new";
  user = ctx.user_id;
  tenant = ctx.tenant_id;
  capabilities = no_capabilities;
  log_level = none;
  last_seen = seen;
  active = active;
}

abbrev crowd : ℕ → ℕ → World
crowd total active = record {
  store = record {
    ttl = 60;
    limits = record { total = total; per_caller = 2 };
    sessions = ("a", 0) ∷ ("b", 1) ∷ ("c", 2) ∷ [];
    last_sweep = 10;
  };
  heap = λ r.
      if r == 1
      then session_of bob 7 0
      else if r == 0
      then session_of ann 5 active
      else session_of ann 9 active;
  fired = λ r. false;
}

all_ops : Unit {0}
unfolding insert Store.insert_swept sweep_if_due Store.make_room Store.place Store.take_census
    Store.count_one Store.drop_expired Store.end_expired Store.is_live Store.remove_and_end
    shares_caller_with is_idle is_expired lookup without put find Store.find_swept enter
    Store.enter_swept is_owned_by begin_use end end_use held
all_ops = tt

-- Ann is at her limit: her least recently used session gives way, and is ended.
evicts :
    ((insert 20 3 (crowd 3 0)).0.sessions ≡ ("new", 3) ∷ ("b", 1) ∷ ("c", 2) ∷ [])
    × ((insert 20 3 (crowd 3 0)).0.fired 0 ≡ true)
    × ((insert 20 3 (crowd 3 1)).1 ≡ err caller_full)
unfolding all_ops
evicts = (refl, refl, refl)

crowd-IsMap : (total active : ℕ) → IsMap (crowd total active).sessions
unfolding lookup
crowd-IsMap total active = (refl, (refl, (refl, tt)))

enter_iff_example : ((enter 20 "b" ann (crowd 3 0)).1 ≡ some 1) ↔ (
    (lookup "b" (crowd 3 0).sessions ≡ some 1)
    × (is_expired 60 20 ((crowd 3 0).heap 1) ≡ false)
    × (is_owned_by ann ((crowd 3 0).heap 1) ≡ true))
enter_iff_example = enter_iff 20 "b" ann (crowd 3 0) 1 (crowd-IsMap 3 0)

insert_caller_full_iff_example :
    let w = crowd 3 1 in
    ((insert 20 3 w).1 ≡ err caller_full) ↔ (
      (2 ≤ held w.heap (w.heap 3) (sweep_if_due 20 w).sessions)
      × AllBusy w.heap (w.heap 3) (sweep_if_due 20 w).sessions)
insert_caller_full_iff_example =
    insert_caller_full_iff 20 3 (crowd 3 1) "new" (crowd-IsMap 3 1) refl

insert_keeps_example :
    let w = crowd 3 0 in
    (lookup "a" (insert 20 3 w).0.sessions ≡ some 0) ⊎ GaveWay w (insert 20 3 w).0 20 (w.heap 3) 0
unfolding all_ops
insert_keeps_example =
    insert_keeps 20 3 (crowd 3 0) "a" 0 (crowd-IsMap 3 0)
      (λ e. ground (arith, e, string_eq.same_iff "new" "a")) refl refl

-- A server that holds its one session, Bob's.
abbrev full : World
full = record (crowd 1 0) { store = record (crowd 1 0).store { sessions = ("b", 1) ∷ [] } }

full-IsBounded : IsBounded full
unfolding all_ops
full-IsBounded = record {
  is_map = (refl, tt);
  total_le = omega arith;
  caller_le = λ s. ground arith;
}

insert_refused_keeps_example : lookup "b" (insert 20 3 full).0.sessions ≡ some 1
unfolding all_ops
insert_refused_keeps_example =
    insert_refused_keeps 20 3 full "b" 1 server_full full-IsBounded refl refl refl

abbrev history : List Event
history = initializes 1 2 "a" ann ∷ initializes 3 4 "b" bob ∷ enters 5 "a" ann ∷ []

run-start-IsSound_example : IsSound (run history (start 0 60 limits))
run-start-IsSound_example = run-start-IsSound 0 60 limits history

-- The request in the session "a" runs on while others come and go, long past its time to live.
step_serving_example :
    lookup "a" (step (initializes 900 901 "c" ann) (run history (start 0 60 limits))).sessions
    ≡ some 0
unfolding all_ops run step start Store.new new connection end_use
step_serving_example =
    step_serving (initializes 900 901 "c" ann) (run history (start 0 60 limits)) "a" 0
      (run-start-IsSound 0 60 limits history) (omega arith) (omega arith) refl
      (λ e. ground (arith, e, string_eq.same_iff "c" "a"))
