-- ===== src/Session/Store.antt =====
-- mcp/session.rs: the session store. Each method takes the instant that it reads.
pub mod Sweep
pub mod Serving
pub mod Sound
pub mod Runs
pub mod Frames
pub mod Endings
pub mod Refusals
pub mod Eviction
pub mod Held
pub mod Insert
pub mod Bounds
pub mod LeastRecent
pub mod Access
use dravr_tronc.Common.{
  ℕ, ◌+◌, ◌-◌, ◌/◌, Bool, true, false, not, ◌&&◌, ◌||◌, Option, none, some, String, List, [], ◌∷◌,
  ◌==◌, nat_eq, string_eq, leb, ltb, if◌then◌else◌, Result, ok, err,
}
use dravr_tronc.Common.Lists.{length, retain}
use dravr_tronc.Common.Assoc.{lookup, without, insert as put}
use dravr_tronc.Session.{
  Session, ToolContext, begin_use, end_use, is_expired, is_idle, is_owned_by, shares_caller_with,
}

pub record SessionLimits : Type 0 where
  pub total : ℕ
  pub per_caller : ℕ

pub data SessionRefusal : Type 0 where
  server_full caller_full : SessionRefusal

abbrev pub Entries : Type 0
Entries = List (String × ℕ)

pub record SessionStore : Type 0 where
  pub ttl : ℕ
  pub limits : SessionLimits
  pub open limits use *
  pub sessions : Entries
  pub last_sweep : ℕ

abbrev pub Heap : Type 0
Heap = ℕ → Session

-- The store, the sessions that it and the running calls share, and the tokens that fired.
pub record World : Type 0 where
  pub store : SessionStore
  pub open store use *
  pub heap : Heap
  pub fired : ℕ → Bool

unfoldable pub new : ℕ → ℕ → SessionLimits → SessionStore
new now ttl limits = record { ttl = ttl; limits = limits; sessions = []; last_sweep = now }

abbrev pub keep : World → Entries → World
keep w m = record w { store = record w.store { sessions = m } }

-- `Session::end`.
abbrev pub fire : ℕ → (ℕ → Bool) → ℕ → Bool
fire r fired x = (x == r) || fired x

unfoldable pub is_live : ℕ → ℕ → Heap → String × ℕ → Bool
is_live ttl now heap (k, r) = not (is_expired ttl now (heap r))

unfoldable pub end_expired : ℕ → ℕ → Heap → Entries → (ℕ → Bool) → ℕ → Bool
end_expired ttl now heap [] fired = fired
end_expired ttl now heap ((k, r) ∷ m) fired =
    end_expired ttl now heap m (if is_expired ttl now (heap r) then fire r fired else fired)

unfoldable pub drop_expired : ℕ → World → World
drop_expired now w = record (keep w (retain (is_live w.ttl now w.heap) w.sessions)) {
  fired = end_expired w.ttl now w.heap w.sessions w.fired;
}

abbrev pub mark_swept : ℕ → World → World
mark_swept now w = record w { store = record w.store { last_sweep = now } }

unfoldable pub sweep_if_due : ℕ → World → World
sweep_if_due now w =
    if ltb (now - w.last_sweep) (w.ttl / 2) then w else drop_expired now (mark_swept now w)

-- Takes an entry out and ends its session.
unfoldable pub remove_and_end : String → World → World
remove_and_end k w = elim (lookup k w.sessions) [
  | none ↦ w
  | some r ↦ record (keep w (without k w.sessions)) { fired = fire r w.fired }
]

-- What the loop of `insert` counts: the caller's sessions, and its least recently used idle one.
pub record Census : Type 0 where
  pub theirs : ℕ
  pub least_recent : Option (ℕ × String)

abbrev pub is_older : ℕ → Option (ℕ × String) → Bool
is_older seen none = true
is_older seen (some (oldest, k)) = ltb seen oldest

unfoldable pub count_one : Session → String → Session → Census → Census
count_one session k live c =
    if shares_caller_with session live
    then (if is_idle live && is_older live.last_seen c.least_recent
        then record { theirs = c.theirs + 1; least_recent = some (live.last_seen, k) }
        else record c { theirs = c.theirs + 1 })
    else c

unfoldable pub take_census : Heap → Session → Entries → Census → Census
take_census heap session [] c = c
take_census heap session ((k, r) ∷ m) c =
    take_census heap session m (count_one session k (heap r) c)

abbrev pub no_census : Census
no_census = record { theirs = 0; least_recent = none }

abbrev pub Inserted : Type 0
Inserted = Result (Unit {0}) SessionRefusal

-- The end of `insert`: room is made from expired sessions only.
unfoldable pub place : String → ℕ → ℕ → World → World × Inserted
place id now r w =
    let w' = drop_expired now w in
    if leb w.total (length w.sessions)
    then (if leb w.total (length w'.sessions)
        then (w', err server_full)
        else (keep w' (put id r w'.sessions), ok tt))
    else (keep w (put id r w.sessions), ok tt)

unfoldable pub make_room : String → ℕ → ℕ → World → Census → World × Inserted
make_room id now r w c =
    if leb w.per_caller c.theirs
    then elim c.least_recent [
      | none ↦ (w, err caller_full)
      | some (seen, key) ↦ place id now r (remove_and_end key w)
    ]
    else place id now r w

-- After the sweep.
unfoldable pub insert_swept : ℕ → ℕ → World → World × Inserted
insert_swept now r w = elim (w.heap r).id [
  | none ↦ (w, ok tt)
  | some id ↦ make_room id now r w (take_census w.heap (w.heap r) w.sessions no_census)
]

unfoldable pub insert : ℕ → ℕ → World → World × Inserted
insert now r w = insert_swept now r (sweep_if_due now w)

unfoldable pub find_swept : ℕ → String → World → World × Option ℕ
find_swept now id w = elim (lookup id w.sessions) [
  | none ↦ (w, none)
  | some r ↦ if is_expired w.ttl now (w.heap r) then (remove_and_end id w, none) else (w, some r)
]

unfoldable pub find : ℕ → String → World → World × Option ℕ
find now id w = find_swept now id (sweep_if_due now w)

abbrev pub write : World → ℕ → Session → World
write w r s = record w { heap = λ x. if x == r then s else w.heap x }

unfoldable pub enter_swept : ℕ → String → ToolContext → World → World × Option ℕ
enter_swept now id ctx w = elim (lookup id w.sessions) [
  | none ↦ (w, none)
  | some r ↦
      if is_expired w.ttl now (w.heap r)
      then (remove_and_end id w, none)
      else if is_owned_by ctx (w.heap r)
      then (write w r (begin_use (w.heap r)), some r)
      else (w, none)
]

unfoldable pub enter : ℕ → String → ToolContext → World → World × Option ℕ
enter now id ctx w = enter_swept now id ctx (sweep_if_due now w)

unfoldable pub end : String → World → World × Bool
end id w = elim (lookup id w.sessions) [ none ↦ (w, false) | some r ↦ (remove_and_end id w, true) ]

-- The `Drop` of the `SessionUse` of the session at `r`.
unfoldable pub leave : ℕ → ℕ → World → World
leave now r w = write w r (end_use now (w.heap r))
