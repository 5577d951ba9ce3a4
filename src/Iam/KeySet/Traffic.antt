-- ===== src/Iam/KeySet/Traffic.antt =====
-- iam/key_set.rs: any tasks that ask the key set for keys. A task reads the memory, waits for its
-- turn, reads the memory again and downloads; the turn is the lock `fetching`, which the task gives
-- up at the end of `key`, or when it is dropped in the middle of a download.
use dravr_tronc.Common.{ℕ, ◌+◌, ◌≤◌, Option, none, some, String, List, [], ◌∷◌, Result, ok, err}
use dravr_tronc.Iam.{IamError}
use dravr_tronc.Iam.KeySet.{
  GoogleSigningKey, FetchedKeys, GoogleKeySet, Answer, answer_from_memory, fetch, new,
  with_min_refetch_interval,
}

pub record Turn : Type 0 where
  pub kid : String
  pub started : ℕ

-- A download that ended.
pub record Attempt : Type 0 where
  pub started : ℕ
  pub finished : ℕ
  pub downloaded : Result (List GoogleSigningKey) IamError

-- The key set, the task that has the turn, and the downloads that ended, the last first.
pub record Traffic : Type 0 where
  pub now : ℕ
  pub set : GoogleKeySet
  pub turn : Option Turn
  pub log : List Attempt

pub data Event : Type 0 where
  passes : ℕ → Event
  looks takes_turn : String → Event
  finishes : Result (List GoogleSigningKey) IamError → Event
  is_dropped : Event

abbrev pub Reply : Type 0
Reply = Option Answer

abbrev pub take_turn : String → Traffic → Traffic × Reply
take_turn kid t = elim (answer_from_memory kid t.now t.set) [
  | some answer ↦ (t, some answer)
  | none ↦ (record t { turn = some (record { kid = kid; started = t.now }) }, none)
]

abbrev pub finish : Result (List GoogleSigningKey) IamError → Turn → Traffic → Traffic × Reply
finish downloaded turn t =
    let done = fetch turn.kid downloaded t.now t.set in
    (
      record t {
        set = done.0;
        turn = none;
        log = record { started = turn.started; finished = t.now; downloaded = downloaded } ∷ t.log;
      },
      some done.1,
    )

-- Without the turn a task waits; a reply ends its call.
unfoldable pub step : Event → Traffic → Traffic × Reply
step (passes d) t = (record t { now = t.now + d }, none)
step (looks kid) t = (t, answer_from_memory kid t.now t.set)
step (takes_turn kid) t = elim t.turn [ none ↦ take_turn kid t | some other ↦ (t, none) ]
step (finishes downloaded) t = elim t.turn [
  | none ↦ (t, none)
  | some turn ↦ finish downloaded turn t
]
step is_dropped t = (record t { turn = none }, none)

unfoldable pub run : List Event → Traffic → Traffic
run [] t = t
run (e ∷ es) t = run es (step e t).0

unfoldable pub start : ℕ → ℕ → Traffic
start now interval = record {
  now = now;
  set = with_min_refetch_interval interval new;
  turn = none;
  log = [];
}

unfoldable pub last_finished : List Attempt → Option ℕ
last_finished [] = none
last_finished (a ∷ rest) = some a.finished

-- The keys of the last download that succeeded.
unfoldable pub newest : List Attempt → Option FetchedKeys
newest [] = none
newest (a ∷ rest) =
    let older = newest rest in
    elim a.downloaded [
      | ok keys ↦ some (record { keys = keys; fetched_at = a.finished })
      | err why ↦ older
    ]

-- Nothing ended later than `interval` before `start`.
unfoldable pub Apart : ℕ → List Attempt → ℕ → Type 0
Apart interval [] start = Unit
Apart interval (a ∷ rest) start = a.finished + interval ≤ start

-- Each download began at least the interval after the one before it had ended.
unfoldable pub Spaced : ℕ → List Attempt → Type 0
Spaced interval [] = Unit
Spaced interval (a ∷ rest) =
    (a.started ≤ a.finished) × Apart interval rest a.started × Spaced interval rest

unfoldable pub PastAll : List Attempt → ℕ → Type 0
PastAll [] now = Unit
PastAll (a ∷ rest) now = a.finished ≤ now

unfoldable pub Started : ℕ → List Attempt → ℕ → Option Turn → Type 0
Started interval log now none = Unit
Started interval log now (some turn) = (turn.started ≤ now) × Apart interval log turn.started
