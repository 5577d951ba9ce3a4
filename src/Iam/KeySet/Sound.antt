-- ===== src/Iam/KeySet/Sound.antt =====
-- iam/key_set.rs: what the cache holds after any tasks have asked for keys, and how often they
-- download.
use dravr_tronc.Common.{
  ℕ, ◌+◌, ◌≤◌, ◌≡◌, refl, inl, inr, false, Option, none, some, String, List, [], ◌∷◌, Result,
  Result-cases, arith, Option-cases, string_eq,
}
use dravr_tronc.Iam.{IamError}
use dravr_tronc.Iam.KeySet.{
  GoogleSigningKey, GoogleKeySet, answer_from_memory, fetch, new, with_min_refetch_interval,
  cooling_down, key_set_ttl,
}
use dravr_tronc.Iam.KeySet.Traffic.{
  Turn, Attempt, Traffic, Event, passes, looks, takes_turn, finishes, is_dropped, take_turn, finish,
  step, run, start, last_finished, newest, Apart, Spaced, PastAll, Started,
}

pub record IsSound (t : Traffic) : Type 0 where
  pub short : t.set.interval ≤ key_set_ttl
  pub attempted : t.set.state.last_attempt ≡ last_finished t.log
  pub remembered : t.set.state.fetched ≡ newest t.log
  pub past : PastAll t.log t.now
  pub begun : Started t.set.interval t.log t.now t.turn
  pub spaced : Spaced t.set.interval t.log

Started-later :
    (interval : ℕ) (log : List Attempt) (now d : ℕ) (turn : Option Turn)
    → Started interval log now turn
    → Started interval log (now + d) turn
unfolding Started
Started-later interval log now d none b = tt
Started-later interval log now d (some turn) b = (omega (arith, b.0), b.1)

PastAll-later : (log : List Attempt) (now d : ℕ) → PastAll log now → PastAll log (now + d)
unfolding PastAll
PastAll-later [] now d p = tt
PastAll-later (a ∷ rest) now d p = omega (arith, p)

Apart-cooled :
    (now : ℕ) (log : List Attempt) (s : GoogleKeySet)
    → s.state.last_attempt ≡ last_finished log
    → PastAll log now
    → cooling_down now s ≡ false
    → Apart s.interval log now
unfolding Apart PastAll last_finished cooling_down
Apart-cooled now [] s l p c = tt
Apart-cooled now (a ∷ rest) s l p c =
    let slow = rw (l, cooling_down) at c in ground (arith, slow, p)

-- A task that has to download finds the interval over.
unanswered-cooled :
    (kid : String) (now : ℕ) (s : GoogleKeySet)
    → answer_from_memory kid now s ≡ none
    → cooling_down now s ≡ false
unfolding answer_from_memory
unanswered-cooled kid now s e = ground arith

interval-fetch :
    (kid : String) (d : Result (List GoogleSigningKey) IamError) (now : ℕ) (s : GoogleKeySet)
    → (fetch kid d now s).0.interval ≡ s.interval
unfolding fetch
interval-fetch kid d now s = ground arith

finish-IsSound :
    (t : Traffic) (turn : Turn) (d : Result (List GoogleSigningKey) IamError)
    → IsSound t
    → t.turn ≡ some turn
    → IsSound (finish d turn t).0
unfolding fetch last_finished newest PastAll Started Spaced
finish-IsSound t turn d v held =
    let began = rw (held, Started) at v.begun in
    elim (Result-cases d) [
      | inl (keys, good) ↦
          rw (good, fetch, newest)
            (record {
              short = v.short;
              attempted = refl;
              remembered = refl;
              past = omega arith;
              begun = tt;
              spaced = (began.0, began.1, v.spaced);
            })
      | inr (why, bad) ↦
          rw (bad, fetch, newest)
            (record {
              short = v.short;
              attempted = refl;
              remembered = v.remembered;
              past = omega arith;
              begun = tt;
              spaced = (began.0, began.1, v.spaced);
            })
    ]

take_turn-IsSound : (kid : String) (t : Traffic) → IsSound t → IsSound (take_turn kid t).0
unfolding Started
take_turn-IsSound kid t v = elim (Option-cases (answer_from_memory kid t.now t.set)) [
  | inl unanswered ↦
      let cooled = unanswered-cooled kid t.now t.set unanswered in
      rw (unanswered, take_turn)
        (record {
          short = v.short;
          attempted = v.attempted;
          remembered = v.remembered;
          past = v.past;
          begun = (omega arith, Apart-cooled t.now t.log t.set v.attempted v.past cooled);
          spaced = v.spaced;
        })
  | inr (a, answered) ↦ rw (answered, take_turn) v
]

step-IsSound : (e : Event) (t : Traffic) → IsSound t → IsSound (step e t).0
unfolding step Started
step-IsSound (passes d) t v = record {
  short = v.short;
  attempted = v.attempted;
  remembered = v.remembered;
  past = PastAll-later t.log t.now d v.past;
  begun = Started-later t.set.interval t.log t.now d t.turn v.begun;
  spaced = v.spaced;
}
step-IsSound (looks kid) t v = v
step-IsSound (takes_turn kid) t v = elim (Option-cases t.turn) [
  | inl free ↦ rw (free, step) (take_turn-IsSound kid t v)
  | inr (other, held) ↦ rw (held, step) v
]
step-IsSound (finishes d) t v = elim (Option-cases t.turn) [
  | inl free ↦ rw (free, step) v
  | inr (turn, held) ↦ rw (held, step) (finish-IsSound t turn d v held)
]
step-IsSound is_dropped t v = record {
  short = v.short;
  attempted = v.attempted;
  remembered = v.remembered;
  past = v.past;
  begun = tt;
  spaced = v.spaced;
}

pub start-IsSound : (now interval : ℕ) → IsSound (start now interval)
unfolding start with_min_refetch_interval new last_finished newest PastAll Started Spaced
start-IsSound now interval = record {
  short = omega arith;
  attempted = refl;
  remembered = refl;
  past = tt;
  begun = tt;
  spaced = tt;
}

pub run-IsSound : (es : List Event) (t : Traffic) → IsSound t → IsSound (run es t)
unfolding run
run-IsSound [] t v = v
run-IsSound (e ∷ es) t v = run-IsSound es (step e t).0 (step-IsSound e t v)
