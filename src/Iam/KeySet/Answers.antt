-- ===== src/Iam/KeySet/Answers.antt =====
-- iam/key_set.rs: what the answers from memory are worth, after any tasks have asked for keys.
use dravr_tronc.Common.{
  ℕ, ◌-◌, ◌<◌, ◌≡◌, ◌↔◌, refl, ◌∙◌, inl, inr, none, some, String, List, [], ◌∷◌, Result, ok, err,
  Result-cases, arith, Option-cases, min, ltb→lt, lt→ltb,
}
use dravr_tronc.Common.Lists.{List-cases}
use dravr_tronc.Iam.{IamError, jwks_unavailable}
use dravr_tronc.Iam.KeySet.{
  GoogleSigningKey, FetchedKeys, CacheState, GoogleKeySet, answer_from_memory, fetch,
  with_min_refetch_interval, cooling_down, is_current, find_key, key_set_ttl,
}
use dravr_tronc.Iam.KeySet.Traffic.{
  Attempt, Traffic, Event, passes, looks, takes_turn, finishes, is_dropped, step, run, start,
  last_finished, newest, Spaced,
}
use dravr_tronc.Iam.KeySet.Sound.{IsSound, run-IsSound, start-IsSound}

-- What the cache should hold, by the downloads that ended.
unfoldable pub cache_of : List Attempt → CacheState
cache_of log = record { fetched = newest log; last_attempt = last_finished log }

-- After any calls, the cache holds the keys of the last download that succeeded and the end of the
-- last one that ended: a failed download costs no key.
pub run-cache_of :
    (es : List Event) (now interval : ℕ)
    → (run es (start now interval)).set.state ≡ cache_of (run es (start now interval)).log
unfolding cache_of
run-cache_of es now interval =
    let v = run-IsSound es (start now interval) (start-IsSound now interval) in
    ground (arith, v.attempted, v.remembered)

interval-fetch :
    (kid : String) (d : Result (List GoogleSigningKey) IamError) (now : ℕ) (s : GoogleKeySet)
    → (fetch kid d now s).0.interval ≡ s.interval
unfolding fetch
interval-fetch kid d now s = ground arith

interval-step : (e : Event) (t : Traffic) → (step e t).0.set.interval ≡ t.set.interval
unfolding step
interval-step (passes d) t = refl
interval-step (looks kid) t = refl
interval-step (takes_turn kid) t = ground arith
interval-step (finishes d) t = elim (Option-cases t.turn) [
  | inl free ↦ rw (free, step) refl
  | inr (turn, held) ↦ rw (held, step) (interval-fetch turn.kid d t.now t.set)
]
interval-step is_dropped t = refl

interval-run : (es : List Event) (t : Traffic) → (run es t).set.interval ≡ t.set.interval
unfolding run
interval-run [] t = refl
interval-run (e ∷ es) t = interval-run es (step e t).0 ∙ interval-step e t

interval-start : (now interval : ℕ) → (start now interval).set.interval ≡ min interval key_set_ttl
unfolding start with_min_refetch_interval
interval-start now interval = refl

-- However the tasks come, no download begins before the interval since the last one that ended is
-- over, and no two run at once. The interval is the one that was asked for, or the time that a key
-- set is current where that is shorter.
pub run-Spaced :
    (es : List Event) (now interval : ℕ)
    → Spaced (min interval key_set_ttl) (run es (start now interval)).log
run-Spaced es now interval =
    let t = start now interval in
    rw (interval-run es t ∙ interval-start now interval) at
      (run-IsSound es t (start-IsSound now interval)).spaced

answered_key_iff :
    (kid : String) (now : ℕ) (s : GoogleKeySet) (key : GoogleSigningKey)
    → (answer_from_memory kid now s ≡ some (ok key)) ↔ (
        (set : FetchedKeys) × (s.state.fetched ≡ some set)
        × (find_key kid set.keys ≡ some key)
        × (now - set.fetched_at < key_set_ttl))
unfolding answer_from_memory is_current
answered_key_iff kid now s key = elim (Option-cases s.state.fetched) [
  | inl empty ↦ (
    λ e. absurd (ground (arith, e, empty)),
    λ (set, f, found, young). absurd (ground (arith, f, empty)),
  )
  | inr (set, full) ↦ (
    λ e. elim (Option-cases (find_key kid set.keys)) [
      | inl unknown ↦ absurd (ground (arith, e, full, unknown))
      | inr (k, known) ↦ (
        set,
        full,
        ground (arith, e, full, known),
        ground (arith, e, full, known, ltb→lt (now - set.fetched_at) key_set_ttl),
      )
    ],
    λ (set', f, found, young).
        ground (arith, f, found, young, lt→ltb (now - set'.fetched_at) key_set_ttl),
  )
]

-- The memory answers with a key exactly when the last download that succeeded ended less than an
-- hour ago and that is the key it has under the name.
pub memory_key_iff :
    (es : List Event) (now interval : ℕ) (kid : String) (key : GoogleSigningKey)
    → let t = run es (start now interval) in
      (answer_from_memory kid t.now t.set ≡ some (ok key)) ↔ (
        (set : FetchedKeys) × (newest t.log ≡ some set)
        × (find_key kid set.keys ≡ some key)
        × (t.now - set.fetched_at < key_set_ttl))
memory_key_iff es now interval kid key =
    let t = run es (start now interval) in
    let v = run-IsSound es (start now interval) (start-IsSound now interval) in
    rw v.remembered at (answered_key_iff kid t.now t.set key)

unfoldable pub Failed : List Attempt → Type 0
Failed [] = ⊥
Failed (a ∷ rest) = (why : IamError) × (a.downloaded ≡ err why)

unavailable-Failed :
    (kid : String) (t : Traffic)
    → IsSound t
    → answer_from_memory kid t.now t.set ≡ some (err jwks_unavailable)
    → Failed t.log
unfolding Failed answer_from_memory cooling_down is_current newest last_finished
unavailable-Failed kid t v e = elim (List-cases t.log) [
  | inl empty ↦
      let none_fetched : t.set.state.fetched ≡ none = rw (empty, newest) at v.remembered in
      let none_tried : t.set.state.last_attempt ≡ none = rw (empty, last_finished) at v.attempted in
      absurd (ground (arith, e, none_fetched, none_tried))
  | inr (a, older, logged) ↦ elim (Result-cases a.downloaded) [
    | inl (keys, good) ↦
        let there : t.set.state.fetched ≡ some (record { keys = keys; fetched_at = a.finished }) =
          rw (logged, newest, good) at v.remembered in
        let tried : t.set.state.last_attempt ≡ some a.finished =
          rw (logged, last_finished) at v.attempted in
        absurd (
          ground (
            arith,
            e,
            there,
            tried,
            v.short,
            ltb→lt (t.now - a.finished) t.set.interval,
            lt→ltb (t.now - a.finished) key_set_ttl,
          ))
    | inr (why, bad) ↦ rw (logged, Failed) (why, bad)
  ]
]

-- Where the memory answers that the keys are unavailable, the last download had failed.
pub memory_unavailable-Failed :
    (es : List Event) (now interval : ℕ) (kid : String)
    → let t = run es (start now interval) in
      answer_from_memory kid t.now t.set ≡ some (err jwks_unavailable) → Failed t.log
memory_unavailable-Failed es now interval kid =
    unavailable-Failed kid (run es (start now interval))
      (run-IsSound es (start now interval) (start-IsSound now interval))
