-- ===== src/Cancellation/Registry/Sound.antt =====
-- mcp/cancellation.rs: what the registry holds after any sequence of requests, and whom a
-- notification reaches.
use dravr_tronc.Common.{
  ℕ, suc, ◌+◌, ◌%◌, ◌^◌, ◌<◌, ◌≤◌, ◌≡◌, refl, sym, ◌∙◌, inl, inr, Bool, false, not, ◌||◌, Option,
  none, some, String, List, [], ◌∷◌, ◌++◌, ◌==◌, nat_eq, option_eq, if◌then◌else◌, arith,
  Bool-cases, Option-cases,
}
use dravr_tronc.Common.Lists.{any, retain, length, All}
use dravr_tronc.Common.Assoc.{lookup}
use dravr_tronc.Caller.{CallerKey}
use dravr_tronc.Cancellation.{
  RequestKey, key_eq, key_beq_iff, key_of, Entry, InFlightRequests, InFlightGuard, registered,
  register, has_token, cancel, is_nil, is_other, release, drop_guard,
}
use dravr_tronc.Cancellation.Registry.{
  System, Event, starts, cancels, ends, find_guard, is_else, step, run, idle, under, Distinct,
  IsSound, registered-push, registered-put_back, under-append, under-retain, under-other,
}

All-append_lt :
    (m n : ℕ) (gs : List InFlightGuard) (g : InFlightGuard)
    → All (λ h. h.serial < m) gs
    → m ≤ n
    → g.serial < n
    → All (λ h. h.serial < n) (gs ++ g ∷ [])
All-append_lt m n [] g a l b = (b, tt)
All-append_lt m n (h ∷ gs) g a l b = (omega (arith, a.0), All-append_lt m n gs g a.1 l b)

Distinct-append :
    (gs : List InFlightGuard) (g : InFlightGuard)
    → All (λ h. h.serial < g.serial) gs
    → Distinct gs
    → Distinct (gs ++ g ∷ [])
Distinct-append [] g a d = (tt, tt)
Distinct-append (h ∷ gs) g a d = (apart gs d.0, Distinct-append gs g a.1 d.1)
  where
    apart :
        (hs : List InFlightGuard)
        → All (λ x. (x.serial == h.serial) ≡ false) hs
        → All (λ x. (x.serial == h.serial) ≡ false) (hs ++ g ∷ [])
    apart [] u = (ground (arith, a.0, nat_eq.same_iff g.serial h.serial), tt)
    apart (x ∷ xs) u = (u.0, apart xs u.1)

retain-All_of :
    (P : InFlightGuard → Type 0) (n : ℕ) (gs : List InFlightGuard)
    → All P gs
    → All P (retain (is_else n) gs)
retain-All_of P n [] a = tt
retain-All_of P n (g ∷ gs) a = elim (Bool-cases (is_else n g)) [
  | inl kept ↦ rw kept (a.0, retain-All_of P n gs a.1)
  | inr dropped ↦ rw dropped (retain-All_of P n gs a.1)
]

retain-Distinct : (n : ℕ) (gs : List InFlightGuard) → Distinct gs → Distinct (retain (is_else n) gs)
retain-Distinct n [] d = tt
retain-Distinct n (g ∷ gs) d = elim (Bool-cases (is_else n g)) [
  | inl kept ↦
      rw kept
        (retain-All_of (λ h. (h.serial == g.serial) ≡ false) n gs d.0, retain-Distinct n gs d.1)
  | inr dropped ↦ rw dropped (retain-Distinct n gs d.1)
]

starts-IsSound :
    (s : System) (caller : CallerKey) (request : String) (parent : Bool)
    → IsSound s
    → suc s.registry.next_serial < 2 ^ 64
    → IsSound (step (starts caller request parent) s)
unfolding step register registered
starts-IsSound s caller request parent v few =
    let r = s.registry in
    let next : (r.next_serial + 1) % 2 ^ 64 ≡ suc r.next_serial = omega (arith, few) in
    let g : InFlightGuard = (register caller request parent r).1 in
    record {
      agrees = λ k.
          registered-push (key_of caller request) (r.next_serial, r.next_token) k r.entries
          ∙ rw (v.agrees k) (sym (under-append k s.live g));
      drawn = rw next (
          All-append_lt r.next_serial (suc r.next_serial) s.live g v.drawn (omega arith)
            (omega arith));
      distinct = Distinct-append s.live g v.drawn v.distinct;
    }

registered-cancel :
    (caller : CallerKey) (request : String) (k : RequestKey) (r : InFlightRequests)
    → registered k (cancel caller request r).0 ≡ registered k r
unfolding cancel registered
registered-cancel caller request k r = ground arith

next_serial-cancel :
    (caller : CallerKey) (request : String) (r : InFlightRequests)
    → (cancel caller request r).0.next_serial ≡ r.next_serial
unfolding cancel
next_serial-cancel caller request r = ground arith

next_serial-drop_guard :
    (g : InFlightGuard) (r : InFlightRequests) → (drop_guard g r).next_serial ≡ r.next_serial
unfolding drop_guard release
next_serial-drop_guard g r = ground arith

registered-release :
    (j k : RequestKey) (n : ℕ) (r : InFlightRequests)
    → registered k (release j n r)
      ≡ (if j == k then retain (is_other n) (registered k r) else registered k r)
unfolding release registered
registered-release j k n r = elim (Option-cases (lookup j r.entries)) [
  | inl missing ↦ elim (Bool-cases (j == k)) [
    | inl e ↦
        let gone : lookup k r.entries ≡ none = rw ((key_beq_iff j k).0 e) at missing in
        rw (missing, release, e, gone) refl
    | inr e ↦ rw (missing, release, e) refl
  ]
  | inr (es, there) ↦ elim (Bool-cases (j == k)) [
    | inl e ↦
        let here : lookup k r.entries ≡ some es = rw ((key_beq_iff j k).0 e) at there in
        rw (there, release, registered-put_back j k (retain (is_other n) es) r.entries, e, here)
          refl
    | inr e ↦
        rw (there, release, registered-put_back j k (retain (is_other n) es) r.entries, e) refl
  ]
]

registered-drop_guard :
    (g : InFlightGuard) (k : RequestKey) (r : InFlightRequests)
    → registered k (drop_guard g r)
      ≡ (if g.key == some k then retain (is_other g.serial) (registered k r) else registered k r)
unfolding drop_guard
registered-drop_guard g k r = elim (Option-cases g.key) [
  | inl nameless ↦ rw (nameless, drop_guard) refl
  | inr (j, named) ↦ rw (named, drop_guard) (registered-release j k g.serial r)
]

found-serial :
    (n : ℕ) (gs : List InFlightGuard) (g : InFlightGuard) → find_guard n gs ≡ some g → g.serial ≡ n
unfolding find_guard
found-serial n [] g f = absurd (ground (arith, f))
found-serial n (h ∷ gs) g f = ground (arith, f, found-serial n gs g, nat_eq.same_iff h.serial n)

ends-IsSound : (s : System) (n : ℕ) → IsSound s → IsSound (step (ends n) s)
unfolding step
ends-IsSound s n v = elim (Option-cases (find_guard n s.live)) [
  | inl gone ↦ rw (gone, step) v
  | inr (g, there) ↦
      let same = found-serial n s.live g there in
      rw (there, step)
        (record {
          agrees = λ k. elim (Bool-cases (g.key == some k)) [
            | inl own ↦
                registered-drop_guard g k s.registry
                ∙ rw (own, v.agrees k, same) (sym (under-retain k n s.live))
            | inr other ↦
                registered-drop_guard g k s.registry
                ∙ rw (other, v.agrees k) (sym (under-other k n g s.live there other v.distinct))
          ];
          drawn =
              rw (next_serial-drop_guard g s.registry)
                (retain-All_of (λ h. h.serial < s.registry.next_serial) n s.live v.drawn);
          distinct = retain-Distinct n s.live v.distinct;
        })
]

cancels-IsSound :
    (s : System) (caller : CallerKey) (request : String)
    → IsSound s
    → IsSound (step (cancels caller request) s)
unfolding step
cancels-IsSound s caller request v = record {
  agrees = λ k. registered-cancel caller request k s.registry ∙ v.agrees k;
  drawn = rw (next_serial-cancel caller request s.registry) v.drawn;
  distinct = v.distinct;
}

next_serial-step :
    (e : Event) (s : System) → (step e s).registry.next_serial ≤ suc s.registry.next_serial
unfolding step register
next_serial-step (starts caller request parent) s = omega arith
next_serial-step (cancels caller request) s =
    omega (arith, next_serial-cancel caller request s.registry)
next_serial-step (ends n) s = elim (Option-cases (find_guard n s.live)) [
  | inl gone ↦ rw (gone, step) (omega arith)
  | inr (g, there) ↦ rw (there, step) (omega (arith, next_serial-drop_guard g s.registry))
]

step-IsSound :
    (e : Event) (s : System) → IsSound s → suc s.registry.next_serial < 2 ^ 64 → IsSound (step e s)
step-IsSound (starts caller request parent) s v few = starts-IsSound s caller request parent v few
step-IsSound (cancels caller request) s v few = cancels-IsSound s caller request v
step-IsSound (ends n) s v few = ends-IsSound s n v

run-IsSound :
    (es : List Event) (s : System)
    → IsSound s
    → s.registry.next_serial + length es < 2 ^ 64
    → IsSound (run es s)
unfolding run
run-IsSound [] s v few = v
run-IsSound (e ∷ es) s v few =
    run-IsSound es (step e s) (step-IsSound e s v (omega (arith, few)))
      (omega (arith, few, next_serial-step e s))

-- After any sequence of requests, cancellations and ends, as many as the serial can count, the
-- registry holds under each key the registrations of the live requests with that key and no others,
-- and no two live requests have one serial.
pub run-idle-IsSound : (es : List Event) → length es < 2 ^ 64 → IsSound (run es idle)
unfolding registered lookup under
run-idle-IsSound es few =
    run-IsSound es idle (record { agrees = λ k. refl; drawn = tt; distinct = tt })
      (omega (arith, few))

-- The registrations that a notification reaches.
abbrev pub reached : Option RequestKey → List InFlightGuard → List Entry
reached none gs = []
reached (some k) gs = under k gs

-- A cancellation fires the tokens of the live requests under the caller's key with that id and no
-- others, and reports whether there was one; from a caller that cannot be told apart it fires none.
pub cancel_lem :
    (s : System) (caller : CallerKey) (request : String) (t : ℕ)
    → IsSound s
    → let es = reached (key_of caller request) s.live in
      ((cancel caller request s.registry).0.fired t ≡ any (has_token t) es || s.registry.fired t)
      × ((cancel caller request s.registry).1 ≡ not (is_nil es))
unfolding cancel registered
cancel_lem s caller request t v = elim (Option-cases (key_of caller request)) [
  | inl nameless ↦ rw (nameless, cancel) (refl, refl)
  | inr (k, named) ↦ elim (Option-cases (lookup k s.registry.entries)) [
    | inl missing ↦
        let nothing : under k s.live ≡ [] = sym (v.agrees k) ∙ rw (missing, registered) refl in
        rw (named, cancel, missing, nothing) (refl, refl)
    | inr (es, there) ↦
        let all : under k s.live ≡ es = sym (v.agrees k) ∙ rw (there, registered) refl in
        rw (named, cancel, there, all) (refl, refl)
  ]
]
