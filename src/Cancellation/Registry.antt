-- ===== src/Cancellation/Registry.antt =====
-- mcp/cancellation.rs: the registry against the requests that are being served.
pub mod Sound
use dravr_tronc.Common.{
  ℕ, suc, ◌+◌, ◌%◌, ◌^◌, ◌<◌, ◌≤◌, ◌≡◌, ◌≢◌, ◌↔◌, refl, ap, sym, ◌∙◌, inl, inr, Bool, true, false,
  not, ◌&&◌, ◌||◌, Option, none, some, String, List, [], ◌∷◌, ◌++◌, PartialEq, ◌==◌, nat_eq,
  option_eq, option_beq_iff, if◌then◌else◌, arith, Bool-cases, Option-cases,
}
use dravr_tronc.Common.Lists.{any, retain, length, All}
use dravr_tronc.Common.Assoc.{lookup, without, insert as put, lookup-insert, lookup-without}
use dravr_tronc.Caller.{CallerKey}
use dravr_tronc.Cancellation.{
  RequestKey, key_eq, key_beq_iff, key_of, Entry, InFlightRequests, InFlightGuard, or_default,
  registered, push, register, has_token, cancel, is_nil, is_other, put_back, release, drop_guard,
}

-- The registry, and the guards that are alive, in the order of their registration.
pub record System : Type 0 where
  pub registry : InFlightRequests
  pub live : List InFlightGuard

pub data Event : Type 0 where
  starts : CallerKey → String → Bool → Event
  cancels : CallerKey → String → Event
  ends : ℕ → Event

unfoldable pub find_guard : ℕ → List InFlightGuard → Option InFlightGuard
find_guard n [] = none
find_guard n (g ∷ gs) = let later = find_guard n gs in if g.serial == n then some g else later

abbrev pub is_else : ℕ → InFlightGuard → Bool
is_else n g = not (g.serial == n)

unfoldable pub step : Event → System → System
step (starts caller request parent) s =
    let (r, g) = register caller request parent s.registry in
    record { registry = r; live = s.live ++ g ∷ [] }
step (cancels caller request) s = record s { registry = (cancel caller request s.registry).0 }
step (ends n) s = elim (find_guard n s.live) [
  | none ↦ s
  | some g ↦ record { registry = drop_guard g s.registry; live = retain (is_else n) s.live }
]

unfoldable pub run : List Event → System → System
run [] s = s
run (e ∷ es) s = run es (step e s)

abbrev pub idle : System
idle = record {
  registry = record { next_serial = 0; entries = []; next_token = 0; fired = λ t. false };
  live = [];
}

-- The registrations of the guards under a key.
unfoldable pub under : RequestKey → List InFlightGuard → List Entry
under k [] = []
under k (g ∷ gs) =
    let rest = under k gs in if g.key == some k then (g.serial, g.token) ∷ rest else rest

abbrev pub Distinct : List InFlightGuard → Type 0
Distinct [] = Unit
Distinct (g ∷ gs) = All (λ h. (h.serial == g.serial) ≡ false) gs × Distinct gs

-- The registry holds, under each key, the registrations of the live guards with that key; the serials
-- of the live guards are apart, and all drawn.
pub record IsSound (s : System) : Type 0 where
  pub agrees : (k : RequestKey) → registered k s.registry ≡ under k s.live
  pub drawn : All (λ g. g.serial < s.registry.next_serial) s.live
  pub distinct : Distinct s.live

pub registered-push :
    (key : Option RequestKey) (e : Entry) (k : RequestKey) (m : List (RequestKey × List Entry))
    → or_default (lookup k (push key e m))
      ≡ (if key == some k then or_default (lookup k m) ++ e ∷ [] else or_default (lookup k m))
registered-push none e k m = refl
registered-push (some j) e k m =
    ground (arith, lookup-insert j k (or_default (lookup j m) ++ e ∷ []) m, key_beq_iff j k)

pub registered-put_back :
    (j k : RequestKey) (es : List Entry) (m : List (RequestKey × List Entry))
    → or_default (lookup k (put_back j es m)) ≡ (if j == k then es else or_default (lookup k m))
registered-put_back j k [] m = ground (arith, lookup-without j k m)
registered-put_back j k (e ∷ es) m = ground (arith, lookup-insert j k (e ∷ es) m)

pub under-append :
    (k : RequestKey) (gs : List InFlightGuard) (g : InFlightGuard)
    → under k (gs ++ g ∷ [])
      ≡ (if g.key == some k then under k gs ++ (g.serial, g.token) ∷ [] else under k gs)
unfolding under
under-append k [] g = ground arith
under-append k (h ∷ gs) g = ground (arith, under-append k gs g)

pub under-retain :
    (k : RequestKey) (n : ℕ) (gs : List InFlightGuard)
    → under k (retain (is_else n) gs) ≡ retain (is_other n) (under k gs)
unfolding under
under-retain k n [] = refl
under-retain k n (g ∷ gs) = ground (arith, under-retain k n gs)

retain-All :
    (n : ℕ) (gs : List InFlightGuard)
    → All (λ h. (h.serial == n) ≡ false) gs
    → retain (is_else n) gs ≡ gs
retain-All n [] a = refl
retain-All n (g ∷ gs) a = ground (arith, a.0, retain-All n gs a.1)

-- The end of a guard leaves the other keys alone.
pub under-other :
    (k : RequestKey) (n : ℕ) (g : InFlightGuard) (gs : List InFlightGuard)
    → find_guard n gs ≡ some g
    → (g.key == some k) ≡ false
    → Distinct gs
    → under k (retain (is_else n) gs) ≡ under k gs
unfolding under find_guard
under-other k n g [] f o d = refl
under-other k n g (h ∷ gs) f o d = elim (Bool-cases (h.serial == n)) [
  | inr miss ↦
      let ih = under-other k n g gs (rw (miss, find_guard) at f) o d.1 in
      rw (miss, under) (ground (arith, ih))
  | inl hit ↦
      let here : h ≡ g = ground (arith, f, hit) in
      let same : h.serial ≡ n = (nat_eq.same_iff h.serial n).0 hit in
      let apart : (h.key == some k) ≡ false =
        ap (λ (x : InFlightGuard). x.key == some k) here ∙ o in
      rw (hit, retain-All n gs (rw same at d.0), under) (rw apart refl)
]
