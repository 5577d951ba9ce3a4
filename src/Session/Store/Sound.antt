-- ===== src/Session/Store/Sound.antt =====
-- mcp/session.rs: what every sequence of handshakes, requests and ends keeps.
use dravr_tronc.Common.{
  ℕ, ◌-◌, ◌%◌, ◌≤◌, ◌<◌, ◌≡◌, refl, inl, inr, Option, none, some, String, List, [], ◌∷◌, arith,
  string_eq, nat_eq, if◌then◌else◌, Bool-cases, Option-cases, ◌==◌,
}
use dravr_tronc.Common.Assoc.{lookup}
use dravr_tronc.Session.{
  Session, ToolContext, begin_use, end_use, usize, is_expired, is_owned_by, is_idle,
  shares_caller_with, connection,
}
use dravr_tronc.Session as S
use dravr_tronc.Session.Store.{
  World, Heap, SessionLimits, find, find_swept, enter, end, leave, write, sweep_if_due, enter_swept,
}
use dravr_tronc.Session.Store.Held.{held, held-heap}
use dravr_tronc.Session.Store.Bounds.{IsBounded, sweep_if_due-IsBounded, remove_and_end-IsBounded}
use dravr_tronc.Session.Store.Insert.{insert-IsBounded}
use dravr_tronc.Session.Store.Frames.{
  heap-insert, heap-find, heap-end, heap-enter, entered, insert_listed, find_sound, enter_sound,
  end_sound,
}
use dravr_tronc.Session.Store.Access.{enter_iff}
use dravr_tronc.Session.Store.Runs.{
  System, Event, initializes, finds, enters, leaves, ends, count, remove_one, admit, handshaken,
  step, run, start,
}

-- A session that is written at `r` keeps the bounds, if each listed one stays its caller's.
write-IsBounded :
    (w : World) (r : ℕ) (s : Session)
    → IsBounded w
    → ((k : String)
        → lookup k w.sessions ≡ some r
        → (s.user ≡ (w.heap r).user) × (s.tenant ≡ (w.heap r).tenant))
    → IsBounded (write w r s)
unfolding shares_caller_with
write-IsBounded w r s b same = record {
  is_map = b.is_map;
  total_le = b.total_le;
  caller_le = λ c. omega (
    arith,
    b.caller_le c,
    held-heap w.heap (write w r s).heap c w.sessions b.is_map
        (λ k x l. ground (arith, same k, nat_eq.same_iff x r)),
  );
}

-- What every reachable system satisfies.
pub record IsSound (s : System) : Type 0 where
  pub bounded : IsBounded s.world
  -- The counter of a session is the number of its requests, as far as the machine word goes.
  pub counted : (r : ℕ) → (s.heap r).active ≡ count r s.uses % usize
  pub unborn : (r : ℕ) → s.next ≤ r → count r s.uses ≡ 0
  pub listed : (k : String) (x : ℕ) → lookup k s.sessions ≡ some x → x < s.next

start-IsSound : (now ttl : ℕ) (limits : SessionLimits) → IsSound (start now ttl limits)
unfolding start lookup held connection
start-IsSound now ttl limits = record {
  bounded = record { is_map = tt; total_le = omega arith; caller_le = λ s. omega arith };
  counted = λ r. refl;
  unborn = λ r h. refl;
  listed = λ k x l. ground arith;
}

count-remove_one :
    (r q : ℕ) (xs : List ℕ)
    → count r (remove_one q xs) ≡ (if q == r then count r xs - 1 else count r xs)
count-remove_one r q [] = ground arith
count-remove_one r q (x ∷ xs) = ground (arith, count-remove_one r q xs)

find-IsBounded : (now : ℕ) (id : String) (w : World) → IsBounded w → IsBounded (find now id w).0
unfolding find find_swept
find-IsBounded now id w b =
    let v = sweep_if_due now w in
    let b' = sweep_if_due-IsBounded now w b in
    elim (Option-cases (lookup id v.sessions)) [
      | inl missing ↦ rw (missing, find_swept) b'
      | inr (x, found) ↦ elim (Bool-cases (is_expired v.ttl now (v.heap x))) [
        | inl old ↦ rw (found, find_swept, old) (remove_and_end-IsBounded id v b')
        | inr live ↦ rw (found, find_swept, live) b'
      ]
    ]

enter-IsBounded :
    (now : ℕ) (id : String) (ctx : ToolContext) (w : World)
    → IsBounded w
    → IsBounded (enter now id ctx w).0
unfolding enter enter_swept begin_use
enter-IsBounded now id ctx w b =
    let v = sweep_if_due now w in
    let b' = sweep_if_due-IsBounded now w b in
    elim (Option-cases (lookup id v.sessions)) [
      | inl missing ↦ rw (missing, enter_swept) b'
      | inr (x, found) ↦ elim (Bool-cases (is_expired v.ttl now (v.heap x))) [
        | inl old ↦ rw (found, enter_swept, old) (remove_and_end-IsBounded id v b')
        | inr live ↦ elim (Bool-cases (is_owned_by ctx (v.heap x))) [
          | inl own ↦
              rw (found, enter_swept, live, own)
                (write-IsBounded v x (begin_use (v.heap x)) b' (λ k l. (refl, refl)))
          | inr other ↦ rw (found, enter_swept, live, other) b'
        ]
      ]
    ]

end-IsBounded : (id : String) (w : World) → IsBounded w → IsBounded (end id w).0
unfolding end
end-IsBounded id w b = elim (Option-cases (lookup id w.sessions)) [
  | inl missing ↦ rw (missing, end) b
  | inr (x, found) ↦ rw (found, end) (remove_and_end-IsBounded id w b)
]

counted_after :
    (got : Option ℕ) (heap : Heap) (uses : List ℕ) (r : ℕ)
    → (heap r).active ≡ count r uses % usize
    → (entered got heap r).active ≡ count r (admit got uses) % usize
unfolding begin_use
counted_after none heap uses r h = h
counted_after (some x) heap uses r h = ground (arith, nat_eq.same_iff r x, nat_eq.same_iff x r)

module _ (s : System) (v : IsSound s) where
  -- No listed session is at the place of the next one.
  pub write_fresh-IsBounded : (t : Session) → IsBounded (write s.world s.next t)
  write_fresh-IsBounded t =
      write-IsBounded s.world s.next t v.bounded
        (λ k l. absurd (omega (arith, v.listed k s.next l)))

  initializes-IsSound :
      (minted now : ℕ) (id : String) (ctx : ToolContext)
      → IsSound (step (initializes minted now id ctx) s)
  unfolding step begin_use end_use S.new
  initializes-IsSound minted now id ctx =
      let w = write s.world s.next (handshaken minted now id ctx) in
      let b = write_fresh-IsBounded (handshaken minted now id ctx) in
      record {
        bounded = insert-IsBounded now s.next w b;
        counted = λ r.
            rw (heap-insert now s.next w b.is_map)
              (ground (arith, v.counted r, v.unborn r, nat_eq.same_iff r s.next));
        unborn = λ r h. v.unborn r (omega arith);
        listed = λ k x l. ground (arith, insert_listed now s.next w k x b.is_map l, v.listed k x);
      }

  finds-IsSound : (now : ℕ) (id : String) → IsSound (step (finds now id) s)
  unfolding step
  finds-IsSound now id =
      let m = v.bounded.is_map in
      record {
        bounded = find-IsBounded now id s.world v.bounded;
        counted = λ r. rw (heap-find now id s.world m) (v.counted r);
        unborn = v.unborn;
        listed = λ k x l. v.listed k x (find_sound now id s.world k x m l);
      }

  ends-IsSound : (id : String) → IsSound (step (ends id) s)
  unfolding step
  ends-IsSound id = record {
    bounded = end-IsBounded id s.world v.bounded;
    counted = λ r. rw (heap-end id s.world) (v.counted r);
    unborn = v.unborn;
    listed = λ k x l. v.listed k x (end_sound id s.world k x l);
  }

  leaves-IsSound : (now r : ℕ) → IsSound (step (leaves now r) s)
  unfolding step leave end_use
  leaves-IsSound now r = elim (Bool-cases (count r s.uses == 0)) [
    | inl none_left ↦ rw none_left v
    | inr some_left ↦ rw some_left (record {
      bounded = write-IsBounded s.world r (end_use now (s.heap r)) v.bounded (λ k l. (refl, refl));
      counted = λ q.
          ground
            (arith, v.counted q, v.counted r, count-remove_one q r s.uses, nat_eq.same_iff q r);
      unborn = λ q h. ground (arith, v.unborn q h, count-remove_one q r s.uses);
      listed = v.listed;
    })
  ]

  enters-IsSound :
      (now : ℕ) (id : String) (ctx : ToolContext) → IsSound (step (enters now id ctx) s)
  unfolding step
  enters-IsSound now id ctx =
      let m = v.bounded.is_map in
      let got = (enter now id ctx s.world).1 in
      record {
        bounded = enter-IsBounded now id ctx s.world v.bounded;
        counted = λ r.
            rw (heap-enter now id ctx s.world m) (counted_after got s.heap s.uses r (v.counted r));
        unborn = λ r h. elim (Option-cases got) [
          | inl missed ↦ rw missed (v.unborn r h)
          | inr (x, e) ↦
              let below = v.listed id x ((enter_iff now id ctx s.world x m).0 e).0 in
              rw e (ground (arith, v.unborn r h, nat_eq.same_iff x r))
        ];
        listed = λ k x l. v.listed k x (enter_sound now id ctx s.world k x m l);
      }

-- No event breaks what a system promises: the limits of the store, the counters of its sessions.
pub step-IsSound : (e : Event) (s : System) → IsSound s → IsSound (step e s)
step-IsSound (initializes minted now id ctx) s v = initializes-IsSound s v minted now id ctx
step-IsSound (finds now id) s v = finds-IsSound s v now id
step-IsSound (enters now id ctx) s v = enters-IsSound s v now id ctx
step-IsSound (leaves now r) s v = leaves-IsSound s v now r
step-IsSound (ends id) s v = ends-IsSound s v id

run-IsSound : (es : List Event) (s : System) → IsSound s → IsSound (run es s)
unfolding run
run-IsSound [] s v = v
run-IsSound (e ∷ es) s v = run-IsSound es (step e s) (step-IsSound e s v)

-- After any sequence of events the store holds at most as many sessions as it may, in all and for
-- each caller; no id is listed twice; and the counter of each session is the number of its
-- running requests, modulo the machine word.
pub run-start-IsSound :
    (now ttl : ℕ) (limits : SessionLimits) (es : List Event)
    → IsSound (run es (start now ttl limits))
run-start-IsSound now ttl limits es = run-IsSound es _ (start-IsSound now ttl limits)
