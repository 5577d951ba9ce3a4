-- ===== src/Session/Store/Eviction.antt =====
-- mcp/session.rs: which sessions an `insert` may cost, and when it is refused.
use dravr_tronc.Common.{
  ℕ, ◌≤◌, ◌≡◌, ◌≢◌, ◌↔◌, sym, ap, ◌∙◌, ◌⊎◌, inl, inr, true, false, none, some, String, arith, ◌==◌,
  nat_eq, string_eq, option_eq, Bool-cases, Option-cases, leb, ok, err,
}
use mathlib.Core.Path.{subst₂}
use dravr_tronc.Common.Assoc.{lookup, IsMap, lookup-without, lookup-insert, without-IsMap}
use dravr_tronc.Session.{Session, is_idle, is_expired, shares_caller_with}
use dravr_tronc.Session.Store.{
  World, Heap, Entries, Census, take_census, no_census, place, make_room, insert_swept, insert,
  drop_expired, sweep_if_due, remove_and_end, caller_full,
}
use dravr_tronc.Session.Store.Sweep.{drop_expired-Drops, sweep_if_due-Drops, lookup-Drops_live}
use dravr_tronc.Session.Store.Held.{held}
use dravr_tronc.Session.Store.LeastRecent.{theirs-take_census, take_census_oldest, AtMost}
use dravr_tronc.Session.Store.Insert.{census-Names}

module _ (id : String) (now r : ℕ) (w : World) (m : IsMap w.sessions) where
  place_keeps :
      (k : String) (x : ℕ)
      → lookup k w.sessions ≡ some x
      → is_expired w.ttl now (w.heap x) ≡ false
      → k ≢ id
      → lookup k (place id now r w).0.sessions ≡ some x
  unfolding place
  place_keeps k x l e n = ground (
    arith,
    lookup-Drops_live (drop_expired-Drops now w m) k x l e,
    lookup-insert id k r w.sessions,
    lookup-insert id k r (drop_expired now w).sessions,
    string_eq.same_iff id k,
  )

  place_sound :
      (k : String)
      → lookup k w.sessions ≡ none
      → k ≢ id
      → lookup k (place id now r w).0.sessions ≡ none
  unfolding place
  place_sound k l n = ground (
    arith,
    (drop_expired-Drops now w m).sound k l,
    lookup-insert id k r w.sessions,
    lookup-insert id k r (drop_expired now w).sessions,
    string_eq.same_iff id k,
  )

  place_mono : (x : ℕ) → w.fired x ≡ true → (place id now r w).0.fired x ≡ true
  unfolding place
  place_mono x h = ground (arith, (drop_expired-Drops now w m).mono x h)

  place_registers : (place id now r w).1 ≡ ok tt → lookup id (place id now r w).0.sessions ≡ some r
  unfolding place
  place_registers h = ground (
    arith,
    lookup-insert id id r w.sessions,
    lookup-insert id id r (drop_expired now w).sessions,
    string_eq.same_iff id id,
  )

-- Every session of the caller of `s` is serving a request.
abbrev pub AllBusy : Heap → Session → Entries → Type 0
AllBusy heap s m =
    (k : String) (x : ℕ)
    → lookup k m ≡ some x
    → shares_caller_with s (heap x) ≡ true
    → is_idle (heap x) ≡ false

least_recent_none_iff :
    (heap : Heap) (s : Session) (m : Entries)
    → IsMap m
    → ((take_census heap s m no_census).least_recent ≡ none) ↔ AllBusy heap s m
least_recent_none_iff heap s m u = (
  λ e k x l h. elim (Bool-cases (is_idle (heap x))) [
    | inl idle ↦ absurd (rw e at (take_census_oldest heap s m no_census k x l h idle))
    | inr busy ↦ busy
  ],
  λ busy. elim (Option-cases (take_census heap s m no_census).least_recent) [
    | inl e ↦ e
    | inr ((seen, key), e) ↦
        let n = census-Names heap s m seen key u e in
        ground (arith, busy key n.at n.listed n.theirs, n.idle)
  ],
)

place-ne-caller_full :
    (id : String) (now r : ℕ) (w : World) → (place id now r w).1 ≢ err caller_full
unfolding place
place-ne-caller_full id now r w = ground arith

make_room_full_iff :
    (id : String) (now r : ℕ) (w : World) (c : Census)
    → ((make_room id now r w c).1 ≡ err caller_full)
      ↔ ((w.per_caller ≤ c.theirs) × (c.least_recent ≡ none))
unfolding make_room
make_room_full_iff id now r w c = elim (Option-cases c.least_recent) [
  | inl e ↦ rw (e, make_room) (ground (arith, place-ne-caller_full id now r w))
  | inr ((seen, key), e) ↦
      rw (e, make_room)
        (ground (
          arith,
          place-ne-caller_full id now r w,
          place-ne-caller_full id now r (remove_and_end key w),
        ))
]

make_room_caller_full_iff :
    (id : String) (now r : ℕ) (w : World)
    → IsMap w.sessions
    → ((make_room id now r w (take_census w.heap (w.heap r) w.sessions no_census)).1
        ≡ err caller_full)
      ↔ ((w.per_caller ≤ held w.heap (w.heap r) w.sessions) × AllBusy w.heap (w.heap r) w.sessions)
make_room_caller_full_iff id now r w m =
    let s = w.heap r in
    let full = make_room_full_iff id now r w (take_census w.heap s w.sessions no_census) in
    let busy = least_recent_none_iff w.heap s w.sessions m in
    let counted = theirs-take_census w.heap s w.sessions no_census in
    (
      λ h. (omega (arith, (full.0 h).0, counted), busy.0 (full.0 h).1),
      λ h. full.1 (omega (arith, h.0, counted), busy.1 h.1),
    )

-- A new session with an id is refused for its caller exactly when, after the sweep, the caller
-- holds as many sessions as it may and every one of them is serving a request.
pub insert_caller_full_iff :
    (now r : ℕ) (w : World) (id : String)
    → IsMap w.sessions
    → (w.heap r).id ≡ some id
    → let w' = sweep_if_due now w in
      ((insert now r w).1 ≡ err caller_full) ↔ (
        (w.per_caller ≤ held w.heap (w.heap r) w'.sessions) × AllBusy w.heap (w.heap r) w'.sessions)
unfolding insert insert_swept
insert_caller_full_iff now r w id m e =
    let w' = sweep_if_due now w in
    let d = sweep_if_due-Drops now w m in
    let e' : (w'.heap r).id ≡ some id = ap (λ (h : Heap). (h r).id) d.heap ∙ e in
    rw (e', insert_swept)
      (subst₂
        (λ (h : Heap) (p : ℕ).
          ((make_room id now r w' (take_census w'.heap (w'.heap r) w'.sessions no_census)).1
            ≡ err caller_full)
          ↔ ((p ≤ held h (h r) w'.sessions) × AllBusy h (h r) w'.sessions))
        d.heap d.per_caller (make_room_caller_full_iff id now r w' d.is_map))

-- The session of the entry `k` gave way to the new session of the caller of `s`.
pub record GaveWay (w w' : World) (now : ℕ) (s : Session) (x : ℕ) : Type 0 where
  pub ended : w'.fired x ≡ true
  pub theirs : shares_caller_with s (w.heap x) ≡ true
  pub idle : is_idle (w.heap x) ≡ true
  pub oldest :
      (j : String) (y : ℕ)
      → lookup j w.sessions ≡ some y
      → is_expired w.ttl now (w.heap y) ≡ false
      → shares_caller_with s (w.heap y) ≡ true
      → is_idle (w.heap y) ≡ true
      → (w.heap x).last_seen ≤ (w.heap y).last_seen

pub remove_and_end_keeps :
    (key : String) (w : World) (k : String) (x : ℕ)
    → lookup k w.sessions ≡ some x
    → key ≢ k
    → lookup k (remove_and_end key w).sessions ≡ some x
unfolding remove_and_end
remove_and_end_keeps key w k x l n =
    ground (arith, lookup-without key k w.sessions, string_eq.same_iff key k)

pub remove_and_end_fires :
    (k : String) (w : World) (x : ℕ)
    → lookup k w.sessions ≡ some x
    → (remove_and_end k w).fired x ≡ true
unfolding remove_and_end
remove_and_end_fires k w x l = rw (l, remove_and_end) (ground (arith, nat_eq.same_iff x x))

is_expired-remove_and_end :
    (k : String) (w : World) (now x : ℕ)
    → is_expired (remove_and_end k w).ttl now ((remove_and_end k w).heap x)
      ≡ is_expired w.ttl now (w.heap x)
unfolding remove_and_end
is_expired-remove_and_end k w now x = ground arith

pub remove_and_end-IsMap :
    (k : String) (w : World) → IsMap w.sessions → IsMap (remove_and_end k w).sessions
unfolding remove_and_end
remove_and_end-IsMap k w m = ground (arith, without-IsMap k w.sessions m)

names-GaveWay :
    (w w' : World) (now : ℕ) (s : Session) (seen : ℕ) (k : String) (x : ℕ)
    → IsMap w.sessions
    → (take_census w.heap s w.sessions no_census).least_recent ≡ some (seen, k)
    → lookup k w.sessions ≡ some x
    → w'.fired x ≡ true
    → GaveWay w w' now s x
names-GaveWay w w' now s seen k x m e l f =
    let n = census-Names w.heap s w.sessions seen k m e in
    let same : n.at ≡ x = ground (arith, n.listed) in
    record {
      ended = f;
      theirs = ap (λ (y : ℕ). shares_caller_with s (w.heap y)) (sym same) ∙ n.theirs;
      idle = ap (λ (y : ℕ). is_idle (w.heap y)) (sym same) ∙ n.idle;
      oldest = λ j y lj _ hj ij.
          let at_most : AtMost (some (seen, k)) (w.heap y).last_seen =
            rw e at (take_census_oldest w.heap s w.sessions no_census j y lj hj ij) in
          rw (← same) (omega (arith, at_most, n.seen_then));
    }

-- Where nothing has been swept away yet: an unexpired session stays, or gives way.
pub make_room_keeps :
    (id : String) (now r : ℕ) (w : World)
    → IsMap w.sessions
    → let s = w.heap r in
      let w' = (make_room id now r w (take_census w.heap s w.sessions no_census)).0 in
      (k : String) (x : ℕ)
      → lookup k w.sessions ≡ some x
      → is_expired w.ttl now (w.heap x) ≡ false
      → k ≢ id
      → (lookup k w'.sessions ≡ some x) ⊎ GaveWay w w' now s x
unfolding make_room
make_room_keeps id now r w m k x l e n =
    let c = take_census w.heap (w.heap r) w.sessions no_census in
    elim (Bool-cases (leb w.per_caller c.theirs)) [
      | inr room ↦ rw room (inl (place_keeps id now r w m k x l e n))
      | inl full ↦ rw full (elim (Option-cases c.least_recent) [
        | inl busy ↦ rw busy (inl l)
        | inr ((seen, key), named) ↦
            let v = remove_and_end key w in
            let u = remove_and_end-IsMap key w m in
            rw named (elim (Bool-cases (key == k)) [
              | inl hit ↦
                  let same : key ≡ k = (string_eq.same_iff key k).0 hit in
                  inr (
                    names-GaveWay w _ now (w.heap r) seen k x m (rw same at named) l
                      (place_mono id now r v u x (rw same (remove_and_end_fires k w x l))))
              | inr miss ↦ inl (
                  place_keeps id now r v u k x
                    (remove_and_end_keeps key w k x l (ground (arith, string_eq.same_iff key k)))
                    (is_expired-remove_and_end key w now x ∙ e) n)
            ])
      ])
    ]
