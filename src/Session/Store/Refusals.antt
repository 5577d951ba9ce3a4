-- ===== src/Session/Store/Refusals.antt =====
-- mcp/session.rs: `insert` as a whole, the sweep included: what it keeps, and what a refusal costs.
use dravr_tronc.Common.{
  ℕ, ◌≤◌, ◌≡◌, ◌≢◌, ap, ◌∙◌, sym, ◌⊎◌, inl, inr, false, some, String, arith, string_eq, Bool-cases,
  Option-cases, leb, err,
}
use dravr_tronc.Common.Lists.{length}
use dravr_tronc.Common.Assoc.{lookup, IsMap, length-without-lt}
use dravr_tronc.Session.{is_expired}
use dravr_tronc.Session.Store.{
  World, Heap, SessionRefusal, take_census, no_census, place, make_room, insert_swept, insert,
  sweep_if_due, remove_and_end,
}
use dravr_tronc.Session.Store.Sweep.{
  Drops, drop_expired-Drops, sweep_if_due-Drops, lookup-Drops_live, is_expired-Drops,
}
use dravr_tronc.Session.Store.Bounds.{IsBounded, sweep_if_due-IsBounded}
use dravr_tronc.Session.Store.Insert.{census-Names}
use dravr_tronc.Session.Store.Eviction.{GaveWay, make_room_keeps}

-- What gives way after a sweep gives way in the store before it.
GaveWay-Drops :
    {now : ℕ} {w v w' : World} {r x : ℕ}
    → Drops now w v
    → GaveWay v w' now (v.heap r) x
    → GaveWay w w' now (w.heap r) x
GaveWay-Drops {now} {w} {v} {w'} {r} {x} d g =
    let h : (y : ℕ) → v.heap y ≡ w.heap y = λ y. ap (λ (f : Heap). f y) d.heap in
    record {
      ended = g.ended;
      theirs = ground (arith, h x, h r, g.theirs);
      idle = ground (arith, h x, g.idle);
      oldest = λ j y l e sh i. ground (
        arith,
        h x,
        h y,
        h r,
        g.oldest j y (lookup-Drops_live d j y l e) (is_expired-Drops d j y ∙ e)
            (ground (arith, h y, h r)) (ground (arith, h y)),
      );
    }

-- An unexpired session other than the one that is inserted stays listed, or it gave way to a
-- session of its own caller, as that caller's least recently used idle one, and was ended.
pub insert_keeps :
    (now r : ℕ) (w : World) (k : String) (x : ℕ)
    → IsMap w.sessions
    → (w.heap r).id ≢ some k
    → lookup k w.sessions ≡ some x
    → is_expired w.ttl now (w.heap x) ≡ false
    → (lookup k (insert now r w).0.sessions ≡ some x)
      ⊎ GaveWay w (insert now r w).0 now (w.heap r) x
unfolding insert insert_swept
insert_keeps now r w k x m n l e =
    let v = sweep_if_due now w in
    let d = sweep_if_due-Drops now w m in
    let l' = lookup-Drops_live d k x l e in
    elim (Option-cases (v.heap r).id) [
      | inl anonymous ↦ rw (anonymous, insert_swept) (inl l')
      | inr (id, named) ↦
          rw (named, insert_swept)
            (elim (make_room_keeps id now r v d.is_map k x l' (is_expired-Drops d k x ∙ e)
              (λ same. n (ap (λ (f : Heap). (f r).id) (sym d.heap) ∙ named ∙ ap some (sym same)))) [
                | inl kept ↦ inl kept
                | inr g ↦ inr (GaveWay-Drops d g)
              ])
    ]

place_refused :
    (id : String) (now r : ℕ) (w : World) (k : String) (x : ℕ) (refusal : SessionRefusal)
    → IsMap w.sessions
    → (place id now r w).1 ≡ err refusal
    → lookup k w.sessions ≡ some x
    → is_expired w.ttl now (w.heap x) ≡ false
    → lookup k (place id now r w).0.sessions ≡ some x
unfolding place
place_refused id now r w k x refusal m h l e =
    ground (arith, lookup-Drops_live (drop_expired-Drops now w m) k x l e)

-- A store that is within its limit has room once a session was evicted.
place-remove_and_end :
    (id : String) (now r : ℕ) (w : World) (key : String) (x : ℕ) (refusal : SessionRefusal)
    → lookup key w.sessions ≡ some x
    → length w.sessions ≤ w.total
    → (place id now r (remove_and_end key w)).1 ≢ err refusal
unfolding place remove_and_end
place-remove_and_end id now r w key x refusal l b =
    rw (l, remove_and_end) (ground (arith, length-without-lt key x w.sessions l))

make_room_refused :
    (id : String) (now r : ℕ) (w : World) (k : String) (x : ℕ) (refusal : SessionRefusal)
    → IsBounded w
    → let w' = make_room id now r w (take_census w.heap (w.heap r) w.sessions no_census) in
      w'.1 ≡ err refusal
      → lookup k w.sessions ≡ some x
      → is_expired w.ttl now (w.heap x) ≡ false
      → lookup k w'.0.sessions ≡ some x
unfolding make_room
make_room_refused id now r w k x refusal b h l e =
    let c = take_census w.heap (w.heap r) w.sessions no_census in
    elim (Bool-cases (leb w.per_caller c.theirs)) [
      | inr room ↦ rw room (place_refused id now r w k x refusal b.is_map (rw room at h) l e)
      | inl full ↦ rw full (elim (Option-cases c.least_recent) [
        | inl busy ↦ rw busy l
        | inr ((seen, key), named) ↦
            let n = census-Names w.heap (w.heap r) w.sessions seen key b.is_map named in
            absurd (
              place-remove_and_end id now r w key n.at refusal n.listed b.total_le
                (rw named at (rw full at h)))
      ])
    ]

-- A refused insert costs no session that has not expired.
pub insert_refused_keeps :
    (now r : ℕ) (w : World) (k : String) (x : ℕ) (refusal : SessionRefusal)
    → IsBounded w
    → (insert now r w).1 ≡ err refusal
    → lookup k w.sessions ≡ some x
    → is_expired w.ttl now (w.heap x) ≡ false
    → lookup k (insert now r w).0.sessions ≡ some x
unfolding insert insert_swept
insert_refused_keeps now r w k x refusal b h l e =
    let v = sweep_if_due now w in
    let d = sweep_if_due-Drops now w b.is_map in
    let l' = lookup-Drops_live d k x l e in
    elim (Option-cases (v.heap r).id) [
      | inl anonymous ↦ rw (anonymous, insert_swept) l'
      | inr (id, named) ↦
          rw (named, insert_swept)
            (make_room_refused id now r v k x refusal (sweep_if_due-IsBounded now w b)
              (rw (named, insert_swept) at h) l' (is_expired-Drops d k x ∙ e))
    ]
