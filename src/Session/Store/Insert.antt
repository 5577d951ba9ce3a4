-- ===== src/Session/Store/Insert.antt =====
-- mcp/session.rs: what `insert` does on each branch.
use dravr_tronc.Common.{
  ℕ, ◌<◌, ◌≡◌, inl, inr, some, String, arith, nat_eq, string_eq, option_eq, Bool-cases,
  Option-cases, leb,
}
use dravr_tronc.Common.Lists.{length}
use dravr_tronc.Common.Assoc.{insert as put, IsMap, length-without-le, insert-IsMap}
use dravr_tronc.Session.{Session}
use dravr_tronc.Session.Store.{
  World, Heap, Entries, take_census, no_census, place, make_room, insert_swept, insert,
  drop_expired, sweep_if_due, remove_and_end, is_live, keep,
}
use dravr_tronc.Session.Store.LeastRecent.{theirs-take_census, take_census-Names, Names}
use dravr_tronc.Session.Store.Held.{
  held, held-retain-le, held-put, held-without-le, held-without-lt, held-shares,
}
use dravr_tronc.Session.Store.Bounds.{
  IsBounded, drop_expired-IsBounded, sweep_if_due-IsBounded, remove_and_end-IsBounded,
}

-- Room for one more session of the caller of `s`.
abbrev HasRoom : Session → World → Type 0
HasRoom s w = held w.heap s w.sessions < w.per_caller

put-IsBounded :
    (id : String) (r : ℕ) (w : World)
    → IsBounded w
    → length w.sessions < w.total
    → HasRoom (w.heap r) w
    → IsBounded (keep w (put id r w.sessions))
unfolding put
put-IsBounded id r w b h k = record {
  is_map = insert-IsMap id r w.sessions b.is_map;
  total_le = omega (arith, length-without-le id w.sessions);
  caller_le = λ s. ground (
    arith,
    held-put w.heap s id r w.sessions,
    held-without-le w.heap s id w.sessions,
    b.caller_le s,
    held-shares w.heap s (w.heap r) w.sessions,
  );
}

drop_expired-HasRoom :
    (s : Session) (now : ℕ) (w : World) → HasRoom s w → HasRoom s (drop_expired now w)
unfolding drop_expired
drop_expired-HasRoom s now w h =
    omega (arith, held-retain-le w.heap s (is_live w.ttl now w.heap) w.sessions)

pub place-IsBounded :
    (id : String) (now r : ℕ) (w : World)
    → IsBounded w
    → HasRoom (w.heap r) w
    → IsBounded (place id now r w).0
unfolding place drop_expired
place-IsBounded id now r w b k =
    let b' = drop_expired-IsBounded now w b in
    let w' = drop_expired now w in
    elim (Bool-cases (leb w.total (length w.sessions))) [
      | inr room ↦ rw room (put-IsBounded id r w b (ground arith) k)
      | inl full ↦ rw full (elim (Bool-cases (leb w.total (length w'.sessions))) [
        | inl still ↦ rw still b'
        | inr room ↦
            rw room
              (put-IsBounded id r w' b' (ground arith) (drop_expired-HasRoom (w.heap r) now w k))
      ])
    ]

-- A caller at its limit has room once its least recently used session is gone.
remove_and_end-HasRoom :
    (r : ℕ) (w : World) (seen : ℕ) (key : String)
    → IsBounded w
    → Names w.heap (w.heap r) w.sessions seen key
    → HasRoom ((remove_and_end key w).heap r) (remove_and_end key w)
unfolding remove_and_end
remove_and_end-HasRoom r w seen key b n =
    let s = w.heap r in
    rw (n.listed, remove_and_end)
      (omega (arith, held-without-lt w.heap s key n.at w.sessions n.listed n.theirs, b.caller_le s))

-- The session that the census of the whole store names.
pub census-Names :
    (heap : Heap) (s : Session) (m : Entries) (seen : ℕ) (key : String)
    → IsMap m
    → (take_census heap s m no_census).least_recent ≡ some (seen, key)
    → Names heap s m seen key
census-Names heap s m seen key u e = elim (take_census-Names heap s m no_census seen key u e) [
  | inl impossible ↦ cc
  | inr n ↦ n
]

make_room-IsBounded :
    (id : String) (now r : ℕ) (w : World)
    → IsBounded w
    → IsBounded (make_room id now r w (take_census w.heap (w.heap r) w.sessions no_census)).0
unfolding make_room
make_room-IsBounded id now r w b =
    let s = w.heap r in
    let c = take_census w.heap s w.sessions no_census in
    let counted = theirs-take_census w.heap s w.sessions no_census in
    elim (Bool-cases (leb w.per_caller c.theirs)) [
      | inr room ↦ rw room (place-IsBounded id now r w b (ground (arith, counted)))
      | inl full ↦ rw full (elim (Option-cases c.least_recent) [
        | inl busy ↦ rw busy b
        | inr ((seen, key), e) ↦ rw e (
            place-IsBounded id now r (remove_and_end key w) (remove_and_end-IsBounded key w b) (
              remove_and_end-HasRoom r w seen key b
                (census-Names w.heap s w.sessions seen key b.is_map e)))
      ])
    ]

pub insert-IsBounded : (now r : ℕ) (w : World) → IsBounded w → IsBounded (insert now r w).0
unfolding insert insert_swept
insert-IsBounded now r w b =
    let w' = sweep_if_due now w in
    let b' = sweep_if_due-IsBounded now w b in
    elim (Option-cases (w'.heap r).id) [
      | inl anonymous ↦ rw (anonymous, insert_swept) b'
      | inr (id, e) ↦ rw (e, insert_swept) (make_room-IsBounded id now r w' b')
    ]
